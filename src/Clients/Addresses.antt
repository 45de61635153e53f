-- ===== src/Clients/Addresses.antt =====
-- clients.go: `normalizeIPs`, and the order of the client keys in a query.
use passwall_node.Prelude.{
  Bool, false, ◌||◌, Option, none, some, List, [], ◌∷◌, ◌++◌, String, text_leb, if◌then◌else◌,
  str_eq, plain, Result, ok, err,
}

unfoldable pub contains : String → List String → Bool
contains x [] = false
contains x (y ∷ ys) = str_eq x y || contains x ys

unfoldable pub insert_text : String → List String → List String
insert_text x [] = x ∷ []
insert_text x (y ∷ ys) = if text_leb x y then x ∷ y ∷ ys else y ∷ insert_text x ys

unfoldable pub sort_texts : List String → List String
sort_texts [] = []
sort_texts (x ∷ xs) = insert_text x (sort_texts xs)

-- The loop of `normalizeIPs`: the canonical addresses seen so far, each once.
unfoldable pub canonical_ips :
    (String → Option String) → List String → List String → Option (List String)
canonical_ips canonical [] out = some out
canonical_ips canonical (v ∷ vs) out = elim (canonical v) [
  | none ↦ none
  | some c ↦ canonical_ips canonical vs (if contains c out then out else out ++ c ∷ [])
]

-- `normalizeIPs`
unfoldable pub normalize_ips : (String → Option String) → List String → Result (List String)
normalize_ips canonical values = elim (canonical_ips canonical values []) [
  | none ↦ err plain
  | some ips ↦ ok (sort_texts ips)
]
