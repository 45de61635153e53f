-- ===== src/Releases/Texts.antt =====
-- The functions of Go's strings and strconv that package releaseid uses, on the bytes of a text.
use passwall_node.Prelude.{
  ℕ, zero, suc, ◌+◌, ◌-◌, ◌*◌, ◌/◌, ◌%◌, Bool, true, false, ◌&&◌, ◌||◌, Option, none, some, List,
  [], ◌∷◌, if◌then◌else◌, ltb, ◌==◌,
}

-- `a == b`
unfoldable pub bytes_eq : List ℕ → List ℕ → Bool
bytes_eq [] [] = true
bytes_eq (x ∷ xs) (y ∷ ys) = x == y && bytes_eq xs ys
bytes_eq _ _ = false

-- `s == ""`
abbrev pub no_bytes : List ℕ → Bool
no_bytes [] = true
no_bytes (x ∷ xs) = false

-- `strings.Contains` of one byte, and the two parts of `strings.Cut` by it.
unfoldable pub holds : ℕ → List ℕ → Bool
holds c [] = false
holds c (x ∷ xs) = x == c || holds c xs

unfoldable pub before : ℕ → List ℕ → List ℕ
before c [] = []
before c (x ∷ xs) = let rest = before c xs in if x == c then [] else x ∷ rest

unfoldable pub after : ℕ → List ℕ → List ℕ
after c [] = []
after c (x ∷ xs) = if x == c then xs else after c xs

-- `strings.Split` by one byte
abbrev pub cons_head : ℕ → List (List ℕ) → List (List ℕ)
cons_head x [] = (x ∷ []) ∷ []
cons_head x (p ∷ ps) = (x ∷ p) ∷ ps

unfoldable pub split : ℕ → List ℕ → List (List ℕ)
split c [] = [] ∷ []
split c (x ∷ xs) = let rest = split c xs in if x == c then [] ∷ rest else cons_head x rest

-- `strings.Count` of one byte
unfoldable pub count : ℕ → List ℕ → ℕ
count c [] = 0
count c (x ∷ xs) = let rest = count c xs in if x == c then suc rest else rest

-- `strings.CutPrefix`, and `strings.HasPrefix`
unfoldable pub cut_prefix : List ℕ → List ℕ → Option (List ℕ)
cut_prefix [] s = some s
cut_prefix (p ∷ ps) [] = none
cut_prefix (p ∷ ps) (x ∷ xs) = if p == x then cut_prefix ps xs else none

unfoldable pub has_prefix : List ℕ → List ℕ → Bool
unfolding cut_prefix
has_prefix p s = elim (cut_prefix p s) [ none ↦ false | some rest ↦ true ]

-- `strings.Contains`
unfoldable pub contains_text : List ℕ → List ℕ → Bool
contains_text p [] = no_bytes p
contains_text p (x ∷ xs) = has_prefix p (x ∷ xs) || contains_text p xs

-- `%d`, and `strconv.FormatInt`, of a number that is not negative: its decimal digits in front of
-- `rest`. A number is above its tenth, so that one more than the number is enough fuel.
unfoldable pub digits_onto : ℕ → ℕ → List ℕ → List ℕ
digits_onto zero n rest = rest
digits_onto (suc fuel) n rest =
    let more = digits_onto fuel (n / 10) ((48 + n % 10) ∷ rest) in
    if ltb n 10 then (48 + n) ∷ rest else more

unfoldable pub decimal : ℕ → List ℕ
unfolding digits_onto
decimal n = digits_onto (suc n) n []

-- The value of decimal digits behind a number; `strconv.ParseInt` gives it where it fits an `int64`.
unfoldable pub value_from : ℕ → List ℕ → ℕ
value_from n [] = n
value_from n (c ∷ cs) = value_from (n * 10 + (c - 48)) cs
