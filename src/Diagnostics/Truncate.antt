-- ===== src/Diagnostics/Truncate.antt =====
-- ring.go: `truncateUTF8` on the runes of a text.
use passwall_node.Prelude.{
  ℕ, zero, suc, ◌+◌, ◌-◌, ◌≤◌, ◌<◌, ◌≡◌, refl, sym, ap, ◌∙◌, true, false, List, [], ◌∷◌, ◌++◌,
  length, take, get_or, All, if◌then◌else◌, leb, leb→le, arith, Bool-cases, inl, inr, length-append,
  get_or-append_left, get_or-append_right, take-append,
}
use passwall_node.Diagnostics.{utf8_start, rune_boundary, truncate_utf8}

-- The bytes of one rune: a byte that starts one, and bytes that continue it.
pub data Rune : Type 0 where
  rune : ℕ → List ℕ → Rune

abbrev pub bytes : Rune → List ℕ
bytes (rune b bs) = b ∷ bs

abbrev pub IsRune : Rune → Type 0
IsRune (rune b bs) = (utf8_start b ≡ true) × All (λ c. utf8_start c ≡ false) bs

-- The text of some runes.
abbrev pub text : List Rune → List ℕ
text [] = []
text (r ∷ rs) = bytes r ++ text rs

-- The leading runes that fit whole into a number of bytes.
unfoldable pub fitting : ℕ → List Rune → List Rune
fitting n [] = []
fitting n (r ∷ rs) =
    let rest = fitting (n - length (bytes r)) rs in
    if leb (length (bytes r)) n then r ∷ rest else []

continues :
    (bs : List ℕ) (i : ℕ)
    → All (λ c. utf8_start c ≡ false) bs
    → i < length bs
    → utf8_start (get_or bs i 0) ≡ false
continues [] i h lt = absurd (omega arith)
continues (b ∷ bs) zero h lt = h.0
continues (b ∷ bs) (suc i) h lt = continues bs i h.1 (omega arith)

-- A cut inside the first rune goes back to the front.
boundary_inside :
    (r : Rune) (t : List ℕ) (cut : ℕ)
    → IsRune r
    → cut < length (bytes r)
    → rune_boundary (bytes r ++ t) cut ≡ 0
unfolding rune_boundary
boundary_inside r t zero h lt = refl
boundary_inside (rune b bs) t (suc cut) h lt =
    rw (get_or-append_left bs t cut 0 (omega arith), continues bs cut h.1 (omega arith))
      (boundary_inside (rune b bs) t cut h (omega arith))

-- A cut behind the first rune is one of the rest of the text.
boundary_behind :
    (b : ℕ) (bs t : List ℕ) (k c : ℕ)
    → utf8_start (get_or t 0 0) ≡ true
    → c ≡ length bs + k
    → rune_boundary (b ∷ bs ++ t) (suc c) ≡ suc (length bs) + rune_boundary t k
unfolding rune_boundary
boundary_behind b bs t zero c h e = rw (e, get_or-append_right bs t 0 0, h) (omega arith)
boundary_behind b bs t (suc k) zero h e = absurd (omega arith)
boundary_behind b bs t (suc k) (suc c) h e =
    let at_cut : get_or (bs ++ t) (suc c) 0 ≡ get_or t (suc k) 0 =
      rw e (get_or-append_right bs t (suc k) 0) in
    rw at_cut (elim (Bool-cases (utf8_start (get_or t (suc k) 0))) [
      | inl y ↦ rw y (omega arith)
      | inr n ↦ rw n (boundary_behind b bs t k c h (omega arith))
    ])

-- A text that holds a byte starts with a rune.
text_start :
    (rs : List Rune)
    → All IsRune rs
    → 0 < length (text rs)
    → utf8_start (get_or (text rs) 0 0) ≡ true
text_start [] h lt = absurd (omega arith)
text_start (rune b bs ∷ rs) h lt = h.0.0

cut_fitting :
    (rs : List Rune) (n : ℕ)
    → All IsRune rs
    → n < length (text rs)
    → take (rune_boundary (text rs) n) (text rs) ≡ text (fitting n rs)
unfolding fitting
cut_fitting [] n h lt = absurd (omega arith)
cut_fitting (rune b bs ∷ rs) n h lt = elim (Bool-cases (leb (suc (length bs)) n)) [
  | inl fits ↦
      (let le : suc (length bs) ≤ n = leb→le _ _ fits in
        let k : ℕ = n - suc (length bs) in
        let e : n ≡ suc (length bs + (n - suc (length bs))) = omega arith in
        let inside : n - suc (length bs) < length (text rs) =
          omega (arith, length-append (b ∷ bs) (text rs)) in
        let cut : rune_boundary (b ∷ bs ++ text rs) n
            ≡ suc (length bs) + rune_boundary (text rs) (n - suc (length bs)) =
          ap (rune_boundary (b ∷ bs ++ text rs)) e
          ∙ boundary_behind b bs (text rs) (n - suc (length bs)) _ (text_start rs h.1 (omega arith))
              refl in
        rw (fits, cut)
          (take-append (b ∷ bs) (text rs) (rune_boundary (text rs) (n - suc (length bs)))
            ∙ ap (λ l. (b ∷ bs) ++ l) (cut_fitting rs (n - suc (length bs)) h.1 inside)))
  | inr over ↦ rw (over, boundary_inside (rune b bs) (text rs) n h.0 (ground (arith, over))) refl
]

fitting_all : (rs : List Rune) (n : ℕ) → length (text rs) ≤ n → fitting n rs ≡ rs
unfolding fitting
fitting_all [] n h = refl
fitting_all (rune b bs ∷ rs) n h =
    let l : suc (length bs) + length (text rs) ≤ n =
      omega (arith, length-append (b ∷ bs) (text rs)) in
    ground (arith, fitting_all rs (n - suc (length bs)))

-- Cutting a text of whole runes to a number of bytes leaves the leading runes that fit whole, and no
-- part of another one.
pub truncate_utf8-fitting :
    (rs : List Rune) (limit : ℕ)
    → All IsRune rs
    → truncate_utf8 (text rs) limit ≡ text (fitting limit rs)
unfolding truncate_utf8
truncate_utf8-fitting rs limit h = elim (Bool-cases (leb (length (text rs)) limit)) [
  | inl e ↦ rw e (ap text (sym (fitting_all rs limit (leb→le _ _ e))))
  | inr e ↦ rw e (cut_fitting rs limit h (ground (arith, e)))
]
