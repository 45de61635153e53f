-- ===== src/Releases/Cuts.antt =====
-- Texts that are put together with a separator, and cut there again.
use passwall_node.Prelude.{
  ℕ, suc, ◌≡◌, ◌≢◌, refl, sym, ap, ◌∙◌, true, false, ◌||◌, some, List, [], ◌∷◌, ◌++◌, length, ◌==◌,
  eqb→eq, arith, Bool-cases, inl, inr,
}
use passwall_node.Releases.{bytes_eq, holds, before, after, cons_head, split, count, cut_prefix}

pub bytes_eq→eq : (a b : List ℕ) → bytes_eq a b ≡ true → a ≡ b
unfolding bytes_eq
bytes_eq→eq [] [] h = refl
bytes_eq→eq [] (y ∷ ys) h = cc h
bytes_eq→eq (x ∷ xs) [] h = cc h
bytes_eq→eq (x ∷ xs) (y ∷ ys) h = ground (arith, h, bytes_eq→eq xs ys)

pub bytes_eq_refl : (a : List ℕ) → bytes_eq a a ≡ true
unfolding bytes_eq
bytes_eq_refl [] = refl
bytes_eq_refl (x ∷ xs) = ground (arith, bytes_eq_refl xs)

pub holds-append : (c : ℕ) (xs ys : List ℕ) → holds c (xs ++ ys) ≡ (holds c xs || holds c ys)
unfolding holds
holds-append c [] ys = refl
holds-append c (x ∷ xs) ys = ground (arith, holds-append c xs ys)

module _ (c : ℕ) (xs : List ℕ) (ys : List ℕ) where
  pub holds_at : holds c (xs ++ (c ∷ ys)) ≡ true
  unfolding holds
  holds_at = holds-append c xs (c ∷ ys) ∙ ground arith

-- Cutting behind a part that does not hold the separator
pub before-append : (c : ℕ) (xs ys : List ℕ) → holds c xs ≡ false → before c (xs ++ (c ∷ ys)) ≡ xs
unfolding holds before
before-append c [] ys h = ground arith
before-append c (x ∷ xs) ys h = ground (arith, h, before-append c xs ys)

pub after-append : (c : ℕ) (xs ys : List ℕ) → holds c xs ≡ false → after c (xs ++ (c ∷ ys)) ≡ ys
unfolding holds after
after-append c [] ys h = ground arith
after-append c (x ∷ xs) ys h = ground (arith, h, after-append c xs ys)

pub before_whole : (c : ℕ) (xs : List ℕ) → holds c xs ≡ false → before c xs ≡ xs
unfolding holds before
before_whole c [] h = refl
before_whole c (x ∷ xs) h = ground (arith, h, before_whole c xs)

pub after_whole : (c : ℕ) (xs : List ℕ) → holds c xs ≡ false → after c xs ≡ []
unfolding holds after
after_whole c [] h = refl
after_whole c (x ∷ xs) h = ground (arith, h, after_whole c xs)

-- A text is what stands before the separator, the separator, and what stands behind it.
pub before-after : (c : ℕ) (s : List ℕ) → holds c s ≡ true → s ≡ before c s ++ (c ∷ after c s)
unfolding holds before after
before-after c [] h = cc h
before-after c (x ∷ xs) h = ground (arith, h, before-after c xs)

pub split-append :
    (c : ℕ) (xs ys : List ℕ) → holds c xs ≡ false → split c (xs ++ (c ∷ ys)) ≡ xs ∷ split c ys
unfolding holds split
split-append c [] ys h = ground arith
split-append c (x ∷ xs) ys h = ground (arith, h, split-append c xs ys)

pub split_whole : (c : ℕ) (xs : List ℕ) → holds c xs ≡ false → split c xs ≡ xs ∷ []
unfolding holds split
split_whole c [] h = refl
split_whole c (x ∷ xs) h = ground (arith, h, split_whole c xs)

-- The parts with the separator between them
unfoldable pub join : ℕ → List (List ℕ) → List ℕ
join c [] = []
join c (p ∷ []) = p
join c (p ∷ q ∷ ps) = p ++ (c ∷ join c (q ∷ ps))

length-cons_head : (x : ℕ) (ps : List (List ℕ)) → ps ≢ [] → length (cons_head x ps) ≡ length ps
length-cons_head x [] h = absurd (h refl)
length-cons_head x (p ∷ ps) h = refl

cons_head-ne-nil : (x : ℕ) (ps : List (List ℕ)) → cons_head x ps ≢ []
cons_head-ne-nil x [] = λ e. cc e
cons_head-ne-nil x (p ∷ ps) = λ e. cc e

split-ne-nil : (c : ℕ) (s : List ℕ) → split c s ≢ []
unfolding split
split-ne-nil c [] = λ e. cc e
split-ne-nil c (x ∷ xs) = λ e. ground (arith, e, cons_head-ne-nil x (split c xs))

join_nil : (c : ℕ) (ps : List (List ℕ)) → ps ≢ [] → join c ([] ∷ ps) ≡ c ∷ join c ps
unfolding join
join_nil c [] h = absurd (h refl)
join_nil c (p ∷ ps) h = refl

join-cons_head : (c x : ℕ) (ps : List (List ℕ)) → ps ≢ [] → join c (cons_head x ps) ≡ x ∷ join c ps
unfolding join
join-cons_head c x [] h = absurd (h refl)
join-cons_head c x (p ∷ []) h = refl
join-cons_head c x (p ∷ q ∷ ps) h = refl

pub join-split : (c : ℕ) (s : List ℕ) → join c (split c s) ≡ s
unfolding split
join-split c [] = unfold join in refl
join-split c (x ∷ xs) = elim (Bool-cases (x == c)) [
  | inl e ↦ rw e (
      join_nil c (split c xs) (split-ne-nil c xs)
      ∙ rw (join-split c xs) (ap (λ k. k ∷ xs) (sym (eqb→eq x c e))))
  | inr e ↦
      rw e (join-cons_head c x (split c xs) (split-ne-nil c xs) ∙ ap (λ l. x ∷ l) (join-split c xs))
]

pub length-split : (c : ℕ) (s : List ℕ) → length (split c s) ≡ suc (count c s)
unfolding split count
length-split c [] = refl
length-split c (x ∷ xs) =
    ground (arith, length-split c xs, length-cons_head x (split c xs), split-ne-nil c xs)

pub cut_prefix-append : (p s : List ℕ) → cut_prefix p (p ++ s) ≡ some s
unfolding cut_prefix
cut_prefix-append [] s = refl
cut_prefix-append (x ∷ xs) s = ground (arith, cut_prefix-append xs s)

pub append-cut_prefix : (p s : List ℕ) {rest : List ℕ} → cut_prefix p s ≡ some rest → s ≡ p ++ rest
unfolding cut_prefix
append-cut_prefix [] s h = cc h
append-cut_prefix (x ∷ xs) [] h = cc h
append-cut_prefix (x ∷ xs) (y ∷ ys) {rest = rest} h =
    ground (arith, h, append-cut_prefix xs ys {rest = rest})
