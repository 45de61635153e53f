-- ===== src/Releases/Order.antt =====
-- releaseid.go: `CompareProductVersion` on the versions that can be published.
use passwall_node.Prelude.{
  ℕ, ◌<◌, ◌≡◌, refl, sym, ap, ◌∙◌, true, false, ◌||◌, List, [], ◌∷◌, ◌++◌, if◌then◌else◌, ◌==◌,
  eqb→eq, ◌↔◌, codes, arith, Bool-cases, Result-cases, inl, inr, ◌⊎◌,
}
use passwall_node.Releases.{
  Version, Sign, below, same, above, sign_of, dot, no_bytes, holds, before, after, decimal,
  value_from, parse_segment, is_stage, bytes_eq, valid_prerelease, compare_texts,
  compare_prereleases, compare_product_version,
}
use passwall_node.Releases.Decimal.{decimal-parse_segment, decimal_digits}
use passwall_node.Releases.Cuts.{bytes_eq→eq, bytes_eq_refl, before-after}
use passwall_node.Releases.RoundTrip.{IsVersion}

-- How far a prerelease is from the release: beta, rc, none.
unfoldable pub stage_rank : List ℕ → ℕ
stage_rank pre =
    if no_bytes pre then 2 else if bytes_eq (before dot pre) (codes "beta") then 0 else 1

unfoldable pub counter : List ℕ → ℕ
counter pre = value_from 0 (after dot pre)

-- The numbers that a version is ordered by, the first ones first.
unfoldable pub key : Version → List ℕ
key v = v.major ∷ v.minor ∷ v.patch ∷ v.build ∷ stage_rank v.prerelease ∷ counter v.prerelease ∷ []

some_bytes : (pre : List ℕ) → holds dot pre ≡ true → no_bytes pre ≡ false
unfolding holds
some_bytes [] h = cc h
some_bytes (x ∷ xs) h = refl

-- A prerelease that was tested: its stage, and its number in decimal
numbered :
    (pre : List ℕ)
    → valid_prerelease pre ≡ true
    → ((before dot pre ≡ codes "beta") ⊎ (before dot pre ≡ codes "rc"))
      × (pre ≡ before dot pre ++ (dot ∷ decimal (counter pre)))
      × (no_bytes pre ≡ false)
unfolding valid_prerelease counter is_stage
numbered pre h = elim (Bool-cases (holds dot pre)) [
  | inr e ↦ cc ((rw e at h))
  | inl e ↦
      elim (Bool-cases
        (bytes_eq (before dot pre) (codes "beta") || bytes_eq (before dot pre) (codes "rc"))) [
          | inr e2 ↦ cc ((rw (e, e2) at h))
          | inl e2 ↦ elim (Result-cases (parse_segment (after dot pre))) [
            | inr (x, e3) ↦ cc ((rw (e, e2, e3) at h))
            | inl (n, e3) ↦
                (let tail : after dot pre ≡ decimal n =
                    (decimal-parse_segment (after dot pre) n e3).0 in
                  let again : decimal (value_from 0 (after dot pre)) ≡ after dot pre =
                    ap (λ t. decimal (value_from 0 t)) tail
                    ∙ ap decimal (decimal_digits n).2
                    ∙ sym tail in
                  (
                    ground (
                      arith,
                      e2,
                      bytes_eq→eq (before dot pre) (codes "beta"),
                      bytes_eq→eq (before dot pre) (codes "rc"),
                    ),
                    before-after dot pre e ∙ ap (λ t. before dot pre ++ (dot ∷ t)) (sym again),
                    some_bytes pre e,
                  ))
          ]
        ]
]

-- The laws of the order on lists of numbers
compare_texts_refl : (a : List ℕ) → compare_texts a a ≡ same
unfolding compare_texts
compare_texts_refl [] = refl
compare_texts_refl (x ∷ xs) = ground (arith, compare_texts_refl xs)

compare_texts→eq : (a b : List ℕ) → compare_texts a b ≡ same → a ≡ b
unfolding compare_texts
compare_texts→eq [] [] h = refl
compare_texts→eq [] (y ∷ ys) h = cc h
compare_texts→eq (x ∷ xs) [] h = cc h
compare_texts→eq (x ∷ xs) (y ∷ ys) h = ground (arith, h, compare_texts→eq xs ys)

compare_texts_flip :
    (a b : List ℕ)
    → (compare_texts a b ≡ below → compare_texts b a ≡ above)
      × (compare_texts a b ≡ above → compare_texts b a ≡ below)
unfolding compare_texts
compare_texts_flip [] [] = (λ h. cc h, λ h. cc h)
compare_texts_flip [] (y ∷ ys) = (λ h. refl, λ h. cc h)
compare_texts_flip (x ∷ xs) [] = (λ h. cc h, λ h. refl)
compare_texts_flip (x ∷ xs) (y ∷ ys) = (
  λ h. ground (arith, h, (compare_texts_flip xs ys).0),
  λ h. ground (arith, h, (compare_texts_flip xs ys).1),
)

compare_texts_trans :
    (a b c : List ℕ)
    → compare_texts a b ≡ above
    → compare_texts b c ≡ above
    → compare_texts a c ≡ above
unfolding compare_texts
compare_texts_trans [] [] c h k = cc h
compare_texts_trans [] (y ∷ ys) c h k = cc h
compare_texts_trans (x ∷ xs) [] [] h k = cc k
compare_texts_trans (x ∷ xs) [] (z ∷ zs) h k = cc k
compare_texts_trans (x ∷ xs) (y ∷ ys) [] h k = refl
compare_texts_trans (x ∷ xs) (y ∷ ys) (z ∷ zs) h k =
    ground (arith, h, k, compare_texts_trans xs ys zs)

-- The rank of a stage
ranked :
    (pre : List ℕ)
    → valid_prerelease pre ≡ true
    → ((before dot pre ≡ codes "beta") × (stage_rank pre ≡ 0))
      ⊎ ((before dot pre ≡ codes "rc") × (stage_rank pre ≡ 1))
unfolding stage_rank bytes_eq
ranked pre h =
    let bytes = (numbered pre h).2 in
    elim ((numbered pre h).0) [
      | inl e ↦ inl (e, rw (bytes, e) refl)
      | inr e ↦ inr (e, rw (bytes, e) refl)
    ]

abbrev Staged : List ℕ → Type 0
Staged pre = (pre ≡ []) ⊎ (valid_prerelease pre ≡ true)

abbrev by_rank : List ℕ → List ℕ → Sign
by_rank a b = sign_of (stage_rank a) (stage_rank b) (sign_of (counter a) (counter b) same)

-- Two stages of the same name and number are the same prerelease.
same_stage :
    (a b : List ℕ)
    → valid_prerelease a ≡ true
    → valid_prerelease b ≡ true
    → before dot a ≡ before dot b
    → counter a ≡ counter b
    → a ≡ b
same_stage a b h k e c =
    (numbered a h).1
    ∙ ap (λ t. t ++ (dot ∷ decimal (counter a))) e
    ∙ ap (λ n. before dot b ++ (dot ∷ decimal n)) c
    ∙ sym (numbered b k).1

by_rank_refl : (a : List ℕ) → by_rank a a ≡ same
by_rank_refl a = ground arith

counters_differ :
    (a b : List ℕ)
    → valid_prerelease a ≡ true
    → valid_prerelease b ≡ true
    → bytes_eq a b ≡ false
    → before dot a ≡ before dot b
    → (counter a == counter b) ≡ false
counters_differ a b h k differ e = elim (Bool-cases (counter a == counter b)) [
  | inr n ↦ n
  | inl c ↦
      (let it : a ≡ b = same_stage a b h k e (eqb→eq (counter a) (counter b) c) in
        absurd (cc (bytes_eq_refl a, it, differ)))
]

compare_stages :
    (a b : List ℕ)
    → valid_prerelease a ≡ true
    → valid_prerelease b ≡ true
    → bytes_eq a b ≡ false
    → compare_prereleases a b ≡ by_rank a b
unfolding compare_prereleases bytes_eq compare_texts counter
compare_stages a b h k differ =
    let bytes_a = (numbered a h).2 in
    let bytes_b = (numbered b k).2 in
    elim (ranked a h) [
      | inl (ea, ra) ↦ elim (ranked b k) [
        | inl (eb, rb) ↦
            (let c = counters_differ a b h k differ (ea ∙ sym eb) in
              rw (differ, bytes_a, bytes_b, ea, eb, ra, rb, c) refl)
        | inr (eb, rb) ↦ rw (differ, bytes_a, bytes_b, ea, eb, ra, rb) refl
      ]
      | inr (ea, ra) ↦ elim (ranked b k) [
        | inl (eb, rb) ↦ rw (differ, bytes_a, bytes_b, ea, eb, ra, rb) refl
        | inr (eb, rb) ↦
            (let c = counters_differ a b h k differ (ea ∙ sym eb) in
              rw (differ, bytes_a, bytes_b, ea, eb, ra, rb, c) refl)
      ]
    ]

bytes_nil : (b : List ℕ) → no_bytes b ≡ false → bytes_eq [] b ≡ false
unfolding bytes_eq
bytes_nil [] h = cc h
bytes_nil (x ∷ xs) h = refl

nil_bytes : (b : List ℕ) → no_bytes b ≡ false → bytes_eq b [] ≡ false
unfolding bytes_eq
nil_bytes [] h = cc h
nil_bytes (x ∷ xs) h = refl

below_release : (a : List ℕ) → valid_prerelease a ≡ true → stage_rank a < 2
below_release a h = elim (ranked a h) [
  | inl (e, r) ↦ omega (arith, r)
  | inr (e, r) ↦ omega (arith, r)
]

differing :
    (a b : List ℕ)
    → bytes_eq a b ≡ false
    → Staged a
    → Staged b
    → compare_prereleases a b ≡ by_rank a b
unfolding compare_prereleases stage_rank
differing a b e (inr h) (inr k) = compare_stages a b h k e
differing a b e (inl h) (inl k) = absurd (cc (bytes_eq_refl [], h, k, e))
differing a b e (inl h) (inr k) =
    let low = below_release b k in rw h (rw (bytes_nil b (numbered b k).2) (ground (arith, low)))
differing a b e (inr h) (inl k) =
    let low = below_release a h in
    rw k (rw (nil_bytes a (numbered a h).2, (numbered a h).2) (ground (arith, low)))

Staged-of : (v : Version) → IsVersion v → Staged v.prerelease
Staged-of v h = elim (h.stage) [ inl e ↦ inl e | inr (e, z) ↦ inr e ]

compare_prereleases-by_rank :
    (a b : List ℕ) → Staged a → Staged b → compare_prereleases a b ≡ by_rank a b
compare_prereleases-by_rank a b h k = elim (Bool-cases (bytes_eq a b)) [
  | inl e ↦
      (let it : a ≡ b = bytes_eq→eq a b e in
        unfold compare_prereleases in rw e (rw it (sym (by_rank_refl b))))
  | inr e ↦ differing a b e h k
]

-- On versions that can be published, the order is the one of the keys.
pub compare_product_version-key :
    (a b : Version)
    → IsVersion a
    → IsVersion b
    → compare_product_version a b ≡ compare_texts (key a) (key b)
unfolding compare_product_version key compare_texts
compare_product_version-key a b h k =
    ap
      (λ s.
        sign_of a.major b.major
          (sign_of a.minor b.minor (sign_of a.patch b.patch (sign_of a.build b.build s))))
      (compare_prereleases-by_rank a.prerelease b.prerelease (Staged-of a h) (Staged-of b k))

rank_empty : stage_rank [] ≡ 2
unfolding stage_rank
rank_empty = refl

Staged-injective :
    (a b : List ℕ)
    → Staged a
    → Staged b
    → stage_rank a ≡ stage_rank b
    → counter a ≡ counter b
    → a ≡ b
Staged-injective a b (inl h) (inl k) r c = h ∙ sym k
Staged-injective a b (inl h) (inr k) r c =
    absurd (omega (arith, below_release b k, r, ap stage_rank h, rank_empty))
Staged-injective a b (inr h) (inl k) r c =
    absurd (omega (arith, below_release a h, r, ap stage_rank k, rank_empty))
Staged-injective a b (inr h) (inr k) r c =
    let same_name : before dot a ≡ before dot b = elim (ranked a h) [
      | inl (ea, ra) ↦ elim (ranked b k) [
        | inl (eb, rb) ↦ ea ∙ sym eb
        | inr (eb, rb) ↦ absurd (omega (arith, r, ra, rb))
      ]
      | inr (ea, ra) ↦ elim (ranked b k) [
        | inl (eb, rb) ↦ absurd (omega (arith, r, ra, rb))
        | inr (eb, rb) ↦ ea ∙ sym eb
      ]
    ] in
    same_stage a b h k same_name c

-- Versions that can be published are the same if their keys are.
key_injective : (a b : Version) → IsVersion a → IsVersion b → key a ≡ key b → a ≡ b
unfolding key
key_injective a b h k e =
    let pre : a.prerelease ≡ b.prerelease =
      Staged-injective a.prerelease b.prerelease (Staged-of a h) (Staged-of b k) (cc e) (cc e) in
    ground (arith, e, pre)

-- `CompareProductVersion` orders the versions that can be published: it answers 0 on one version
-- only, swapping the arguments swaps the answer, and what is above the higher one is above the lower
-- one.
pub compare_product_version_order :
    (a b c : Version)
    → IsVersion a
    → IsVersion b
    → IsVersion c
    → ((compare_product_version a b ≡ same) ↔ (a ≡ b))
      × ((compare_product_version a b ≡ above) ↔ (compare_product_version b a ≡ below))
      × (compare_product_version a b ≡ above
          → compare_product_version b c ≡ above
          → compare_product_version a c ≡ above)
compare_product_version_order a b c h k l =
    let ab = compare_product_version-key a b h k in
    let ba = compare_product_version-key b a k h in
    let bc = compare_product_version-key b c k l in
    let ac = compare_product_version-key a c h l in
    rw (ab, ba, bc, ac)
      (
        (
          λ e. key_injective a b h k (compare_texts→eq (key a) (key b) e),
          λ e. rw e (compare_texts_refl (key b)),
        ),
        ((compare_texts_flip (key a) (key b)).1, (compare_texts_flip (key b) (key a)).0),
        compare_texts_trans (key a) (key b) (key c),
      )
