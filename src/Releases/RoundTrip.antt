-- ===== src/Releases/RoundTrip.antt =====
-- releaseid.go: versions and tags against their texts.
use mathlib.Core.List.{append_assoc}
use passwall_node.Prelude.{
  ℕ, ◌≤◌, ◌<◌, ◌≡◌, refl, sym, ap, ◌∙◌, Bool, true, false, not, ◌&&◌, List, [], ◌∷◌, ◌++◌, length,
  get_or, ltb, ◌==◌, ok, arith, Bool-cases, inl, inr, ◌⊎◌,
}
use passwall_node.Releases.{
  Version, dash, dot, max_segment, no_bytes, holds, before, after, split, decimal, string,
  valid_prerelease, parse_segments, parse_product_version,
}
use passwall_node.Releases.Decimal.{decimal_digits, parse_segment-decimal, decimal-holds}
use passwall_node.Releases.Cuts.{
  holds-append, holds_at, before-append, after-append, before_whole, after_whole, split-append,
  split_whole,
}

-- A version that can be published: its segments are in range, and a prerelease is a numbered stage
-- of one without a fourth segment.
pub record IsVersion (v : Version) : Type 0 where
  pub major_le : v.major ≤ max_segment
  pub minor_le : v.minor ≤ max_segment
  pub patch_le : v.patch ≤ max_segment
  pub build_le : v.build ≤ max_segment
  pub stage : (v.prerelease ≡ []) ⊎ ((valid_prerelease v.prerelease ≡ true) × (v.build ≡ 0))

-- The three segments that every text of a version starts with, and what stands behind the first two.
abbrev pub triple : ℕ → ℕ → List ℕ → List ℕ
triple a b rest = decimal a ++ (dot ∷ (decimal b ++ (dot ∷ rest)))

pub triple-holds :
    (a b : ℕ) (rest : List ℕ) → holds dash rest ≡ false → holds dash (triple a b rest) ≡ false
unfolding holds
triple-holds a b rest h =
    holds-append dash (decimal a) (dot ∷ (decimal b ++ (dot ∷ rest)))
    ∙ rw
        (
          decimal-holds dash a (omega arith),
          holds-append dash (decimal b) (dot ∷ rest),
          decimal-holds dash b (omega arith),
        )
        h

pub split-triple :
    (a b : ℕ) (rest : List ℕ) → split dot (triple a b rest) ≡ decimal a ∷ decimal b ∷ split dot rest
split-triple a b rest =
    split-append dot (decimal a) (decimal b ++ (dot ∷ rest)) (decimal-holds dot a (omega arith))
    ∙ ap (λ l. decimal a ∷ l)
        (split-append dot (decimal b) rest (decimal-holds dot b (omega arith)))

parse_three :
    (a b c : ℕ)
    → a ≤ max_segment
    → b ≤ max_segment
    → c ≤ max_segment
    → parse_segments (decimal a ∷ decimal b ∷ decimal c ∷ []) ≡ ok (a ∷ b ∷ c ∷ [])
unfolding parse_segments
parse_three a b c x y z =
    rw (parse_segment-decimal a x, parse_segment-decimal b y, parse_segment-decimal c z) refl

parse_four :
    (a b c d : ℕ)
    → a ≤ max_segment
    → b ≤ max_segment
    → c ≤ max_segment
    → d ≤ max_segment
    → parse_segments (decimal a ∷ decimal b ∷ decimal c ∷ decimal d ∷ []) ≡ ok (a ∷ b ∷ c ∷ d ∷ [])
unfolding parse_segments
parse_four a b c d x y z w =
    rw
      (
        parse_segment-decimal a x,
        parse_segment-decimal b y,
        parse_segment-decimal c z,
        parse_segment-decimal d w,
      )
      refl

decimal-append-no_bytes : (n : ℕ) (rest : List ℕ) → no_bytes (decimal n ++ rest) ≡ false
decimal-append-no_bytes n rest = first_append (decimal n) rest (decimal_digits n).1
  where
    first_append : (s rest' : List ℕ) → no_bytes s ≡ false → no_bytes (s ++ rest') ≡ false
    first_append [] rest' h = cc h
    first_append (x ∷ xs) rest' h = refl

-- What a parse of the parts gives, once the cuts of a text are known.
parsed :
    (s pre : List ℕ) (parts : List (List ℕ)) (out : List ℕ) (has : Bool)
    → no_bytes s ≡ false
    → holds dash s ≡ has
    → after dash s ≡ pre
    → split dot (before dash s) ≡ parts
    → (has && not (valid_prerelease pre)) ≡ false
    → (has && not (length parts == 3)) ≡ false
    → ltb 4 (length parts) ≡ false
    → parse_segments parts ≡ ok out
    → (length parts == 4 && get_or out 3 0 == 0) ≡ false
    → parse_product_version s
      ≡ ok (record {
        major = get_or out 0 0;
        minor = get_or out 1 0;
        patch = get_or out 2 0;
        build = get_or out 3 0;
        prerelease = pre;
      })
unfolding parse_product_version
parsed s pre parts out has a b c d e f g h i = rw (a, b, c, d, e, f, g, h, i) refl

-- The three forms of a version's text
pub string_build :
    (v : Version)
    → 0 < v.build
    → string v ≡ triple v.major v.minor (decimal v.patch ++ (dot ∷ decimal v.build))
unfolding string
string_build v h = ground (arith, h)

pub string_plain :
    (v : Version)
    → v.build ≡ 0
    → v.prerelease ≡ []
    → string v ≡ triple v.major v.minor (decimal v.patch)
unfolding string
string_plain v h e = rw (h, e) refl

pub string_stage :
    (v : Version)
    → v.build ≡ 0
    → no_bytes v.prerelease ≡ false
    → string v ≡ triple v.major v.minor (decimal v.patch) ++ (dash ∷ v.prerelease)
unfolding string
string_stage v h e = rw (h, e) refl

triple-no_bytes : (a b : ℕ) (rest more : List ℕ) → no_bytes (triple a b rest ++ more) ≡ false
triple-no_bytes a b rest more =
    rw (append_assoc (decimal a) (dot ∷ (decimal b ++ (dot ∷ rest))) more)
      (decimal-append-no_bytes a ((dot ∷ (decimal b ++ (dot ∷ rest))) ++ more))

pub build-holds :
    (v : Version)
    → holds dash (triple v.major v.minor (decimal v.patch ++ (dot ∷ decimal v.build))) ≡ false
build-holds v = triple-holds v.major v.minor (decimal v.patch ++ (dot ∷ decimal v.build)) (
    holds-append dash (decimal v.patch) (dot ∷ decimal v.build)
    ∙ rw (decimal-holds dash v.patch (omega arith))
        (unfold holds in decimal-holds dash v.build (omega arith)))

parse_build :
    (v : Version)
    → IsVersion v
    → 0 < v.build
    → v.prerelease ≡ []
    → parse_product_version (string v) ≡ ok v
parse_build v h pos none_pre =
    let clean = build-holds v in
    rw (string_build v pos) (
      parsed (triple v.major v.minor (decimal v.patch ++ (dot ∷ decimal v.build))) [] _
        (v.major ∷ v.minor ∷ v.patch ∷ v.build ∷ []) false (decimal-append-no_bytes v.major _) clean
        (after_whole dash _ clean)
        (rw (before_whole dash _ clean) (
          split-triple v.major v.minor (decimal v.patch ++ (dot ∷ decimal v.build))
          ∙ ap (λ l. decimal v.major ∷ decimal v.minor ∷ l)
              (split-append dot (decimal v.patch) (decimal v.build)
                  (decimal-holds dot v.patch (omega arith))
                ∙ ap (λ l. decimal v.patch ∷ l)
                    (split_whole dot (decimal v.build) (decimal-holds dot v.build (omega arith))))))
        refl refl refl
        (parse_four v.major v.minor v.patch v.build h.major_le h.minor_le h.patch_le h.build_le)
        (ground (arith, pos))
      ∙ ap (λ p. ok (record v { prerelease = p })) (sym none_pre))

pub split_three :
    (a b c : ℕ) → split dot (triple a b (decimal c)) ≡ decimal a ∷ decimal b ∷ decimal c ∷ []
split_three a b c =
    split-triple a b (decimal c)
    ∙ ap (λ l. decimal a ∷ decimal b ∷ l)
        (split_whole dot (decimal c) (decimal-holds dot c (omega arith)))

parse_plain :
    (v : Version)
    → IsVersion v
    → v.build ≡ 0
    → v.prerelease ≡ []
    → parse_product_version (string v) ≡ ok v
parse_plain v h zero_build none_pre =
    let clean : holds dash (triple v.major v.minor (decimal v.patch)) ≡ false =
      triple-holds v.major v.minor (decimal v.patch) (decimal-holds dash v.patch (omega arith)) in
    rw (string_plain v zero_build none_pre) (
      parsed (triple v.major v.minor (decimal v.patch)) [] _ (v.major ∷ v.minor ∷ v.patch ∷ [])
        false (decimal-append-no_bytes v.major _) clean (after_whole dash _ clean)
        (rw (before_whole dash _ clean) (split_three v.major v.minor v.patch)) refl refl refl
        (parse_three v.major v.minor v.patch h.major_le h.minor_le h.patch_le) refl
      ∙ ap (λ p. ok (record v { build = 0; prerelease = p })) (sym none_pre)
      ∙ ap (λ b. ok (record v { build = b })) (sym zero_build))

parse_stage :
    (v : Version)
    → IsVersion v
    → v.build ≡ 0
    → valid_prerelease v.prerelease ≡ true
    → no_bytes v.prerelease ≡ false
    → parse_product_version (string v) ≡ ok v
parse_stage v h zero_build valid some_pre =
    let clean : holds dash (triple v.major v.minor (decimal v.patch)) ≡ false =
      triple-holds v.major v.minor (decimal v.patch) (decimal-holds dash v.patch (omega arith)) in
    rw (string_stage v zero_build some_pre) (
      parsed (triple v.major v.minor (decimal v.patch) ++ (dash ∷ v.prerelease)) v.prerelease _
        (v.major ∷ v.minor ∷ v.patch ∷ []) true
        (triple-no_bytes v.major v.minor (decimal v.patch) (dash ∷ v.prerelease))
        (holds_at dash _ v.prerelease) (after-append dash _ v.prerelease clean)
        (rw (before-append dash (triple v.major v.minor (decimal v.patch)) v.prerelease clean)
          (split_three v.major v.minor v.patch))
        (rw valid refl) refl refl
        (parse_three v.major v.minor v.patch h.major_le h.minor_le h.patch_le) refl
      ∙ ap (λ b. ok (record v { build = b })) (sym zero_build))

pub valid-no_bytes : (pre : List ℕ) → valid_prerelease pre ≡ true → no_bytes pre ≡ false
unfolding valid_prerelease holds
valid-no_bytes [] h = cc h
valid-no_bytes (x ∷ xs) h = refl

-- The text of a version that can be published is read back as that version.
pub parse_product_version-string :
    (v : Version) → IsVersion v → parse_product_version (string v) ≡ ok v
parse_product_version-string v h = elim (h.stage) [
  | inr (valid, zero_build) ↦ parse_stage v h zero_build valid (valid-no_bytes v.prerelease valid)
  | inl none_pre ↦ elim (Bool-cases (ltb 0 v.build)) [
    | inl e ↦ parse_build v h (ground (arith, e)) none_pre
    | inr e ↦ parse_plain v h (ground (arith, e)) none_pre
  ]
]
