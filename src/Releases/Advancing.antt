-- ===== src/Releases/Advancing.antt =====
-- release_stage.go: where `AdvanceRelease` moves a candidate to.
use passwall_node.Prelude.{
  ℕ, ◌≡◌, refl, sym, ◌∙◌, ap, true, false, List, [], ◌∷◌, ◌++◌, ltb, codes, ok, arith, Bool-cases,
  Option-cases, Result-cases, inl, inr, ◌⊎◌,
}
use passwall_node.Releases.{
  Version, Tag, above, dash, holds, before, after, cut_prefix, has_prefix, decimal, string,
  bytes_eq, no_bytes, valid_prerelease, version_string, parse_release_tag, compare_product_version,
  compare_prereleases, compare_texts, is_stage, parse_segment, all_digits, leading_zero, value_from,
}
use passwall_node.Releases.Candidates.{
  read_candidate_tag, release_stage, release_aliases, advance_from, advance_release,
}
use passwall_node.Releases.Cuts.{before-append, after-append, append-cut_prefix}
use passwall_node.Releases.Decimal.{decimal-holds}
use passwall_node.Releases.RoundTrip.{
  IsVersion, triple, triple-holds, build-holds, string_build, string_plain, string_stage,
  valid-no_bytes,
}
use passwall_node.Releases.Canonical.{parse_release_tag-Canonical}

-- The version without its prerelease, and with the first rc
abbrev pub final : Version → Version
final p = record p { prerelease = [] }

abbrev pub first_rc : Version → Version
first_rc p = record p { prerelease = codes "rc.1" }

-- What the tests of `AdvanceRelease` leave: the base, or its first rc behind a beta.
advance_from-cases :
    (source v stage : List ℕ) (tags : List (List ℕ)) (r : List ℕ)
    → advance_from source v stage tags ≡ ok r
    → (holds dash v ≡ true)
      × ((r ≡ before dash v)
          ⊎ ((r ≡ before dash v ++ codes "-rc.1")
              × (has_prefix (codes "beta.") (after dash v) ≡ true)))
unfolding advance_from
advance_from-cases source v stage tags r e = ground (arith, e)

clean : (p : Version) → IsVersion p → holds dash (triple p.major p.minor (decimal p.patch)) ≡ false
clean p h =
    triple-holds p.major p.minor (decimal p.patch) (decimal-holds dash p.patch (omega arith))

-- A text with a dash is that of a staged version.
staged :
    (p : Version)
    → IsVersion p
    → holds dash (string p) ≡ true
    → (valid_prerelease p.prerelease ≡ true) × (p.build ≡ 0)
staged p h e = elim (h.stage) [
  | inr s ↦ s
  | inl plain ↦ elim (Bool-cases (ltb 0 p.build)) [
    | inl b ↦
        absurd (cc (e, ap (λ s. holds dash s) (string_build p (ground (arith, b))), build-holds p))
    | inr b ↦
        absurd
          (cc (e, ap (λ s. holds dash s) (string_plain p (ground (arith, b)) plain), clean p h))
  ]
]

has_prefix-append : (p s : List ℕ) → has_prefix p s ≡ true → (rest : List ℕ) × (s ≡ p ++ rest)
unfolding has_prefix
has_prefix-append p s e = elim (Option-cases (cut_prefix p s)) [
  | inl no_rest ↦ cc ((rw (has_prefix, no_rest) at e))
  | inr (rest, cut) ↦ (rest, append-cut_prefix p s cut)
]

rc_above :
    (pre : List ℕ)
    → has_prefix (codes "beta.") pre ≡ true
    → compare_prereleases (codes "rc.1") pre ≡ above
unfolding compare_prereleases bytes_eq before compare_texts
rc_above pre e = let (rest, q) = has_prefix-append (codes "beta.") pre e in rw q refl

final_prerelease : (pre : List ℕ) → no_bytes pre ≡ false → compare_prereleases [] pre ≡ above
unfolding compare_prereleases bytes_eq
final_prerelease [] e = cc e
final_prerelease (c ∷ pre) e = refl

final_above :
    (p : Version) → no_bytes p.prerelease ≡ false → compare_product_version (final p) p ≡ above
unfolding compare_product_version
final_above p e = let l = final_prerelease p.prerelease e in ground (arith, l)

first_rc_above :
    (p : Version)
    → has_prefix (codes "beta.") p.prerelease ≡ true
    → compare_product_version (first_rc p) p ≡ above
unfolding compare_product_version
first_rc_above p e = let l = rc_above p.prerelease e in ground (arith, l)

first_rc-valid : valid_prerelease (codes "rc.1") ≡ true
unfolding valid_prerelease holds is_stage bytes_eq before after parse_segment all_digits
    leading_zero value_from
first_rc-valid = refl

-- What an advance of a candidate comes to: a later version with the same three segments.
pub record Advanced (p : Version) (r : List ℕ) (w : Version) : Type 0 where
  pub text : r ≡ string w
  pub is_version : IsVersion w
  pub is_above : compare_product_version w p ≡ above
  pub on_base : (w ≡ final p) ⊎ (w ≡ first_rc p)

advance_from-Advanced :
    (p : Version) (source stage : List ℕ) (tags : List (List ℕ)) (r : List ℕ)
    → IsVersion p
    → advance_from source (string p) stage tags ≡ ok r
    → (w : Version) × Advanced p r w
advance_from-Advanced p source stage tags r h e =
    let (dashed, to) = advance_from-cases source (string p) stage tags r e in
    let (valid, zero_build) = staged p h dashed in
    let some_pre = valid-no_bytes p.prerelease valid in
    let text = string_stage p zero_build some_pre in
    let base =
      ap (λ s. before dash s) text
      ∙ before-append dash (triple p.major p.minor (decimal p.patch)) p.prerelease (clean p h) in
    let pre =
      ap (λ s. after dash s) text
      ∙ after-append dash (triple p.major p.minor (decimal p.patch)) p.prerelease (clean p h) in
    elim to [
      | inl stable ↦ (
        final p,
        record {
          text = stable ∙ base ∙ sym (string_plain (final p) zero_build refl);
          is_version = record {
            major_le = h.major_le;
            minor_le = h.minor_le;
            patch_le = h.patch_le;
            build_le = h.build_le;
            stage = inl refl;
          };
          is_above = final_above p some_pre;
          on_base = inl refl;
        },
      )
      | inr (rc, beta) ↦ (
        first_rc p,
        record {
          text =
              rc
              ∙ ap (λ s. s ++ codes "-rc.1") base
              ∙ sym (string_stage (first_rc p) zero_build refl);
          is_version = record {
            major_le = h.major_le;
            minor_le = h.minor_le;
            patch_le = h.patch_le;
            build_le = h.build_le;
            stage = inr (first_rc-valid, zero_build);
          };
          is_above = first_rc_above p (ap (λ s. has_prefix (codes "beta.") s) (sym pre) ∙ beta);
          on_base = inr refl;
        },
      )
    ]

-- An advance that succeeds is from the tag of a version, and its answer is the text of a version that
-- can be published: the same three segments, with no prerelease or with the first rc, and above it.
pub advance_release-Advanced :
    (source stage : List ℕ) (tags : List (List ℕ)) (r : List ℕ)
    → advance_release source stage tags ≡ ok r
    → (t : Tag) × (w : Version) × (parse_release_tag source ≡ ok t) × Advanced t.product r w
unfolding advance_release read_candidate_tag version_string
advance_release-Advanced source stage tags r e = elim (Result-cases (parse_release_tag source)) [
  | inr (why, bad) ↦ cc ((rw (advance_release, read_candidate_tag, bad) at e))
  | inl (t, read) ↦
      (let c = parse_release_tag-Canonical source t read in
        let (w, a) =
          advance_from-Advanced t.product source stage tags r c.1
            ((rw (advance_release, read_candidate_tag, read) at e)) in
        (t, w, read, a))
]

-- An artifact that was not approved gets no pointer but those of a candidate.
release_aliases-unapproved :
    (v : List ℕ)
    → (release_aliases v false ≡ [])
      ⊎ (release_aliases v false ≡ codes "beta" ∷ codes "testing" ∷ [])
      ⊎ (release_aliases v false ≡ codes "rc" ∷ codes "beta" ∷ codes "testing" ∷ [])
unfolding release_aliases
release_aliases-unapproved v = elim (Bool-cases (bytes_eq (release_stage v true) (codes "beta"))) [
  | inl b ↦ rw (release_aliases, b) (inr (inl refl))
  | inr b ↦ elim (Bool-cases (bytes_eq (release_stage v true) (codes "rc"))) [
    | inl c ↦ rw (release_aliases, b, c) (inr (inr refl))
    | inr c ↦ elim (Bool-cases (bytes_eq (release_stage v true) (codes "stable"))) [
      | inl d ↦ rw (release_aliases, b, c, d) (inl refl)
      | inr d ↦ rw (release_aliases, b, c, d) (inl refl)
    ]
  ]
]
