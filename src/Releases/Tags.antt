-- ===== src/Releases/Tags.antt =====
-- releaseid.go and allocate.go: the tag of a version, and what a revision that carries it resumes.
use passwall_node.Prelude.{
  ℕ, ◌+◌, ◌<◌, ◌≡◌, refl, ap, ◌∙◌, false, List, [], ◌∷◌, ◌++◌, length, if◌then◌else◌, ltb, Result,
  ok, err, arith, Bool-cases, Result-cases, inl, inr, ◌⊎◌, not_allocated, ambiguous_revision,
}
use passwall_node.Releases.{
  Version, Tag, dash, dot, holds, before, split, cut_prefix, decimal, string, short_form, tag_body,
  parse_release_tag,
}
use passwall_node.Releases.Allocate.{
  Line, off_line, version_on_line, tag, Resuming, resuming, match_tag, match_tags, resumed,
  resume_tag, allocate_patch,
}
use passwall_node.Releases.Cuts.{
  before_whole, before-append, split-append, split_whole, length-split,
}
use passwall_node.Releases.Decimal.{decimal-holds}
use passwall_node.Releases.RoundTrip.{
  IsVersion, triple, triple-holds, split-triple, split_three, build-holds, string_build,
  string_plain, string_stage, valid-no_bytes, parse_product_version-string,
}
use passwall_node.Releases.Allocated.{OnLine, allocate_patch-above}

-- The segments of a version's text
segments_lem :
    (v : Version)
    → IsVersion v
    → (length (split dot (before dash (string v))) ≡ 3)
      ⊎ (length (split dot (before dash (string v))) ≡ 4)
segments_lem v h = elim (Bool-cases (ltb 0 v.build)) [
  | inl e ↦ inr (four (ground (arith, e)))
  | inr e ↦ inl (three (ground (arith, e)))
]
  where
    clean : holds dash (triple v.major v.minor (decimal v.patch)) ≡ false
    clean =
        triple-holds v.major v.minor (decimal v.patch) (decimal-holds dash v.patch (omega arith))

    four : 0 < v.build → length (split dot (before dash (string v))) ≡ 4
    four pos =
        rw
          (
            string_build v pos,
            before_whole dash _ (build-holds v),
            split-triple v.major v.minor (decimal v.patch ++ (dot ∷ decimal v.build)),
            split-append dot (decimal v.patch) (decimal v.build)
                (decimal-holds dot v.patch (omega arith)),
            split_whole dot (decimal v.build) (decimal-holds dot v.build (omega arith)),
          )
          refl

    three : v.build ≡ 0 → length (split dot (before dash (string v))) ≡ 3
    three z = elim (h.stage) [
      | inl e ↦
          rw (string_plain v z e, before_whole dash _ clean, split_three v.major v.minor v.patch)
            refl
      | inr (e, z') ↦
          rw
            (
              string_stage v z (valid-no_bytes v.prerelease e),
              before-append dash (triple v.major v.minor (decimal v.patch)) v.prerelease clean,
              split_three v.major v.minor v.patch,
            )
            refl
    ]

short_form-string : (v : Version) → IsVersion v → short_form (string v) ≡ false
unfolding short_form
short_form-string v h =
    let l = length-split dot (before dash (string v)) in
    elim (segments_lem v h) [ inl e ↦ ground (arith, e, l) | inr e ↦ ground (arith, e, l) ]

-- The tag of a version that can be published, on a line above 0, is read back as that tag.
pub parse_release_tag-tag :
    (v : Version) → IsVersion v → 0 < v.major → parse_release_tag (tag v).raw ≡ ok (tag v)
unfolding parse_release_tag tag_body tag cut_prefix
parse_release_tag-tag v h pos =
    rw (short_form-string v h, parse_product_version-string v h) (ground (arith, pos))

module _ (line : Line) where
  -- The tags of a revision that name a version on the line, in order.
  unfoldable pub tags_on : List (List ℕ) → List Tag
  tags_on [] = []
  tags_on (raw ∷ raws) = elim (parse_release_tag raw) [
    | err e ↦ tags_on raws
    | ok t ↦ if off_line t line then tags_on raws else t ∷ tags_on raws
  ]

  -- The specification of `ResumeTag`: one tag is resumed, none and several are told apart.
  abbrev pub the_only : List Tag → Result Tag
  the_only [] = err not_allocated
  the_only (t ∷ []) = ok t
  the_only (t ∷ u ∷ ts) = err ambiguous_revision

  last : Tag → List Tag → Tag
  last t [] = t
  last t (u ∷ us) = last u us

  match_tags-tags_on :
      (raws : List (List ℕ)) (s : Resuming)
      → match_tags line raws s ≡ record {
        found = last s.found (tags_on raws);
        matches = s.matches + length (tags_on raws);
      }
  unfolding match_tags match_tag version_on_line tags_on last
  match_tags-tags_on [] s = ground arith
  match_tags-tags_on (raw ∷ raws) s = elim (Result-cases (parse_release_tag raw)) [
    | inr (x, e) ↦ rw (match_tag, tags_on, e) (match_tags-tags_on raws s)
    | inl (t, e) ↦ elim (Bool-cases (off_line t line)) [
      | inl off ↦ rw (match_tag, tags_on, e, off) (match_tags-tags_on raws s)
      | inr on ↦
          rw (match_tag, tags_on, e, on)
            (match_tags-tags_on raws (record { found = t; matches = s.matches + 1 })
              ∙ ap (λ n. record { found = last t (tags_on raws); matches = n }) (omega arith))
    ]
  ]

  resumed_lem :
      (ts : List Tag) (d : Tag)
      → resumed (record { found = last d ts; matches = 0 + length ts }) ≡ the_only ts
  unfolding resumed last
  resumed_lem [] d = refl
  resumed_lem (t ∷ []) d = refl
  resumed_lem (t ∷ u ∷ ts) d = ground arith

  -- `ResumeTag` answers with the one tag of the revision that names a version on the line; where there
  -- is none, the revision has no number yet, and where there are several, it is ambiguous.
  pub resume_tag-the_only : (raws : List (List ℕ)) → resume_tag line raws ≡ the_only (tags_on raws)
  unfolding resume_tag
  resume_tag-the_only raws =
      rw (match_tags-tags_on raws resuming) (resumed_lem (tags_on raws) resuming.found)

  tags_on-append : (a b : List (List ℕ)) → tags_on (a ++ b) ≡ tags_on a ++ tags_on b
  unfolding tags_on
  tags_on-append [] b = refl
  tags_on-append (raw ∷ a) b = elim (Result-cases (parse_release_tag raw)) [
    | inr (x, e) ↦ rw (tags_on, e) (tags_on-append a b)
    | inl (t, e) ↦ elim (Bool-cases (off_line t line)) [
      | inl off ↦ rw (tags_on, e, off) (tags_on-append a b)
      | inr on ↦ rw (tags_on, e, on) (ap (λ l. t ∷ l) (tags_on-append a b))
    ]
  ]

  on_line : (v : Version) → OnLine line v → off_line (tag v) line ≡ false
  unfolding off_line tag
  on_line v h = ground (arith, h.major_at, h.minor_at)

  tags_on-tag :
      (v : Version) (b : List (List ℕ))
      → OnLine line v
      → tags_on ((tag v).raw ∷ b) ≡ tag v ∷ tags_on b
  unfolding tags_on
  tags_on-tag v b h =
      rw (tags_on, parse_release_tag-tag v h.is_version h.major_pos) (rw (on_line v h) refl)

  -- Once the tag of an allocated version stands at a revision, beside tags that name no version on the
  -- line, that version is what the revision resumes.
  pub resume_tag-allocate_patch :
      (existing a b : List (List ℕ)) (v : Version)
      → allocate_patch line existing ≡ ok v
      → tags_on a ≡ []
      → tags_on b ≡ []
      → resume_tag line (a ++ ((tag v).raw ∷ b)) ≡ ok (tag v)
  resume_tag-allocate_patch existing a b v e none_a none_b =
      resume_tag-the_only (a ++ ((tag v).raw ∷ b))
      ∙ rw
          (
            tags_on-append a ((tag v).raw ∷ b),
            tags_on-tag v b (allocate_patch-above line existing v e).0,
            none_a,
            none_b,
          )
          refl
