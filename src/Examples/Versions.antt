-- ===== src/Examples/Versions.antt =====
-- releaseid on concrete input: the tags of two lines, one of them with a candidate.
use passwall_node.Prelude.{
  ℕ, ◌≡◌, ◌↔◌, ◌⊎◌, inl, inr, refl, true, false, List, [], ◌∷◌, ◌++◌, All, codes, ok, err,
  superseded_candidate, arith, ◌<◌,
}
use passwall_node.Releases.{
  Version, Tag, below, same, above, bytes_eq, holds, before, after, split, count, cut_prefix,
  digits_onto, decimal, value_from, string, all_digits, leading_zero, parse_segment, is_stage,
  valid_prerelease, parse_segments, parse_product_version, short_form, tag_body, parse_release_tag,
  tag_prefix, historical_tag_prefix, has_prefix, contains_text, version_string, valid_version,
  compare_prereleases, compare_product_version,
}
use passwall_node.Releases.Allocate.{
  Line, off_line, version_on_line, higher, count_tag, highest_on_line, next_build, allocate_patch,
  tag, resume_tag,
}
use passwall_node.Releases.RoundTrip.{IsVersion, parse_product_version-string}
use passwall_node.Releases.Canonical.{parse_release_tag-Canonical}
use passwall_node.Releases.Order.{compare_product_version_order}
use passwall_node.Releases.Allocated.{OnLine, allocate_patch-above}
use passwall_node.Releases.Tags.{tags_on, the_only, resume_tag-the_only, resume_tag-allocate_patch}
use passwall_node.Releases.Candidates.{
  read_candidate_tag, newer_candidate, is_finalized, advance_from, advance_release, release_stage,
  release_aliases, parsed, order_candidate,
}
use passwall_node.Releases.Advancing.{Advanced, advance_release-Advanced}

-- The version of a line with no more than a build
abbrev numbered : ℕ → ℕ → ℕ → ℕ → Version
numbered a b c d = record { major = a; minor = b; patch = c; build = d; prerelease = [] }

abbrev candidate : Version
candidate = record { major = 4; minor = 1; patch = 2; build = 0; prerelease = codes "rc.10" }

candidate-IsVersion : IsVersion candidate
unfolding valid_prerelease is_stage bytes_eq holds before after parse_segment all_digits
    leading_zero value_from
candidate-IsVersion = record {
  major_le = omega arith;
  minor_le = omega arith;
  patch_le = omega arith;
  build_le = omega arith;
  stage = inr (refl, refl);
}

plain-IsVersion : (d : ℕ) → d < 100 → IsVersion (numbered 4 1 2 d)
plain-IsVersion d h = record {
  major_le = omega arith;
  minor_le = omega arith;
  patch_le = omega arith;
  build_le = omega arith;
  stage = inl refl;
}

candidate_text : string candidate ≡ codes "4.1.2-rc.10"
unfolding string decimal digits_onto
candidate_text = refl

parse_product_version-string_example : parse_product_version (string candidate) ≡ ok candidate
parse_product_version-string_example = parse_product_version-string candidate candidate-IsVersion

abbrev third_fix : Tag
third_fix = record { raw = codes "release/4.1.2.3"; product = numbered 4 1 2 3 }

parse_release_tag-Canonical_example :
    (◌≡◌ {A = List ℕ} (codes "release/4.1.2.3") (codes "release/4.1.2.3"))
    × IsVersion (numbered 4 1 2 3)
    × (0 < 4)
    × ((codes "release/4.1.2.3" ≡ tag_prefix ++ string (numbered 4 1 2 3))
        ⊎ (codes "release/4.1.2.3" ≡ historical_tag_prefix ++ string (numbered 4 1 2 3)))
unfolding parse_release_tag tag_body cut_prefix short_form count before after holds split
    parse_product_version parse_segments parse_segment all_digits leading_zero value_from
parse_release_tag-Canonical_example =
    parse_release_tag-Canonical (codes "release/4.1.2.3") third_fix refl

compare_product_version_order_example :
    ((compare_product_version (numbered 4 1 2 3) (numbered 4 1 2 0) ≡ same)
      ↔ (numbered 4 1 2 3 ≡ numbered 4 1 2 0))
    × ((compare_product_version (numbered 4 1 2 3) (numbered 4 1 2 0) ≡ above)
        ↔ (compare_product_version (numbered 4 1 2 0) (numbered 4 1 2 3) ≡ below))
    × (compare_product_version (numbered 4 1 2 3) (numbered 4 1 2 0) ≡ above
        → compare_product_version (numbered 4 1 2 0) candidate ≡ above
        → compare_product_version (numbered 4 1 2 3) candidate ≡ above)
compare_product_version_order_example =
    compare_product_version_order (numbered 4 1 2 3) (numbered 4 1 2 0) candidate
      (plain-IsVersion 3 (omega arith)) (plain-IsVersion 0 (omega arith)) candidate-IsVersion

above_candidate : compare_product_version (numbered 4 1 2 0) candidate ≡ above
unfolding compare_product_version compare_prereleases bytes_eq
above_candidate = refl

abbrev line : Line
line = record { major = 4; minor = 1 }

abbrev existing : List (List ℕ)
existing = codes "v4.1.2-rc.10" ∷ codes "release/4.1.2.3" ∷ codes "v4.2.0" ∷ codes "latest" ∷ []

allocated : allocate_patch line existing ≡ ok (numbered 4 1 2 4)
unfolding allocate_patch highest_on_line count_tag version_on_line off_line higher next_build
    compare_product_version compare_prereleases parse_release_tag tag_body cut_prefix short_form
    count before after holds split parse_product_version valid_prerelease is_stage bytes_eq
    parse_segments parse_segment all_digits leading_zero value_from
allocated = refl

allocate_patch-above_example :
    OnLine line (numbered 4 1 2 4)
    × All
        (λ raw.
          (t : Tag)
          → parse_release_tag raw ≡ ok t
          → off_line t line ≡ false
          → compare_product_version (numbered 4 1 2 4) t.product ≡ above)
        existing
allocate_patch-above_example = allocate_patch-above line existing (numbered 4 1 2 4) allocated

other_line : tags_on line (codes "v4.2.0" ∷ []) ≡ []
unfolding tags_on off_line parse_release_tag tag_body cut_prefix short_form count before after holds
    split parse_product_version parse_segments parse_segment all_digits leading_zero value_from
other_line = refl

no_tag : tags_on line (codes "latest" ∷ []) ≡ []
unfolding tags_on parse_release_tag tag_body cut_prefix
no_tag = refl

resume_tag-allocate_patch_example :
    resume_tag line (codes "v4.2.0" ∷ (tag (numbered 4 1 2 4)).raw ∷ codes "latest" ∷ [])
    ≡ ok (tag (numbered 4 1 2 4))
resume_tag-allocate_patch_example =
    resume_tag-allocate_patch line existing (codes "v4.2.0" ∷ []) (codes "latest" ∷ [])
      (numbered 4 1 2 4) allocated other_line no_tag

resume_tag-the_only_example :
    resume_tag line (codes "latest" ∷ []) ≡ the_only line (tags_on line (codes "latest" ∷ []))
resume_tag-the_only_example = resume_tag-the_only line (codes "latest" ∷ [])

beta_to_rc :
    advance_release (codes "v4.1.0-beta.2") (codes "rc") (codes "v4.1.0-beta.1" ∷ [])
    ≡ ok (codes "4.1.0-rc.1")
unfolding advance_release advance_from read_candidate_tag newer_candidate is_finalized has_prefix
    contains_text cut_prefix parse_release_tag tag_body short_form count before after holds split
    parse_product_version parse_segments parse_segment all_digits leading_zero value_from
    valid_prerelease is_stage bytes_eq string decimal digits_onto version_string parsed
    order_candidate compare_product_version compare_prereleases
beta_to_rc = refl

superseded :
    advance_release (codes "v4.1.0-beta.2") (codes "stable") (codes "v4.1.0-beta.3" ∷ [])
    ≡ err superseded_candidate
unfolding advance_release advance_from read_candidate_tag newer_candidate is_finalized has_prefix
    contains_text cut_prefix parse_release_tag tag_body short_form count before after holds split
    parse_product_version parse_segments parse_segment all_digits leading_zero value_from
    valid_prerelease is_stage bytes_eq string decimal digits_onto version_string parsed
    order_candidate compare_product_version compare_prereleases
superseded = refl

approved :
    release_aliases (codes "4.1.0-rc.1") true ≡ codes "rc" ∷ codes "beta" ∷ codes "testing" ∷ []
unfolding release_aliases release_stage valid_version advance_release advance_from
    read_candidate_tag newer_candidate is_finalized has_prefix contains_text cut_prefix
    parse_release_tag tag_body short_form count before after holds split parse_product_version
    parse_segments parse_segment all_digits leading_zero value_from valid_prerelease is_stage
    bytes_eq string decimal digits_onto version_string parsed order_candidate
    compare_product_version compare_prereleases
approved = refl

advance_release-Advanced_example :
    (t : Tag) × (w : Version) × (parse_release_tag (codes "v4.1.0-beta.2") ≡ ok t)
    × Advanced t.product (codes "4.1.0-rc.1") w
advance_release-Advanced_example =
    advance_release-Advanced (codes "v4.1.0-beta.2") (codes "rc") (codes "v4.1.0-beta.1" ∷ [])
      (codes "4.1.0-rc.1") beta_to_rc
