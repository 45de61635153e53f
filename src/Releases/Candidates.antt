-- ===== src/Releases/Candidates.antt =====
-- releaseid/release_stage.go, with what it uses of candidate.go: the stages of a candidate.
use passwall_node.Prelude.{
  ℕ, Bool, true, false, not, ◌&&◌, ◌||◌, Option, none, some, List, [], ◌∷◌, ◌++◌, length,
  if◌then◌else◌, ◌==◌, codes, not_candidate, superseded_candidate, not_advancing, finalized, Result,
  ok, err, ◌>>◌, refuse,
}
use passwall_node.Releases.{
  Version, Sign, below, dash, dot, holds, before, after, split, has_prefix, contains_text, bytes_eq,
  tag_prefix, valid_version, version_string, parse_release_tag, parse_product_version,
  compare_product_version,
}
use passwall_node.Releases.Allocate.{is_above}

-- `readCandidateTag`: the text, where it answers `true`
unfoldable pub read_candidate_tag : List ℕ → Option (List ℕ)
read_candidate_tag tag = elim (parse_release_tag tag) [
  | err e ↦ none
  | ok t ↦ some (version_string t)
]

-- What `ParseProductVersion` returns beside an error that is dropped
abbrev pub no_version : Version
no_version = record { major = 0; minor = 0; patch = 0; build = 0; prerelease = [] }

unfoldable pub parsed : List ℕ → Version
parsed s = elim (parse_product_version s) [ err e ↦ no_version | ok v ↦ v ]

-- `orderCandidate`
unfoldable pub order_candidate : List ℕ → List ℕ → Sign
order_candidate a b = compare_product_version (parsed a) (parsed b)

abbrev pub is_below : Sign → Bool
is_below below = true
is_below _ = false

-- `ReleaseStage`
unfoldable pub release_stage : List ℕ → Bool → List ℕ
release_stage v prerelease =
    if not (valid_version v)
    then codes "unknown"
    else if contains_text (codes "-beta.") v
    then codes "beta"
    else if contains_text (codes "-rc.") v
    then codes "rc"
    else if prerelease
    then (if length (split dot v) == 3 && not (is_below (order_candidate v (codes "4.0.2")))
        then codes "pending"
        else codes "beta")
    else codes "stable"

-- `ReleaseAliases`
unfoldable pub release_aliases : List ℕ → Bool → List (List ℕ)
release_aliases v approved =
    let stage = release_stage v (not approved) in
    if bytes_eq stage (codes "beta")
    then codes "beta" ∷ codes "testing" ∷ []
    else if bytes_eq stage (codes "rc")
    then codes "rc" ∷ codes "beta" ∷ codes "testing" ∷ []
    else if bytes_eq stage (codes "stable") && approved
    then codes "stable" ∷ codes "latest" ∷ codes "rc" ∷ codes "beta" ∷ codes "testing" ∷ []
    else []

-- The first loop of `AdvanceRelease`
unfoldable pub newer_candidate : List ℕ → List ℕ → List (List ℕ) → Bool
newer_candidate base v [] = false
newer_candidate base v (tag ∷ tags) =
    let rest = newer_candidate base v tags in
    elim (read_candidate_tag tag) [
      | none ↦ rest
      | some other ↦
          (has_prefix (base ++ (dash ∷ [])) other && is_above (order_candidate other v)) || rest
    ]

-- The second one
unfoldable pub is_finalized : List ℕ → List (List ℕ) → Bool
is_finalized base [] = false
is_finalized base (tag ∷ tags) =
    let rest = is_finalized base tags in
    elim (read_candidate_tag tag) [
      | none ↦ rest
      | some other ↦ bytes_eq other base || has_prefix (base ++ (dot ∷ [])) other || rest
    ]

-- `AdvanceRelease` behind its first read
unfoldable pub advance_from : List ℕ → List ℕ → List ℕ → List (List ℕ) → Result (List ℕ)
advance_from source v stage tags = do
  refuse (not (has_prefix tag_prefix source) || not (holds dash v)) not_candidate
  refuse (not (length (split dot (before dash v)) == 3)) not_candidate
  refuse (newer_candidate (before dash v) v tags) superseded_candidate
  if bytes_eq stage (codes "stable") then ok (before dash v) else do
    refuse (not (bytes_eq stage (codes "rc")) || not (has_prefix (codes "beta.") (after dash v)))
        not_advancing
    refuse (is_finalized (before dash v) tags) finalized
    ok (before dash v ++ codes "-rc.1")

-- `AdvanceRelease`
unfoldable pub advance_release : List ℕ → List ℕ → List (List ℕ) → Result (List ℕ)
advance_release source stage tags = elim (read_candidate_tag source) [
  | none ↦ err not_candidate
  | some v ↦ advance_from source v stage tags
]
