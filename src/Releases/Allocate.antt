-- ===== src/Releases/Allocate.antt =====
-- releaseid/allocate.go: the next number on a release line.
use passwall_node.Prelude.{
  ℕ, ◌+◌, Bool, true, false, not, ◌||◌, Option, none, some, List, [], ◌∷◌, ◌++◌, length, get_or,
  if◌then◌else◌, ltb, ◌==◌, unknown_format, segment_range, not_allocated, ambiguous_revision,
  Result, ok, err, ◌>>=◌, ◌>>◌, refuse,
}
use passwall_node.Releases.{
  Version, Tag, Sign, above, dot, max_segment, split, string, parse_segments, tag_prefix,
  parse_release_tag, compare_product_version,
}

-- `Line`
pub record Line : Type 0 where
  pub major : ℕ
  pub minor : ℕ

-- `ParseReleaseLine`: its loop tests a segment as `parseSegment` does.
unfoldable pub parse_release_line : List ℕ → Result Line
parse_release_line s = do
  refuse (not (length (split dot s) == 2)) unknown_format
  segments ← parse_segments (split dot s)
  ok (record { major = get_or segments 0 0; minor = get_or segments 1 0 })

-- `tag.Product.Major != line.Major || tag.Product.Minor != line.Minor`
unfoldable pub off_line : Tag → Line → Bool
off_line tag line = not (tag.product.major == line.major) || not (tag.product.minor == line.minor)

-- `versionOnLine`
unfoldable pub version_on_line : Tag → Line → Result (Option Version)
version_on_line tag line = if off_line tag line then ok none else ok (some tag.product)

-- `highest == nil || CompareProductVersion(*version, *highest) > 0`
abbrev pub is_above : Sign → Bool
is_above above = true
is_above _ = false

unfoldable pub higher : Version → Option Version → Option Version
higher v none = some v
higher v (some h) = if is_above (compare_product_version v h) then some v else some h

-- One round of the loop of `AllocatePatch`
unfoldable pub count_tag : Line → List ℕ → Option Version → Result (Option Version)
count_tag line raw highest = elim (parse_release_tag raw) [
  | err e ↦ ok highest
  | ok tag ↦ elim (version_on_line tag line) [
    | err e ↦ err unknown_format
    | ok none ↦ ok highest
    | ok (some v) ↦ ok (higher v highest)
  ]
]

unfoldable pub highest_on_line : Line → List (List ℕ) → Option Version → Result (Option Version)
highest_on_line line [] highest = ok highest
highest_on_line line (raw ∷ existing) highest =
    count_tag line raw highest >>= highest_on_line line existing

-- The build above a version
unfoldable pub next_build : Version → Result Version
next_build highest =
    if ltb max_segment (highest.build + 1)
    then err segment_range
    else ok (record highest { build = highest.build + 1; prerelease = [] })

-- `AllocatePatch`
unfoldable pub allocate_patch : Line → List (List ℕ) → Result Version
allocate_patch line existing = highest_on_line line existing none >>= λ highest. elim highest [
  | none ↦ err unknown_format
  | some h ↦ next_build h
]

-- `Version.Tag`
unfoldable pub tag : Version → Tag
tag v = record { raw = tag_prefix ++ string v; product = v }

-- The variables of the loop of `ResumeTag`
pub record Resuming : Type 0 where
  pub found : Tag
  pub matches : ℕ

abbrev pub resuming : Resuming
resuming = record {
  found = record {
    raw = [];
    product = record { major = 0; minor = 0; patch = 0; build = 0; prerelease = [] };
  };
  matches = 0;
}

-- One round of that loop
unfoldable pub match_tag : Line → List ℕ → Resuming → Resuming
match_tag line raw s = elim (parse_release_tag raw) [
  | err e ↦ s
  | ok t ↦ elim (version_on_line t line) [
    | err e ↦ s
    | ok none ↦ s
    | ok (some v) ↦ record { found = t; matches = s.matches + 1 }
  ]
]

unfoldable pub match_tags : Line → List (List ℕ) → Resuming → Resuming
match_tags line [] s = s
match_tags line (raw ∷ on_commit) s = match_tags line on_commit (match_tag line raw s)

-- The switch behind the loop
unfoldable pub resumed : Resuming → Result Tag
resumed s =
    if s.matches == 0
    then err not_allocated
    else if s.matches == 1
    then ok s.found
    else err ambiguous_revision

-- `ResumeTag`
unfoldable pub resume_tag : Line → List (List ℕ) → Result Tag
resume_tag line on_commit = resumed (match_tags line on_commit resuming)
