-- ===== src/Releases.antt =====
-- releaseid/releaseid.go: the versions and tags of releases, on their bytes.
mod Texts
pub mod Allocate
pub mod Decimal
pub mod Cuts
pub mod RoundTrip
pub mod Canonical
pub mod Order
pub mod Allocated
pub mod Tags
pub mod Candidates
pub mod Advancing
unfoldable pub use Texts.*
use passwall_node.Prelude.{
  ℕ, Bool, true, false, not, ◌&&◌, ◌||◌, Option, none, some, List, [], ◌∷◌, ◌++◌, length, get_or,
  if◌then◌else◌, ltb, leb, ◌==◌, codes, unknown_format, segment_range, not_tagged, Result, ok, err,
  ◌>>=◌, ◌>>◌, refuse,
}

abbrev pub max_segment : ℕ
max_segment = 2147483647

-- `Version`
pub record Version : Type 0 where
  pub major : ℕ
  pub minor : ℕ
  pub patch : ℕ
  pub build : ℕ
  pub prerelease : List ℕ

-- `-` and `.`
abbrev pub dash : ℕ
dash = 45

abbrev pub dot : ℕ
dot = 46

-- `Version.String`
unfoldable pub string : Version → List ℕ
string v =
    let base = decimal v.major ++ (dot ∷ (decimal v.minor ++ (dot ∷ decimal v.patch))) in
    if ltb 0 v.build
    then decimal v.major
      ++ (dot ∷ (decimal v.minor ++ (dot ∷ (decimal v.patch ++ (dot ∷ decimal v.build)))))
    else if not (no_bytes v.prerelease)
    then base ++ (dash ∷ v.prerelease)
    else base

-- `part[i] < '0' || part[i] > '9'` at no index
unfoldable pub all_digits : List ℕ → Bool
all_digits [] = true
all_digits (c ∷ cs) = leb 48 c && leb c 57 && all_digits cs

-- `len(part) > 1 && part[0] == '0'`
unfoldable pub leading_zero : List ℕ → Bool
leading_zero s = ltb 1 (length s) && get_or s 0 0 == 48

-- `parseSegment`. Of digits `strconv.ParseInt` fails only above the `int64`, and so above `MaxSegment`.
unfoldable pub parse_segment : List ℕ → Result ℕ
parse_segment part = do
  refuse (no_bytes part) unknown_format
  refuse (not (all_digits part)) unknown_format
  refuse (leading_zero part) unknown_format
  refuse (ltb max_segment (value_from 0 part)) segment_range
  ok (value_from 0 part)

-- `stage != "beta" && stage != "rc"`, negated
unfoldable pub is_stage : List ℕ → Bool
is_stage s = bytes_eq s (codes "beta") || bytes_eq s (codes "rc")

-- `validPrerelease`
unfoldable pub valid_prerelease : List ℕ → Bool
valid_prerelease pre =
    if not (holds dot pre) || not (is_stage (before dot pre))
    then false
    else elim (parse_segment (after dot pre)) [ err e ↦ false | ok n ↦ ltb 0 n ]

-- The loop of `ParseProductVersion`
unfoldable pub parse_segments : List (List ℕ) → Result (List ℕ)
parse_segments [] = ok []
parse_segments (p ∷ ps) = parse_segment p >>= λ n. parse_segments ps >>= λ ns. ok (n ∷ ns)

-- `ParseProductVersion`; `out` holds zeros behind the segments that were read.
unfoldable pub parse_product_version : List ℕ → Result Version
parse_product_version s = do
  refuse (no_bytes s) unknown_format
  refuse (holds dash s && not (valid_prerelease (after dash s))) unknown_format
  let parts = split dot (before dash s)
  refuse (holds dash s && not (length parts == 3)) unknown_format
  refuse (ltb 4 (length parts)) unknown_format
  out ← parse_segments parts
  refuse (length parts == 4 && get_or out 3 0 == 0) unknown_format
  ok (record {
    major = get_or out 0 0;
    minor = get_or out 1 0;
    patch = get_or out 2 0;
    build = get_or out 3 0;
    prerelease = after dash s;
  })

-- `dots != 2 && dots != 3`, of the dots in front of the first dash
unfoldable pub short_form : List ℕ → Bool
short_form s = let dots = count dot (before dash s) in not (dots == 2) && not (dots == 3)

-- `ValidVersion`
unfoldable pub valid_version : List ℕ → Bool
valid_version value = if short_form value then false else elim (parse_product_version value) [
  | err e ↦ false
  | ok v ↦ not (v.major == 0) && bytes_eq (string v) value
]

-- `Tag`, less its scheme, of which there is one
pub record Tag : Type 0 where
  pub raw : List ℕ
  pub product : Version

abbrev pub tag_prefix : List ℕ
tag_prefix = codes "v"

abbrev pub historical_tag_prefix : List ℕ
historical_tag_prefix = codes "release/"

-- `TagForVersion`
unfoldable pub tag_for_version : List ℕ → Result Tag
tag_for_version version = do
  v ← parse_product_version version
  refuse (v.major == 0) unknown_format
  ok (record { raw = tag_prefix ++ string v; product = v })

-- `HistoricalTagFor`
unfoldable pub historical_tag_for : List ℕ → Result Tag
historical_tag_for version = do
  tag ← tag_for_version version
  ok (record { raw = historical_tag_prefix ++ string tag.product; product = tag.product })

-- `Tag.VersionString`
unfoldable pub version_string : Tag → List ℕ
version_string t = string t.product

-- `tagBody`
unfoldable pub tag_body : List ℕ → Option (List ℕ)
tag_body raw = elim (cut_prefix tag_prefix raw) [
  | some body ↦ some body
  | none ↦ cut_prefix historical_tag_prefix raw
]

-- `ParseReleaseTag`
unfoldable pub parse_release_tag : List ℕ → Result Tag
parse_release_tag raw = elim (tag_body raw) [
  | none ↦ err unknown_format
  | some body ↦ do
    refuse (short_form body) unknown_format
    v ← parse_product_version body
    refuse (v.major == 0) unknown_format
    ok (record { raw = raw; product = v })
]

-- What `CompareProductVersion` answers: -1, 0 and 1.
pub data Sign : Type 0 where
  below same above : Sign

abbrev pub sign_of : ℕ → ℕ → Sign → Sign
sign_of a b rest = if a == b then rest else if ltb a b then below else above

-- `strings.Compare`
unfoldable pub compare_texts : List ℕ → List ℕ → Sign
compare_texts [] [] = same
compare_texts [] (y ∷ ys) = below
compare_texts (x ∷ xs) [] = above
compare_texts (x ∷ xs) (y ∷ ys) = let rest = compare_texts xs ys in sign_of x y rest

-- The part of `CompareProductVersion` behind the segments
unfoldable pub compare_prereleases : List ℕ → List ℕ → Sign
compare_prereleases a b =
    if bytes_eq a b
    then same
    else if no_bytes a
    then above
    else if no_bytes b
    then below
    else if not (bytes_eq (before dot a) (before dot b))
    then compare_texts (before dot a) (before dot b)
    else if ltb (value_from 0 (after dot a)) (value_from 0 (after dot b))
    then below
    else above

-- `CompareProductVersion`
unfoldable pub compare_product_version : Version → Version → Sign
compare_product_version a b = sign_of a.major b.major (
    sign_of a.minor b.minor (
      sign_of a.patch b.patch
        (sign_of a.build b.build (compare_prereleases a.prerelease b.prerelease))))

-- `Channel`
pub data Channel : Type 0 where
  stable testing : Channel

-- `ResolveChannel`
unfoldable pub resolve_channel : Bool → Bool → Result Channel
resolve_channel draft prerelease =
    if draft then err not_tagged else if prerelease then ok testing else ok stable
