-- ===== src/TaskWorker/Texts.antt =====
-- Go's strings as their errors hold them: any bytes, with what package strings and package utf8 of
-- Go make of those that are not UTF-8.
use Prim.Native.Char.{Char, code}
use Prim.Native.String.{String}
use passwall_node.Prelude.{
  ℕ, ◌≡◌, Bool, true, false, ◌&&◌, Option, none, some, List, [], ◌∷◌, if◌then◌else◌, is_empty,
  is_space, ap, codes, str_eq→eq, Bool-cases, Option-cases, inl, inr,
}

-- What `utf8.DecodeRune` makes of the bytes at the front of a string: a rune of as many bytes as it
-- has, or one byte that starts no rune. A string is the list of these, and it is the same list from
-- behind (`utf8.DecodeLastRune`), since no byte that starts a rune stands inside another one.
pub data Piece : Type 0 where
  rune : Char → Piece
  stray : ℕ → Piece

-- A string that is UTF-8
unfoldable pub whole : String → List Piece
whole String.[] = []
whole (String.◌∷◌ c s) = rune c ∷ whole s

-- `utf8.ValidString`, with the text that the string then is
unfoldable pub valid_text : List Piece → Option String
valid_text [] = some String.[]
valid_text (rune c ∷ ps) = elim (valid_text ps) [ none ↦ none | some s ↦ some (String.◌∷◌ c s) ]
valid_text (stray b ∷ ps) = none

-- `�`, U+FFFD
abbrev pub replacement : Char
replacement = "�"

-- `strings.ToValidUTF8(s, "�")`: each run of stray bytes becomes one `�`; `repaired` says that the
-- byte before was stray.
unfoldable pub repair : Bool → List Piece → String
repair repaired [] = String.[]
repair repaired (rune c ∷ ps) = String.◌∷◌ c (repair false ps)
repair true (stray b ∷ ps) = repair true ps
repair false (stray b ∷ ps) = String.◌∷◌ replacement (repair true ps)

unfoldable pub to_valid_utf8 : List Piece → String
unfolding repair
to_valid_utf8 ps = repair false ps

-- `unicode.IsSpace`; a stray byte reads as U+FFFD, which is no space.
abbrev pub is_blank_piece : Piece → Bool
is_blank_piece (rune c) = is_space (code c)
is_blank_piece (stray b) = false

-- `s == ""`
abbrev pub no_pieces : List Piece → Bool
no_pieces [] = true
no_pieces (p ∷ ps) = false

-- `strings.TrimSpace`
unfoldable pub trim_pieces_front : List Piece → List Piece
trim_pieces_front [] = []
trim_pieces_front (p ∷ ps) = if is_blank_piece p then trim_pieces_front ps else p ∷ ps

unfoldable pub trim_pieces_back : List Piece → List Piece
trim_pieces_back [] = []
trim_pieces_back (p ∷ ps) =
    let rest = trim_pieces_back ps in if is_blank_piece p && no_pieces rest then [] else p ∷ rest

unfoldable pub trim_pieces : List Piece → List Piece
unfolding trim_pieces_front trim_pieces_back
trim_pieces ps = trim_pieces_back (trim_pieces_front ps)

text_some : (c : Char) (s : String) → is_empty (String.◌∷◌ c s) ≡ false
text_some c s = elim (Bool-cases (is_empty (String.◌∷◌ c s))) [
  | inl e ↦ cc (ap codes (str_eq→eq (String.◌∷◌ c s) String.[] e))
  | inr e ↦ e
]

pub valid_text-some :
    (ps : List Piece) (s : String)
    → no_pieces ps ≡ false
    → valid_text ps ≡ some s
    → is_empty s ≡ false
unfolding valid_text
valid_text-some [] s h e = cc h
valid_text-some (rune c ∷ ps) s h e = elim (Option-cases (valid_text ps)) [
  | inl broken ↦ cc ((rw (valid_text, broken) at e))
  | inr (t, good) ↦
      (let it : s ≡ String.◌∷◌ c t = cc ((rw (valid_text, good) at e)) in rw it (text_some c t))
]
valid_text-some (stray b ∷ ps) s h e = cc e
