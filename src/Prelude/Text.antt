-- ===== src/Prelude/Text.antt =====
-- Texts: their order, which is SQLite's BINARY collation, and the test that a text is empty.
use Prim.Native.Nat.{ℕ, ◌+◌}
use Prim.Native.Char.{code}
use Prim.Native.String.{String}
use mathlib.Core.Path.{◌≡◌}
use mathlib.Core.Bool.{Bool, true, false, not, ◌&&◌, ◌||◌}
use mathlib.Core.List.{List, [], ◌∷◌}
use native.Mathlib.Omega.{arith}
use text.Mathlib.Text.{◌==◌ as str_eq}
use text.Mathlib.TextEquality.{eq_iff}
use passwall_node.Prelude.Tests.{ltb, leb, ◌==◌, if◌then◌else◌}

-- The code points of a text; UTF-8 orders the bytes of two texts as these are ordered.
abbrev pub codes : String → List ℕ
codes String.[] = []
codes (String.◌∷◌ c s) = code c ∷ codes s

unfoldable pub codes_leb : List ℕ → List ℕ → Bool
codes_leb [] ys = true
codes_leb (x ∷ xs) [] = false
codes_leb (x ∷ xs) (y ∷ ys) = if x == y then codes_leb xs ys else ltb x y

-- `a <= b` in SQL
unfoldable pub text_leb : String → String → Bool
unfolding codes_leb
text_leb a b = codes_leb (codes a) (codes b)

-- `s == ""`
abbrev pub is_empty : String → Bool
is_empty s = str_eq s ""

pub str_eq→eq : (a b : String) → str_eq a b ≡ true → a ≡ b
str_eq→eq a b h = (eq_iff a b).0 h

pub str_eq_refl : (a : String) → str_eq a a ≡ true
str_eq_refl a = ground (arith, eq_iff a a)

-- `unicode.IsSpace` of a code point
unfoldable pub is_space : ℕ → Bool
is_space c =
    leb 9 c && leb c 13
    || c == 32
    || c == 133
    || c == 160
    || c == 5760
    || leb 8192 c && leb c 8202
    || c == 8232
    || c == 8233
    || c == 8239
    || c == 8287
    || c == 12288

-- `strings.TrimSpace(s) == ""`, on code points
unfoldable pub is_blank : List ℕ → Bool
is_blank [] = true
is_blank (c ∷ cs) = is_space c && is_blank cs

-- The last code point is no space.
unfoldable pub ends_well : ℕ → List ℕ → Bool
ends_well c [] = not (is_space c)
ends_well c (d ∷ cs) = ends_well d cs

-- `strings.TrimSpace(s) != "" && strings.TrimSpace(s) == s`
unfoldable pub is_trimmed : List ℕ → Bool
is_trimmed [] = false
is_trimmed (c ∷ cs) = not (is_space c) && ends_well c cs

-- `len(s)`: the bytes of the UTF-8 encoding
unfoldable pub byte_length : List ℕ → ℕ
byte_length [] = 0
byte_length (c ∷ cs) =
    (if ltb c 128 then 1 else if ltb c 2048 then 2 else if ltb c 65536 then 3 else 4)
    + byte_length cs
