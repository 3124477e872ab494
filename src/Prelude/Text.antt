-- ===== src/Prelude/Text.antt =====
-- Texts as lists of code points, where the program reads their characters.
use Prim.Native.Nat.{ℕ, ◌+◌, ◌-◌, ◌/◌, ◌%◌}
use Prim.Native.Char.{code}
use Prim.Native.String.{String}
use mathlib.Core.Bool.{Bool, true, false, ◌&&◌, ◌||◌}
use mathlib.Core.List.{List, [], ◌∷◌}
use veritio.Prelude.Tests.{leb, ltb, ◌==◌, if◌then◌else◌}
use veritio.Prelude.Lists.{every, length}

abbrev pub Text : Type 0
Text = List ℕ

abbrev pub codes : String → Text
codes String.[] = []
codes (String.◌∷◌ c s) = code c ∷ codes s

-- The white space and line terminators that `String.prototype.trim` removes.
unfoldable pub is_white_space : ℕ → Bool
is_white_space c =
    leb 9 c && leb c 13
    || c == 32
    || c == 160
    || c == 0x1680
    || leb 0x2000 c && leb c 0x200a
    || c == 0x2028
    || c == 0x2029
    || c == 0x202f
    || c == 0x205f
    || c == 0x3000
    || c == 0xfeff

-- `value.trim().length === 0`: every character is white space.
unfoldable pub is_blank : String → Bool
unfolding is_white_space
is_blank s = every is_white_space (codes s)

-- `value.length === 0`
unfoldable pub is_empty : String → Bool
is_empty String.[] = true
is_empty (String.◌∷◌ c s) = false

unfoldable pub is_lower_hex : ℕ → Bool
is_lower_hex c = leb b'0' c && leb c b'9' || leb b'a' c && leb c b'f'

unfoldable pub is_alphanumeric : ℕ → Bool
is_alphanumeric c = leb b'0' c && leb c b'9' || leb b'A' c && leb c b'Z' || leb b'a' c && leb c b'z'

-- /^[a-f0-9]{64}$/
unfoldable pub is_sha256_hex : String → Bool
unfolding is_lower_hex
is_sha256_hex s = let cs = codes s in length cs == 64 && every is_lower_hex cs

-- The UTF-16 code units of a text, by which JavaScript orders strings.
pub utf16 : Text → List ℕ
utf16 [] = []
utf16 (c ∷ cs) =
    let rest = utf16 cs in
    if ltb c 0x10000
    then c ∷ rest
    else (0xd800 + (c - 0x10000) / 0x400) ∷ ((0xdc00 + (c - 0x10000) % 0x400) ∷ rest)

-- Whether the first list of code units comes before the second or is the same.
unfoldable pub units_le : List ℕ → List ℕ → Bool
units_le [] ys = true
units_le (x ∷ xs) [] = false
units_le (x ∷ xs) (y ∷ ys) = if x == y then units_le xs ys else ltb x y

unfoldable pub text_le : String → String → Bool
unfolding utf16 units_le
text_le a b = units_le (utf16 (codes a)) (utf16 (codes b))

-- `===` of two texts.
unfoldable pub same_text : Text → Text → Bool
same_text [] [] = true
same_text [] (y ∷ ys) = false
same_text (x ∷ xs) [] = false
same_text (x ∷ xs) (y ∷ ys) = x == y && same_text xs ys
