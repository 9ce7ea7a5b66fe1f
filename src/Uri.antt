-- ===== src/Uri.antt =====
-- `encodeURIComponent` and `decodeURIComponent`, as the language defines them. A text that goes into
-- a URL is held as the list of its UTF-8 bytes.
pub mod Escapes
mod Tests
use Prim.Native.Char.{code}
use tracium.Prelude.{
  ℕ, zero, suc, ◌+◌, ◌-◌, ◌*◌, ◌/◌, ◌%◌, Bool, true, false, ◌&&◌, ◌||◌, List, [], ◌∷◌, ◌++◌, Option,
  none, some, String, ltb, leb, if◌then◌else◌, ◌===◌, number_key, number_same, ◌>>=◌,
}
use tracium.Prelude.Maps.{has}

abbrev pub Text : Type 0
Text = List ℕ

-- The bytes of a text of ASCII characters
abbrev pub bytes : String → Text
bytes String.[] = []
bytes (String.◌∷◌ c s) = code c ∷ bytes s

abbrev pub within : ℕ → ℕ → ℕ → Bool
within low high b = leb low b && leb b high

-- A letter, a digit, or one of -_.!~*'()
unfoldable pub is_plain : ℕ → Bool
is_plain b = within 97 122 b || within 65 90 b || within 48 57 b || has b (bytes "-_.!~*'()")

-- The digit of a number below 16, in upper case
abbrev pub hex_digit : ℕ → ℕ
hex_digit n = if ltb n 10 then 48 + n else 55 + n

unfoldable pub encode_byte : ℕ → Text
encode_byte b = if is_plain b then b ∷ [] else 37 ∷ hex_digit (b / 16) ∷ hex_digit (b % 16) ∷ []

unfoldable pub encode : Text → Text
encode [] = []
encode (b ∷ t) = encode_byte b ++ encode t

-- The value of a hexadecimal digit, in either case
unfoldable pub hex_value : ℕ → Option ℕ
hex_value c =
    if within 48 57 c
    then some (c - 48)
    else if within 65 70 c
    then some (c - 55)
    else if within 97 102 c
    then some (c - 87)
    else none

-- Where the reading of escapes is: outside of one, behind its %, or behind its first digit
pub data Place : Type 0 where
  outside behind_percent : Place
  behind_digit : ℕ → Place

-- The place behind a byte, with what has been read by then
abbrev pub advance : Place → ℕ → Option (Place × Text)
advance Place.outside c =
    if c === 37 then some (Place.behind_percent, []) else some (Place.outside, c ∷ [])
advance Place.behind_percent c = elim (hex_value c) [
  | none ↦ none
  | some h ↦ some (Place.behind_digit h, [])
]
advance (Place.behind_digit h) c = elim (hex_value c) [
  | none ↦ none
  | some l ↦ some (Place.outside, (h * 16 + l) ∷ [])
]

-- An escape that the text breaks off is no escape.
abbrev pub at_end : Place → Option Text
at_end Place.outside = some []
at_end Place.behind_percent = none
at_end (Place.behind_digit h) = none

abbrev pub prepend : Text → Option Text → Option Text
prepend out none = none
prepend out (some u) = some (out ++ u)

unfoldable pub unescape : Place → Text → Option Text
unescape place [] = at_end place
unescape place (c ∷ t) = elim (advance place c) [
  | none ↦ none
  | some (next, out) ↦ prepend out (unescape next t)
]

-- What UTF-8 wants behind a first byte: how many bytes, and the bounds of the next of them
unfoldable pub behind_first : ℕ → Option (ℕ × ℕ × ℕ)
behind_first b =
    if ltb b 128
    then some (0, 128, 191)
    else if within 194 223 b
    then some (1, 128, 191)
    else if b === 224
    then some (2, 160, 191)
    else if b === 237
    then some (2, 128, 159)
    else if within 225 239 b
    then some (2, 128, 191)
    else if b === 240
    then some (3, 144, 191)
    else if within 241 243 b
    then some (3, 128, 191)
    else if b === 244
    then some (3, 128, 143)
    else none

-- Whether a text is UTF-8, where a character still wants some bytes
unfoldable pub is_utf8_from : ℕ → ℕ → ℕ → Text → Bool
is_utf8_from zero low high [] = true
is_utf8_from (suc more) low high [] = false
is_utf8_from (suc more) low high (b ∷ t) =
    let rest = is_utf8_from more 128 191 t in within low high b && rest
is_utf8_from zero low high (b ∷ t) = elim (behind_first b) [
  | none ↦ false
  | some (more, low', high') ↦ is_utf8_from more low' high' t
]

abbrev pub is_utf8 : Text → Bool
is_utf8 t = is_utf8_from 0 128 191 t

-- `none` is the URIError that is thrown.
unfoldable pub decode : Text → Option Text
decode t = do u ← unescape Place.outside t; if is_utf8 u then some u else none
