-- ===== src/Uri/Tests.antt =====
-- Runs of the encoding.
use tracium.Prelude.{◌≡◌, refl, [], ◌∷◌, ◌++◌, none, some}
use tracium.Uri.{
  Text, bytes, encode, encode_byte, is_plain, hex_value, unescape, is_utf8_from, behind_first,
  decode,
}

-- "a/é"
abbrev text : Text
text = bytes "a/" ++ 195 ∷ 169 ∷ []

escaped : encode text ≡ bytes "a%2F%C3%A9"
unfolding encode encode_byte is_plain
escaped = refl

lower_case : decode (bytes "a%2f%c3%a9") ≡ some text
unfolding decode unescape hex_value is_utf8_from behind_first
lower_case = refl

broken_off : decode (bytes "a%2") ≡ none
unfolding decode unescape hex_value
broken_off = refl

half_character : decode (bytes "%C3") ≡ none
unfolding decode unescape hex_value is_utf8_from behind_first
half_character = refl
