-- ===== src/Texts.antt =====
-- What the host's `trim` and `includes` do with a text, held as its UTF-8 bytes. A comparison that
-- folds case takes `toLowerCase`, a table of the host, as an argument.
mod Tests
use tracium.Prelude.{
  ℕ, zero, suc, Bool, true, false, ◌&&◌, ◌||◌, not, List, [], ◌∷◌, if◌then◌else◌, number_same,
}
use tracium.Uri.{Text, bytes, within}
use tracium.Extensions.{starts_with}

-- U+1680, U+2000 to U+200A, U+2028, U+2029, U+202F, U+205F, U+3000 and U+FEFF
abbrev pub is_wide_space : Text → Bool
is_wide_space (a ∷ b ∷ d ∷ r) =
    (number_same a 226
      && ((number_same b 128 && (within 128 138 d || within 168 169 d || number_same d 175))
          || (number_same b 129 && number_same d 159)))
    || (number_same a 225 && (number_same b 154 && number_same d 128))
    || (number_same a 227 && (number_same b 128 && number_same d 128))
    || (number_same a 239 && (number_same b 187 && number_same d 191))
is_wide_space _ = false

-- How many bytes the white space takes that a text starts with, one character of it; 0 if none
abbrev pub space_length : Text → ℕ
space_length [] = 0
space_length (c ∷ t) =
    if within 9 13 c || number_same c 32
    then 1
    else if starts_with (194 ∷ 160 ∷ []) (c ∷ t)
    then 2
    else if is_wide_space (c ∷ t)
    then 3
    else 0

-- Without the white space in front, after some bytes that are skipped
unfoldable pub trim_start : ℕ → Text → Text
trim_start skip [] = []
trim_start (suc skip) (c ∷ t) = trim_start skip t
trim_start zero (c ∷ t) = elim (space_length (c ∷ t)) [
  | zero ↦ c ∷ t
  | suc more ↦ trim_start more t
]

abbrev pub is_empty : Text → Bool
is_empty [] = true
is_empty (c ∷ t) = false

unfoldable pub trim_end : Text → Text
trim_end [] = []
trim_end (c ∷ t) = let rest = trim_end t in if is_empty (trim_start 0 (c ∷ t)) then [] else c ∷ rest

-- `text.trim()`
abbrev pub trim : Text → Text
trim t = trim_end (trim_start 0 t)

-- `text.includes(part)`
unfoldable pub includes : Text → Text → Bool
includes [] part = starts_with part []
includes (c ∷ t) part = starts_with part (c ∷ t) || includes t part

-- `a || b`
abbrev pub or_else : Text → Text → Text
or_else [] b = b
or_else (c ∷ t) b = c ∷ t
