-- ===== src/TraceInspector/Json.antt =====
-- JSON in prose: dashboard/src/modules/trace-inspector/utils/prettifyMaybeJson.ts. A text is the list
-- of its code units. What `JSON.parse` makes of a group, and how `JSON.stringify` prints it, is an
-- argument: both are the host's.
pub mod Groups
pub mod Scan
pub mod Pieces
mod Tests
use tracium.Prelude.{
  ℕ, zero, suc, ◌+◌, Bool, true, false, ◌&&◌, ◌||◌, List, [], ◌∷◌, ◌++◌, Option, none, some,
  if◌then◌else◌, ◌===◌, number_key, number_same, length,
}
use tracium.Prelude.Int.{ℤ, pos, negsuc}
use tracium.Uri.{Text}

-- A value that was parsed: whether it is an array of one scalar, and how it is printed
pub record Parsed : Type 0 where
  pub is_scalar_ref : Bool
  pub printed : Text

abbrev pub formatted : Option Parsed → Text → Text
formatted none group = group
formatted (some value) group = if value.is_scalar_ref then group else value.printed

-- `prettifyGroup`; `parse` is none where `JSON.parse` throws.
unfoldable pub prettify_group : (Text → Option Parsed) → Text → Text
prettify_group parse group = formatted (parse group) group

-- `{` and `[`, `}` and `]`
abbrev pub is_open : ℕ → Bool
is_open c = (c === 123) || (c === 91)

abbrev pub is_close : ℕ → Bool
is_close c = (c === 125) || (c === 93)

-- `inString` and `escaped`: an escape is only in a string.
pub data Place : Type 0 where
  outside in_string escaped : Place

abbrev pub place_after : Place → ℕ → Place
place_after Place.escaped c = Place.in_string
place_after Place.in_string c =
    if c === 92 then Place.escaped else if c === 34 then Place.outside else Place.in_string
place_after Place.outside c = if c === 34 then Place.in_string else Place.outside

-- `depth++` and `depth--`
abbrev pub increment : ℤ → ℤ
increment (pos n) = pos (suc n)
increment (negsuc zero) = pos zero
increment (negsuc (suc n)) = negsuc n

abbrev pub decrement : ℤ → ℤ
decrement (pos zero) = negsuc zero
decrement (pos (suc n)) = pos n
decrement (negsuc n) = negsuc (suc n)

abbrev pub is_zero : ℤ → Bool
is_zero (pos zero) = true
is_zero (pos (suc n)) = false
is_zero (negsuc n) = false

abbrev pub depth_after : Place → ℕ → ℤ → ℤ
depth_after Place.escaped c depth = depth
depth_after Place.in_string c depth = depth
depth_after Place.outside c depth =
    if is_open c then increment depth else if is_close c then decrement depth else depth

abbrev pub closes : Place → ℕ → ℤ → Bool
closes Place.escaped c depth = false
closes Place.in_string c depth = false
closes Place.outside c depth = is_close c && is_zero (decrement depth)

abbrev pub one_more : Option ℕ → Option ℕ
one_more none = none
one_more (some n) = some (suc n)

-- `findBalancedEnd`, from where it is in the text: how many units there are up to the bracket that
-- closes, with it
unfoldable pub find_balanced_end : ℤ → Place → Text → Option ℕ
find_balanced_end depth place [] = none
find_balanced_end depth place (c ∷ text) =
    let later = find_balanced_end (depth_after place c depth) (place_after place c) text in
    if closes place c depth then some 1 else one_more later

-- `text.slice(0, n)` and `text.slice(n)`
abbrev pub slice_to : ℕ → Text → Text
slice_to zero text = []
slice_to (suc n) [] = []
slice_to (suc n) (c ∷ text) = c ∷ slice_to n text

abbrev pub slice_from : ℕ → Text → Text
slice_from zero text = text
slice_from (suc n) [] = []
slice_from (suc n) (c ∷ text) = slice_from n text

-- The loop, from where it is in the text; `pending` is `text.slice(last, i)`, and none means that the
-- fuel ran out.
unfoldable pub prettify_from : (Text → Option Parsed) → ℕ → Text → Text → Text → Option Text
prettify_from parse fuel out pending [] = some (out ++ pending)
prettify_from parse zero out pending (c ∷ text) = none
prettify_from parse (suc fuel) out pending (c ∷ text) = elim (is_open c) [
  | false ↦ prettify_from parse fuel out (pending ++ c ∷ []) text
  | true ↦ elim (find_balanced_end (pos 0) Place.outside (c ∷ text)) [
    | none ↦ some (out ++ (pending ++ c ∷ text))
    | some n ↦
        prettify_from parse fuel (out ++ (pending ++ prettify_group parse (slice_to n (c ∷ text))))
          [] (slice_from n (c ∷ text))
  ]
]

-- Each turn goes on by one unit or more, so the length of the text is fuel enough.
unfoldable pub prettify_maybe_json : (Text → Option Parsed) → Text → Option Text
prettify_maybe_json parse text = prettify_from parse (length text) [] [] text
