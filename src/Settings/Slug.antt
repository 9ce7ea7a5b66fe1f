-- ===== src/Settings/Slug.antt =====
-- `slugify` of dashboard/src/modules/settings/pages/SettingsPage.tsx, on the bytes of a text. What the
-- host's `toLowerCase` makes of the text is an argument.
pub mod Laws
pub mod Letters
use tracium.Prelude.{ℕ, Bool, true, false, ◌||◌, not, List, [], ◌∷◌, if◌then◌else◌, number_same}
use tracium.Uri.{Text, within}
use tracium.Texts.{trim, trim_start, trim_end, is_empty}

-- [a-z0-9]
abbrev pub is_slug_byte : ℕ → Bool
is_slug_byte c = within 97 122 c || within 48 57 c

abbrev pub starts_with_dash : Text → Bool
starts_with_dash [] = false
starts_with_dash (c ∷ t) = number_same c 45

-- `.replace(/[^a-z0-9]+/g, '-')`: a run is replaced at its end.
abbrev pub continues : Text → Bool
continues [] = false
continues (c ∷ t) = not (is_slug_byte c)

unfoldable pub dash_runs : Text → Text
dash_runs [] = []
dash_runs (c ∷ t) =
    let rest = dash_runs t in
    if is_slug_byte c then c ∷ rest else if continues t then rest else 45 ∷ rest

-- `.replace(/^-+|-+$/g, '')`
unfoldable pub drop_front : Text → Text
drop_front [] = []
drop_front (c ∷ t) = let rest = drop_front t in if number_same c 45 then rest else c ∷ t

unfoldable pub drop_back : Text → Text
drop_back [] = []
drop_back (c ∷ t) =
    let rest = drop_back t in
    if number_same c 45 then (if is_empty rest then [] else c ∷ rest) else c ∷ rest

unfoldable pub slugify : (Text → Text) → Text → Text
slugify lower s = drop_back (drop_front (dash_runs (trim (lower s))))
