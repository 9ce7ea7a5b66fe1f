-- ===== src/Shell/Routing/Resolve.antt =====
-- What the browser makes of an absolute path that `history.pushState` or `history.replaceState` is
-- given, as the URL standard says: a dot segment is taken out, with the segment before it if it has
-- two dots. A dot may be written as %2e. The other bytes of the paths that `stateToPath` makes are
-- none that a URL parser changes.
use tracium.Prelude.{
  Bool, true, false, ◌&&◌, ◌||◌, List, [], ◌∷◌, ◌++◌, Option, none, some, if◌then◌else◌, ◌===◌,
  number_key, ◌>>=◌, any,
}
use tracium.Uri.{Text}
use tracium.Shell.Routing.{split}

abbrev pub after_escape : Text → Option Text
after_escape (d ∷ e ∷ t) = if d === 50 && (e === 101 || e === 69) then some t else none
after_escape _ = none

-- What is behind a dot
abbrev pub after_dot : Text → Option Text
after_dot [] = none
after_dot (c ∷ t) = if c === 46 then some t else if c === 37 then after_escape t else none

abbrev pub is_end : Option Text → Bool
is_end (some []) = true
is_end _ = false

abbrev pub is_single_dot : Text → Bool
is_single_dot segment = is_end (after_dot segment)

abbrev pub is_double_dot : Text → Bool
is_double_dot segment = is_end (after_dot segment >>= after_dot)

abbrev pub is_dots : Text → Bool
is_dots segment = is_single_dot segment || is_double_dot segment

abbrev pub has_dots : Text → Bool
has_dots path = any is_dots (split path)

abbrev pub pop : List Text → List Text
pop [] = []
pop (segment ∷ out) = out

-- The segments of the resolved path, the last one first
abbrev pub resolve_segments : List Text → List Text → List Text
resolve_segments out [] = out
resolve_segments out (s ∷ []) =
    if is_double_dot s then [] ∷ pop out else if is_single_dot s then [] ∷ out else s ∷ out
resolve_segments out (s ∷ t ∷ rest) =
    let more = if is_double_dot s then pop out else if is_single_dot s then out else s ∷ out in
    resolve_segments more (t ∷ rest)

abbrev pub written : List Text → Text
written [] = []
written (segment ∷ before) = written before ++ 47 ∷ segment

-- Without the empty segment in front of the first slash
unfoldable pub resolve_path : Text → Text
resolve_path path = if has_dots path then written (resolve_segments [] (pop (split path))) else path
