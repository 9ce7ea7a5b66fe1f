-- ===== src/Shell/Routing/Tests.antt =====
-- Runs of the routes, and the round trip at a concrete input.
use tracium.Prelude.{◌≡◌, refl, [], ◌∷◌, none, some}
use tracium.Uri.{
  bytes, encode, encode_byte, is_plain, decode, unescape, hex_value, is_utf8_from, behind_first,
}
use tracium.Extensions.{
  DashboardExtensions, or_none, validate_extensions, check_each, is_extension_id,
}
use tracium.Shell.Routing.{
  ViewId, Selected, at_view, nothing, core_path, state_to_path, path_to_state, segments, split,
  decode_each, route,
}
use tracium.Shell.Routing.Core.{IsSelection, shown}
use tracium.Shell.Routing.RoundTrip.{path_to_state-state_to_path}

abbrev extensions : DashboardExtensions
extensions = record {
  pages = some (
      record { id = bytes "extension:billing"; label = "Billing"; requires_workspace = none } ∷ []);
  settings_sections = none;
  ingest_endpoint = none;
}

abbrev selected : Selected
selected = record {
  workflow = some (bytes "a/b");
  base = some (bytes "v1");
  candidate = some (bytes "v 2");
  trace_id = none;
  user = none;
}

path : state_to_path ViewId.compare selected [] ≡ bytes "/workflows/a%2Fb/compare/v1/v%202"
unfolding state_to_path core_path encode encode_byte is_plain
path = refl

-- Two names lead to the clients.
users_path : path_to_state (bytes "/users/") [] ≡ some (at_view ViewId.users nothing)
unfolding path_to_state segments split decode_each decode unescape hex_value is_utf8_from
    behind_first route
users_path = refl

unknown : path_to_state (bytes "/nowhere") [] ≡ none
unfolding path_to_state segments split decode_each decode unescape hex_value is_utf8_from
    behind_first route
unknown = refl

malformed : path_to_state (bytes "/traces/%E0%A4%A") [] ≡ none
unfolding path_to_state segments split decode_each decode unescape hex_value is_utf8_from
    behind_first
malformed = refl

accepted : validate_extensions extensions ≡ none
unfolding validate_extensions check_each is_extension_id
accepted = refl

selected-IsSelection : IsSelection selected
unfolding is_utf8_from behind_first
selected-IsSelection = record {
  workflow = refl;
  base = refl;
  candidate = refl;
  trace_id = tt;
  user = tt;
}

path_to_state-state_to_path_example :
    path_to_state
      (state_to_path ViewId.compare selected (or_none extensions.pages))
      (or_none extensions.pages)
    ≡ some (shown ViewId.compare selected (or_none extensions.pages))
path_to_state-state_to_path_example =
    path_to_state-state_to_path extensions ViewId.compare selected accepted selected-IsSelection
