-- ===== src/Shell/Dashboard/Tests.antt =====
-- Runs of the dashboard, and its theorems at a concrete session.
use tracium.Prelude.{
  ◌≡◌, refl, true, false, [], ◌∷◌, List, none, some, ◌≤◌, ℕ, length, ◌≢◌, text_key, All,
}
use tracium.Uri.{
  bytes, encode, encode_byte, is_plain, decode, unescape, hex_value, is_utf8_from, behind_first,
}
use tracium.Extensions.{
  DashboardExtensions, validate_extensions, check_each, is_extension_id, or_none,
}
use tracium.Session.{view_key, redirect_key, workspace_key, without}
use tracium.Shell.Workspaces.{Workspace, Env, choose, demo_workspace}
use tracium.Shell.Routing.{
  ViewId, Selected, at_view, nothing, core_path, state_to_path, path_to_state, segments, split,
  decode_each, route,
}
use tracium.Shell.Routing.Core.{IsSelection, shown}
use tracium.Shell.Dashboard.DeepLink.{at_auth, require_auth_redirect, require_auth_redirect-mount}
use tracium.Shell.Dashboard.{
  Browser, Config, Operation, as_view, compute_initial_nav, initial_shell, run,
}
use tracium.Shell.Dashboard.History.{
  mirror, sync_client, handle, on_pop, Event, act, step, steps, mount, workspace_of, id_of,
}
use tracium.Prelude.Maps.{get}
use tracium.Shell.Dashboard.Address.{IsPlaced, IsScoped, IsNamedEvent, steps-mount}
use tracium.Shell.Routing.Resolve.{resolve_path}
use tracium.Shell.Dashboard.Settled.{IsPlain}
use tracium.Shell.Dashboard.Visits.{visit_steps}
use tracium.Shell.Dashboard.Navigation.{visits_of, mount-visit_steps}
use tracium.Shell.Dashboard.Returns.{backs, backs-steps, compute_initial_nav-steps}
use tracium.Shell.Dashboard.Breadcrumb.{breadcrumb}
use tracium.Shell.Dashboard.Breadcrumb.Trail.{labels, breadcrumb-handle}
use tracium.Shell.Dashboard.Content.{is_blocked, elements}
use tracium.Shell.Dashboard.Content.Single.{length-elements}
use tracium.Shell.Dashboard.Scope.{step-workspace}

abbrev extensions : DashboardExtensions
extensions = record {
  pages = some (
      record { id = bytes "extension:billing"; label = "Billing"; requires_workspace = none } ∷ []);
  settings_sections = none;
  ingest_endpoint = none;
}

abbrev config : Config
config = record {
  persist = true;
  pages = or_none extensions.pages;
  demo = demo_workspace (bytes "x");
}

-- A tab that opens a trace, with a view from an earlier visit stored
abbrev browser : Browser
browser = record {
  behind = [];
  current = record { path = bytes "/traces/t1"; state = none };
  ahead = [];
  local_storage = (view_key, bytes "usage") ∷ [];
  session_storage = (redirect_key, bytes "/usage") ∷ [];
}

abbrev open_workflow : Event
open_workflow = act (
    Operation.set_selected (λ s. record s { workflow = some (bytes "a b") })
    ∷ Operation.set_view (bytes "workflows")
    ∷ [])

abbrev session : List Event
session =
    open_workflow ∷ Event.back ∷ Event.forward ∷ act (Operation.set_view (bytes "keys") ∷ []) ∷ []

abbrev onwards : List Event
onwards = act (Operation.set_view (bytes "users") ∷ []) ∷ act (Operation.open_cmd ∷ []) ∷ []

abbrev shop : Workspace
shop = record {
  id = bytes "w1";
  name = bytes "Shop";
  slug = bytes "shop";
  role = bytes "Owner";
  members = 1;
  env = Env.staging;
}

address :
    (steps config (mount config browser none) session).browser.current.path ≡ bytes "/api-keys"
unfolding step handle mount run mirror sync_client on_pop initial_shell compute_initial_nav as_view
    state_to_path core_path path_to_state segments split decode_each decode unescape hex_value
    is_utf8_from behind_first route without encode encode_byte is_plain choose resolve_path
address = refl

opens-IsPlain : (s : Selected) → IsPlain s → IsPlain (record s { workflow = some (bytes "a b") })
unfolding encode encode_byte is_plain split
opens-IsPlain s h = record {
  workflow = refl;
  base = h.base;
  candidate = h.candidate;
  trace_id = h.trace_id;
  user = h.user;
}

session-IsNamed : All IsNamedEvent session
session-IsNamed = ((opens-IsPlain, (refl, tt)), (tt, (tt, ((refl, tt), tt))))

first-IsPlain : IsPlain (compute_initial_nav config browser).selected
unfolding compute_initial_nav path_to_state segments split decode_each decode unescape hex_value
    is_utf8_from behind_first route encode encode_byte is_plain
first-IsPlain = record { workflow = tt; base = tt; candidate = tt; trace_id = refl; user = tt }

-- A workflow with the name '..' has its page at the address of the overview, and Back from the next
-- page to it makes a new entry.
abbrev open_dots : Event
open_dots = act (
    Operation.set_selected (λ s. record s { workflow = some (bytes "..") })
    ∷ Operation.set_view (bytes "workflows")
    ∷ [])

abbrev open_keys : Event
open_keys = act (Operation.set_view (bytes "keys") ∷ [])

dots_address :
    (steps config (mount config browser none) (open_dots ∷ [])).browser.current.path ≡ bytes "/"
unfolding step handle mount run mirror sync_client on_pop initial_shell compute_initial_nav as_view
    state_to_path core_path path_to_state segments split decode_each decode unescape hex_value
    is_utf8_from behind_first route without encode encode_byte is_plain choose resolve_path
dots_address = refl

dots_trap :
    length
      (steps config
        (mount config browser none)
        (open_dots ∷ open_keys ∷ Event.back ∷ [])).browser.behind
    ≡ 2
unfolding step handle mount run mirror sync_client on_pop initial_shell compute_initial_nav as_view
    state_to_path core_path path_to_state segments split decode_each decode unescape hex_value
    is_utf8_from behind_first route without encode encode_byte is_plain choose resolve_path
dots_trap = refl

steps-mount_example :
    let world = steps config (mount config browser none) session in
    IsPlaced config world × IsScoped config world
unfolding is_extension_id
steps-mount_example =
    steps-mount config refl browser none session (refl, tt) refl refl first-IsPlain session-IsNamed

mount-visit_steps_example :
    visits_of (steps config (mount config browser none) session)
    ≡ visit_steps config.pages
        (record { back = []; here = compute_initial_nav config browser; forth = [] })
        session
unfolding is_extension_id
mount-visit_steps_example =
    mount-visit_steps config refl browser none session (refl, tt) refl refl first-IsPlain
      session-IsNamed

backs-steps_example :
    let world = steps config (mount config browser none) session in
    (n : ℕ) × (n ≤ 2)
    × ((backs config n (steps config world onwards)).browser.current.path
        ≡ world.browser.current.path)
unfolding is_extension_id
backs-steps_example =
    backs-steps config refl browser none session onwards (refl, tt) refl refl first-IsPlain
      session-IsNamed ((refl, tt), (tt, tt)) (refl, (refl, tt))

selected-IsSelection : IsSelection (steps config (mount config browser none) session).shell.selected
unfolding step handle mount run mirror sync_client on_pop initial_shell compute_initial_nav as_view
    state_to_path core_path path_to_state segments split decode_each decode unescape hex_value
    is_utf8_from behind_first route without encode encode_byte is_plain choose resolve_path
selected-IsSelection = record {
  workflow = refl;
  base = tt;
  candidate = tt;
  trace_id = refl;
  user = tt;
}

abbrev keys_page : Browser
keys_page = record browser {
  current = record {
    path = (steps config (mount config browser none) session).browser.current.path;
    state = none;
  };
}

compute_initial_nav-steps_example :
    compute_initial_nav config keys_page ≡ at_view ViewId.keys nothing
unfolding validate_extensions check_each is_extension_id step handle mount run mirror sync_client
    on_pop initial_shell compute_initial_nav as_view state_to_path core_path path_to_state segments
    split decode_each decode unescape hex_value is_utf8_from behind_first route without encode
    encode_byte is_plain choose resolve_path
compute_initial_nav-steps_example =
    compute_initial_nav-steps config extensions refl refl refl browser none session refl refl
      first-IsPlain session-IsNamed keys_page refl selected-IsSelection

abbrev at_keys : Browser
at_keys = record browser { current = record { path = bytes "/api-keys"; state = none } }

breadcrumb-handle_example :
    let after =
      (step config
        (act (Operation.set_view (bytes "settings") ∷ []))
        (mount config at_keys none)).shell in
    labels (breadcrumb config.pages after.view after.selected) ≡ bytes "Settings" ∷ []
unfolding is_extension_id mount mirror sync_client initial_shell compute_initial_nav breadcrumb
    path_to_state segments split decode_each decode unescape hex_value is_utf8_from behind_first
    route
breadcrumb-handle_example =
    breadcrumb-handle config (mount config at_keys none) 0
      (Operation.set_view (bytes "settings") ∷ []) (refl, tt) refl

length-elements_example : length (elements config true false (mount config at_keys none)) ≡ 1
unfolding is_extension_id mount mirror sync_client initial_shell compute_initial_nav path_to_state
    segments split decode_each decode unescape hex_value is_utf8_from behind_first route is_blocked
    choose
length-elements_example = length-elements config true false (mount config at_keys none) (refl, tt)

step-workspace_example :
    let world = mount config browser none in
    let made = step config (Event.created shop) world in
    let left = step config (Event.deleted (bytes "w2")) world in
    (workspace_of config made ≡ some shop)
    × (made.client_workspace ≡ some shop.id)
    × (get workspace_key made.browser.local_storage ≡ some shop.id)
    × (id_of (workspace_of config left) ≢ some (bytes "w2"))
    × (left.client_workspace ≢ some (bytes "w2"))
unfolding mount mirror sync_client
step-workspace_example =
    step-workspace config refl (mount config browser none) shop (bytes "w2") refl

abbrev trace_link : Selected
trace_link = record {
  workflow = none;
  base = none;
  candidate = none;
  trace_id = some (bytes "t1");
  user = none;
}

trace_link-IsSelection : IsSelection trace_link
unfolding is_utf8_from behind_first
trace_link-IsSelection = record {
  workflow = tt;
  base = tt;
  candidate = tt;
  trace_id = refl;
  user = tt;
}

-- A visitor opens a shared link to a trace and signs up.
require_auth_redirect-mount_example :
    let at_trace = record browser {
      current = record { path = state_to_path ViewId.trace trace_link config.pages; state = none };
    } in
    let behind_login = at_auth true (require_auth_redirect at_trace) in
    (compute_initial_nav config behind_login ≡ shown ViewId.trace trace_link config.pages)
    × (get redirect_key (mount config behind_login none).browser.session_storage ≡ none)
unfolding validate_extensions check_each is_extension_id
require_auth_redirect-mount_example =
    require_auth_redirect-mount extensions config browser none ViewId.trace trace_link true refl
      refl refl trace_link-IsSelection
