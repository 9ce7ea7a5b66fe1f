-- ===== src/Shell/Dashboard.antt =====
-- The state of the dashboard and its mirror in the browser: dashboard/src/modules/shell/Dashboard/
-- Dashboard.tsx. A handler that calls several setters is a list of operations, after which the
-- effects run once. The storage is one that the browser lets the page use.
pub mod Views
pub mod History
pub mod Handlers
pub mod Address
pub mod Visits
pub mod Navigation
pub mod Returns
pub mod Breadcrumb
pub mod Content
pub mod Scope
pub mod DeepLink
pub mod Settled
mod Tests
use tracium.Prelude.{
  Bool, true, false, ◌&&◌, ◌||◌, not, List, [], ◌∷◌, Option, none, some, String, if◌then◌else◌,
  ◌===◌, text_key, any,
}
use tracium.Prelude.Maps.{get, set, has}
use tracium.Uri.{Text, bytes}
use tracium.Extensions.{bytes_key, ExtensionPage}
use tracium.Session.{redirect_key, workspace_key, view_key}
use tracium.Shell.Workspaces.{Workspace, choose, or_empty}
use tracium.Shell.Routing.{
  ViewId, view_text, Selected, NavState, nothing, at_view, is_full, state_to_path, path_to_state,
}

abbrev pub range_key : String
range_key = "tracium_range"

abbrev pub view_ids : List Text
view_ids =
    bytes "overview"
    ∷ bytes "workflows"
    ∷ bytes "compare"
    ∷ bytes "trace"
    ∷ bytes "usage"
    ∷ bytes "keys"
    ∷ bytes "settings"
    ∷ bytes "users"
    ∷ bytes "user"
    ∷ []

-- `v as ViewId`
unfoldable pub as_view : Text → ViewId
as_view v =
    if v === bytes "overview"
    then ViewId.overview
    else if v === bytes "workflows"
    then ViewId.workflows
    else if v === bytes "compare"
    then ViewId.compare
    else if v === bytes "trace"
    then ViewId.trace
    else if v === bytes "usage"
    then ViewId.usage
    else if v === bytes "keys"
    then ViewId.keys
    else if v === bytes "settings"
    then ViewId.settings
    else if v === bytes "users"
    then ViewId.users
    else if v === bytes "user"
    then ViewId.user
    else ViewId.extension v

-- An entry of the history: its path, and what `pushState` or `replaceState` left there, if the
-- dashboard did
pub record Entry : Type 0 where
  pub path : Text
  pub state : Option NavState

-- The tab: the entries behind and ahead of the current one, the nearest first, and the storage
pub record Browser : Type 0 where
  pub behind : List Entry
  pub current : Entry
  pub ahead : List Entry
  pub local_storage : List (String × Text)
  pub session_storage : List (String × Text)

pub record Shell : Type 0 where
  pub view : ViewId
  pub range : Text
  pub selected : Selected
  pub selected_workspace_id : Option Text
  pub cmd_open : Bool
  pub nav_open : Bool
  pub create_ws_intent : Bool
  pub hist_init : Bool

-- With the cached workspaces, and the workspace of the API client
pub record World : Type 0 where
  pub shell : Shell
  pub browser : Browser
  pub cached : Option (List Workspace)
  pub client_workspace : Option Text

-- What does not change while the dashboard is mounted; `persist` is `!embedded`.
pub record Config : Type 0 where
  pub persist : Bool
  pub pages : List ExtensionPage
  pub demo : Workspace

abbrev pub or_nav : Option NavState → NavState → NavState
or_nav none other = other
or_nav (some nav) other = nav

abbrev pub is_page : Text → List ExtensionPage → Bool
is_page id pages = any (λ page. page.id === id) pages

-- The view that is stored, if it is one
abbrev pub stored_nav : Option Text → List ExtensionPage → NavState
stored_nav none pages = at_view ViewId.overview nothing
stored_nav (some stored) pages =
    if is_full stored && (is_page stored pages || has stored view_ids)
    then at_view (as_view stored) nothing
    else at_view ViewId.overview nothing

abbrev pub redirect_nav : Option Text → List ExtensionPage → Option NavState
redirect_nav none pages = none
redirect_nav (some redirect) pages = if is_full redirect then path_to_state redirect pages else none

-- `computeInitialNav`
unfoldable pub compute_initial_nav : Config → Browser → NavState
compute_initial_nav config browser =
    let stored = stored_nav (get view_key browser.local_storage) config.pages in
    let redirected =
      or_nav (redirect_nav (get redirect_key browser.session_storage) config.pages) stored in
    if not config.persist
    then at_view ViewId.overview nothing
    else or_nav (path_to_state browser.current.path config.pages) redirected

abbrev pub or_week : Option Text → Text
or_week none = bytes "7d"
or_week (some range) = range

abbrev pub when_persist {ℓ} : {A : Type ℓ} → Config → Option A → Option A
when_persist config o = if config.persist then o else none

-- The state of the first render
unfoldable pub initial_shell : Config → Browser → Shell
initial_shell config browser = record {
  view = (compute_initial_nav config browser).view;
  range = or_week (when_persist config (get range_key browser.local_storage));
  selected = (compute_initial_nav config browser).selected;
  selected_workspace_id = when_persist config (get workspace_key browser.local_storage);
  cmd_open = false;
  nav_open = false;
  create_ws_intent = false;
  hist_init = false;
}

abbrev pub store : Config → String → Text → Browser → Browser
store config key v browser =
    if config.persist
    then record browser { local_storage = set key v browser.local_storage }
    else browser

-- The setters, and what the handlers of the dashboard do between two renders
pub data Operation : Type 0 where
  set_view set_range : Text → Operation
  set_selected : (Selected → Selected) → Operation
  select_workspace : Workspace → Operation
  go_create_workspace cancel_create open_cmd close_cmd open_nav close_nav : Operation

abbrev pub run_set_view : Config → Text → World → World
run_set_view config v world = record world {
  shell = record world.shell {
    view = as_view v;
    create_ws_intent = if v === bytes "settings" then world.shell.create_ws_intent else false;
  };
  browser = store config view_key v world.browser;
}

abbrev pub run_select_workspace : Config → Workspace → World → World
run_select_workspace config ws world = record world {
  shell = record world.shell { selected_workspace_id = some ws.id };
  browser = store config workspace_key ws.id world.browser;
}

abbrev pub set_intent : Bool → World → World
set_intent intent world = record world { shell = record world.shell { create_ws_intent = intent } }

unfoldable pub run : Config → World → Operation → World
run config world (set_view v) = run_set_view config v world
run config world (set_range r) = record world {
  shell = record world.shell { range = r };
  browser = store config range_key r world.browser;
}
run config world (set_selected f) = record world {
  shell = record world.shell { selected = f world.shell.selected };
}
run config world (select_workspace ws) = run_select_workspace config ws world
run config world go_create_workspace =
    run_set_view config (bytes "settings") (set_intent true world)
run config world cancel_create = set_intent false world
run config world open_cmd = record world { shell = record world.shell { cmd_open = true } }
run config world close_cmd = record world { shell = record world.shell { cmd_open = false } }
run config world open_nav = record world { shell = record world.shell { nav_open = true } }
run config world close_nav = record world { shell = record world.shell { nav_open = false } }
