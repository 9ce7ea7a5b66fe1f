-- ===== src/Shell/Dashboard/History.antt =====
-- The effects and the events of dashboard/src/modules/shell/Dashboard/Dashboard.tsx: the mirror on
-- the history, `popstate`, the shortcut, the mutations of the workspaces, and the mounting.
use tracium.Prelude.{
  Bool, true, false, ◌&&◌, ◌||◌, not, List, [], ◌∷◌, Option, none, some, if◌then◌else◌, ◌===◌,
  text_key,
}
use tracium.Uri.{Text, bytes}
use tracium.Extensions.{bytes_key, ExtensionPage}
use tracium.Session.{redirect_key, view_key, without}
use tracium.Shell.Workspaces.{Workspace, choose, or_empty, on_created, on_deleted}
use tracium.Shell.Routing.{view_text, NavState, at_view, is_full, state_to_path, path_to_state}
use tracium.Shell.Routing.Resolve.{resolve_path}
use tracium.Shell.Dashboard.{
  Entry, Browser, Shell, World, Config, Operation, initial_shell, store, run, set_intent,
  run_select_workspace,
}

abbrev pub own_path : Config → Shell → Text
own_path config shell = state_to_path shell.view shell.selected config.pages

abbrev pub own_entry : Config → Shell → Entry
own_entry config shell = record {
  path = own_path config shell;
  state = some (at_view shell.view shell.selected);
}

-- The browser resolves the path that it is given, and `location.pathname` is the resolved one.
abbrev pub resolved : Entry → Entry
resolved entry = record entry { path = resolve_path entry.path }

-- `history.pushState` and `history.replaceState`
abbrev pub push_state : Entry → Browser → Browser
push_state entry browser = record browser {
  behind = browser.current ∷ browser.behind;
  current = resolved entry;
  ahead = [];
}

abbrev pub replace_state : Entry → Browser → Browser
replace_state entry browser = record browser { current = resolved entry }

abbrev pub write_entry : Bool → Entry → Browser → Browser
write_entry hist_init entry browser =
    if hist_init && not (entry.path === browser.current.path)
    then push_state entry browser
    else replace_state entry browser

abbrev pub drop_redirect : Bool → Browser → Browser
drop_redirect true browser = browser
drop_redirect false browser = record browser {
  session_storage = without redirect_key browser.session_storage;
}

-- The effect that mirrors the navigation onto the history
unfoldable pub mirror : Config → World → World
mirror config world =
    if config.persist
    then record world {
      shell = record world.shell { hist_init = true };
      browser =
          drop_redirect world.shell.hist_init
            (write_entry world.shell.hist_init (own_entry config world.shell) world.browser);
    }
    else world

abbrev pub workspaces_of : Config → World → List Workspace
workspaces_of config world = if config.persist then or_empty world.cached else config.demo ∷ []

abbrev pub workspace_of : Config → World → Option Workspace
workspace_of config world = choose world.shell.selected_workspace_id (workspaces_of config world)

abbrev pub id_of : Option Workspace → Option Text
id_of none = none
id_of (some w) = some w.id

-- The effect that hands the workspace to the API client
unfoldable pub sync_client : Config → World → World
sync_client config world =
    if config.persist
    then record world { client_workspace = id_of (workspace_of config world) }
    else world

-- The operations of one handler
abbrev pub run_all : Config → World → List Operation → World
run_all config world [] = world
run_all config world (op ∷ ops) = run_all config (run config world op) ops

abbrev pub selects : List Operation → Bool
selects [] = false
selects (Operation.set_selected f ∷ ops) = true
selects (op ∷ ops) = selects ops

abbrev pub mirror_if : Bool → Config → World → World
mirror_if true config world = mirror config world
mirror_if false config world = world

-- The render behind a handler: the mirror depends on `view`, and on `selected` by reference.
unfoldable pub handle : Config → List Operation → World → World
handle config ops world =
    let after = run_all config world ops in
    let changed = selects ops || not (view_text after.shell.view === view_text world.shell.view) in
    sync_client config (mirror_if changed config after)

-- What `onPop` takes from an entry: its state, if the dashboard left one, or else its path
abbrev pub target_of : Option NavState → Text → List ExtensionPage → Option NavState
target_of none path pages = path_to_state path pages
target_of (some nav) path pages =
    if is_full (view_text nav.view) then some nav else path_to_state path pages

abbrev pub popped : Config → NavState → World → World
popped config nav world = record world {
  shell = record world.shell {
    view = nav.view;
    selected = nav.selected;
    create_ws_intent =
        if view_text nav.view === bytes "settings" then world.shell.create_ws_intent else false;
  };
  browser = store config view_key (view_text nav.view) world.browser;
}

abbrev pub show_target : Config → Option NavState → World → World
show_target config none world = world
show_target config (some nav) world = mirror config (popped config nav world)

-- `onPop`, on the entry that the browser has moved to. An embedded dashboard does not listen.
unfoldable pub on_pop : Config → World → World
on_pop config world =
    if config.persist
    then show_target config
        (target_of world.browser.current.state world.browser.current.path config.pages) world
    else world

-- Back and Forward, where there is an entry
abbrev pub go_back : Config → List Entry → World → World
go_back config [] world = world
go_back config (entry ∷ behind) world = on_pop config (record world {
  browser = record world.browser {
    behind = behind;
    current = entry;
    ahead = world.browser.current ∷ world.browser.ahead;
  };
})

abbrev pub go_forward : Config → List Entry → World → World
go_forward config [] world = world
go_forward config (entry ∷ ahead) world = on_pop config (record world {
  browser = record world.browser {
    behind = world.browser.current ∷ world.browser.behind;
    current = entry;
    ahead = ahead;
  };
})

pub record KeyPress : Type 0 where
  pub meta_key : Bool
  pub ctrl_key : Bool
  pub key : Text

abbrev pub opens_palette : Config → KeyPress → Bool
opens_palette config e = config.persist && ((e.meta_key || e.ctrl_key) && e.key === bytes "k")

-- `createWorkspace` and `deleteWorkspace`, once the server has answered
abbrev pub run_created : Config → Workspace → World → World
run_created config ws world =
    set_intent false
      (run_select_workspace config ws (record world { cached = on_created ws world.cached }))

abbrev pub run_deleted : Config → Text → World → World
run_deleted config id world =
    if config.persist then record world { cached = on_deleted id world.cached } else world

pub data Event : Type 0 where
  act : List Operation → Event
  back forward : Event
  press : KeyPress → Event
  fetched : List Workspace → Event
  created : Workspace → Event
  deleted : Text → Event

unfoldable pub step : Config → Event → World → World
step config (act ops) world = handle config ops world
step config back world = go_back config world.browser.behind world
step config forward world = go_forward config world.browser.ahead world
step config (press e) world =
    if opens_palette config e then handle config (Operation.open_cmd ∷ []) world else world
step config (fetched workspaces) world =
    sync_client config (record world { cached = some workspaces })
step config (created ws) world = sync_client config (run_created config ws world)
step config (deleted id) world = sync_client config (run_deleted config id world)

-- The first render and its effects, in a tab with some workspaces cached
unfoldable pub mount : Config → Browser → Option (List Workspace) → World
mount config browser cached = sync_client config (
    mirror config (record {
      shell = initial_shell config browser;
      browser = browser;
      cached = cached;
      client_workspace = none;
    }))

-- Where some events lead
abbrev pub steps : Config → World → List Event → World
steps config world [] = world
steps config world (e ∷ es) = steps config (step config e world) es
