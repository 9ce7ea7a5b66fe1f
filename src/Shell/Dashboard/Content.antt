-- ===== src/Shell/Dashboard/Content.antt =====
-- What dashboard/src/modules/shell/Dashboard/Dashboard.tsx renders under its top bar, as a list of the
-- elements that are there. Their own rendering is left out.
pub mod Single
use tracium.Prelude.{
  Bool, true, false, ◌&&◌, ◌||◌, not, List, [], ◌∷◌, ◌++◌, Option, none, some, if◌then◌else◌, ◌===◌,
  find,
}
use tracium.Prelude.Maps.{has}
use tracium.Uri.{Text, bytes}
use tracium.Extensions.{bytes_key, ExtensionPage}
use tracium.Shell.Workspaces.{Workspace}
use tracium.Shell.Routing.{ViewId, view_text, Selected, is_full, if_there}
use tracium.Shell.Dashboard.{World, Config}
use tracium.Shell.Dashboard.History.{workspace_of}

pub data Element : Type 0 where
  spinner load_failed create_first : Element
  extension_page : ExtensionPage → Element
  overview_demo overview_live : Element
  workflow_demo workflow_live : Text → Element
  workflows_demo workflows_live : Element
  compare_live : Text → Text → Text → Element
  no_versions trace_demo no_trace : Element
  trace_live : Text → Element
  usage_demo usage_live api_keys settings users_demo users_live user_demo : Element
  user_live : Text → Element

abbrev pub views_with_range : List Text
views_with_range =
    bytes "overview"
    ∷ bytes "workflows"
    ∷ bytes "compare"
    ∷ bytes "usage"
    ∷ bytes "users"
    ∷ bytes "user"
    ∷ []

-- `showRange`
unfoldable pub show_range : ViewId → Bool
show_range view = has (view_text view) views_with_range

abbrev pub active_page : Config → ViewId → Option ExtensionPage
active_page config view = find (λ page. page.id === view_text view) config.pages

abbrev pub is_set : Option Bool → Bool
is_set none = false
is_set (some b) = b

-- `!activePage || activePage.requiresWorkspace`
abbrev pub needs_workspace : Option ExtensionPage → Bool
needs_workspace none = true
needs_workspace (some page) = is_set page.requires_workspace

abbrev pub is_missing : Option Workspace → Bool
is_missing none = true
is_missing (some w) = false

-- The condition for the page to wait for a workspace
unfoldable pub is_blocked : Config → World → Bool
is_blocked config world =
    is_missing (workspace_of config world)
    && (not (view_text world.shell.view === bytes "settings")
        && needs_workspace (active_page config world.shell.view))

abbrev pub page_elements : Option ExtensionPage → List Element
page_elements none = []
page_elements (some page) = extension_page page ∷ []

abbrev pub or_empty_text : Option Text → Text
or_empty_text none = []
or_empty_text (some t) = t

abbrev pub core_element : Bool → Selected → ViewId → List Element
core_element embedded s ViewId.overview = (if embedded then overview_demo else overview_live) ∷ []
core_element embedded s ViewId.workflows =
    if_there s.workflow (λ w. if embedded then workflow_demo w else workflow_live w)
      (if embedded then workflows_demo else workflows_live)
    ∷ []
core_element embedded s ViewId.compare =
    if_there s.workflow
      (λ w.
        if_there s.base
          (λ b.
            if_there s.candidate (λ c. if embedded then no_versions else compare_live w b c)
              no_versions)
          no_versions)
      no_versions
    ∷ []
core_element embedded s ViewId.trace =
    (if embedded then trace_demo else if_there s.trace_id trace_live no_trace) ∷ []
core_element embedded s ViewId.usage = (if embedded then usage_demo else usage_live) ∷ []
core_element embedded s ViewId.keys = api_keys ∷ []
core_element embedded s ViewId.settings = settings ∷ []
core_element embedded s ViewId.users = (if embedded then users_demo else users_live) ∷ []
core_element embedded s ViewId.user =
    (if embedded then user_demo else user_live (or_empty_text s.user)) ∷ []
core_element embedded s (ViewId.extension id) = []

unfoldable pub elements : Config → Bool → Bool → World → List Element
elements config is_loading is_error world =
    if is_blocked config world
    then (if is_loading then spinner else if is_error then load_failed else create_first) ∷ []
    else page_elements (active_page config world.shell.view)
      ++ core_element (not config.persist) world.shell.selected world.shell.view
