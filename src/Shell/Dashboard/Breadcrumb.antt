-- ===== src/Shell/Dashboard/Breadcrumb.antt =====
-- The breadcrumb of dashboard/src/modules/shell/Dashboard/Dashboard.tsx, and the command palette's
-- choice of a view.
pub mod Trail
use tracium.Prelude.{
  Bool, true, false, List, [], ◌∷◌, ◌++◌, Option, none, some, if◌then◌else◌, ◌===◌, ◌>>=◌, ℕ, find,
  get_elem?,
}
use tracium.Uri.{Text, bytes}
use tracium.Extensions.{bytes_key, ExtensionPage}
use tracium.Shell.Routing.{ViewId, view_text, Selected, is_full}
use tracium.Shell.Dashboard.{Operation}

-- `onClick` is the operations of the handler.
pub record BreadcrumbItem : Type 0 where
  pub label : Text
  pub on_click : Option (List Operation)

abbrev pub plain : Text → BreadcrumbItem
plain label = record { label = label; on_click = none }

abbrev pub link : Text → List Operation → BreadcrumbItem
link label ops = record { label = label; on_click = some ops }

abbrev pub without_workflow : Selected → Selected
without_workflow s = record s { workflow = none }

abbrev pub without_pair : Selected → Selected
without_pair s = record s { base = none; candidate = none }

abbrev pub or_label : Option Text → Text → Text
or_label none label = label
or_label (some t) label = t

-- `t || label`
abbrev pub or_filled : Option Text → Text → Text
or_filled none label = label
or_filled (some []) label = label
or_filled (some (b ∷ t)) label = b ∷ t

abbrev pub workflow_crumbs : Option Text → List BreadcrumbItem
workflow_crumbs none = plain (bytes "Workflows") ∷ []
workflow_crumbs (some []) = plain (bytes "Workflows") ∷ []
workflow_crumbs (some (b ∷ t)) =
    link (bytes "Workflows")
      (Operation.set_selected without_workflow ∷ Operation.set_view (bytes "workflows") ∷ [])
    ∷ plain (b ∷ t)
    ∷ []

abbrev pub compared_crumb : Option Text → List BreadcrumbItem
compared_crumb none = []
compared_crumb (some []) = []
compared_crumb (some (b ∷ t)) =
    link (b ∷ t) (Operation.set_selected without_pair ∷ Operation.set_view (bytes "workflows") ∷ [])
    ∷ []

abbrev pub core_crumbs : ViewId → Selected → List BreadcrumbItem
core_crumbs ViewId.overview s = plain (bytes "Overview") ∷ []
core_crumbs ViewId.trace s =
    link (bytes "Overview") (Operation.set_view (bytes "overview") ∷ [])
    ∷ plain (or_label s.trace_id (bytes "Trace"))
    ∷ []
core_crumbs ViewId.workflows s = workflow_crumbs s.workflow
core_crumbs ViewId.compare s =
    link (bytes "Workflows") (
      Operation.set_selected (λ n. without_pair (without_workflow n))
      ∷ Operation.set_view (bytes "workflows")
      ∷ [])
    ∷ (compared_crumb s.workflow ++ plain (bytes "Compare") ∷ [])
core_crumbs ViewId.usage s = plain (bytes "Usage") ∷ []
core_crumbs ViewId.users s = plain (bytes "Clients") ∷ []
core_crumbs ViewId.user s =
    link (bytes "Clients") (Operation.set_view (bytes "users") ∷ [])
    ∷ plain (or_filled s.user (bytes "Client detail"))
    ∷ []
core_crumbs ViewId.keys s =
    link (bytes "Settings") (Operation.set_view (bytes "settings") ∷ [])
    ∷ plain (bytes "API Keys")
    ∷ []
core_crumbs ViewId.settings s = plain (bytes "Settings") ∷ []
core_crumbs (ViewId.extension id) s = plain (bytes "Overview") ∷ []

abbrev pub page_or_core : Option ExtensionPage → List BreadcrumbItem → List BreadcrumbItem
page_or_core none crumbs = crumbs
page_or_core (some page) crumbs = plain (bytes page.label) ∷ []

-- `breadcrumb`
unfoldable pub breadcrumb : List ExtensionPage → ViewId → Selected → List BreadcrumbItem
breadcrumb pages view selected =
    page_or_core (find (λ page. page.id === view_text view) pages) (core_crumbs view selected)

abbrev pub click_of : Option BreadcrumbItem → Option (List Operation)
click_of none = none
click_of (some crumb) = crumb.on_click

-- What a click on the item at an index does
abbrev pub click : List BreadcrumbItem → ℕ → Option (List Operation)
click crumbs i = click_of (get_elem? crumbs i)

pub record CommandAction : Type 0 where
  pub view : Option Text
  pub trace : Option Text
  pub workflow : Option Text

abbrev pub select_if : Option Text → (Text → Selected → Selected) → List Operation
select_if none f = []
select_if (some []) f = []
select_if (some (b ∷ t)) f = Operation.set_selected (f (b ∷ t)) ∷ []

abbrev pub go_if : Option Text → List Operation
go_if none = []
go_if (some []) = []
go_if (some (b ∷ t)) = Operation.set_view (b ∷ t) ∷ []

abbrev pub is_view : Option Text → Text → Bool
is_view none v = false
is_view (some t) v = t === v

-- `handleCommandSelect`
unfoldable pub handle_command_select : Option CommandAction → List Operation
handle_command_select none = []
handle_command_select (some action) =
    if is_view action.view (bytes "trace")
    then select_if action.trace (λ t s. record s { trace_id = some t })
      ++ Operation.set_view (bytes "trace") ∷ []
    else if is_view action.view (bytes "workflow-detail")
    then select_if action.workflow (λ w s. record s { workflow = some w })
      ++ Operation.set_view (bytes "workflows") ∷ []
    else go_if action.view
