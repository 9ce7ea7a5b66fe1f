-- ===== src/Shell/Workspaces.antt =====
-- The cached list of workspaces and the choice of one: dashboard/src/modules/shell/hooks/
-- useWorkspaces.ts, and the choice in dashboard/src/modules/shell/Dashboard/Dashboard.tsx. The
-- answers of the server are arguments.
pub mod Choice
use tracium.Prelude.{
  ℕ, Bool, true, false, not, List, [], ◌∷◌, ◌++◌, Option, none, some, ◌===◌, find, select,
}
use tracium.Uri.{Text, bytes}
use tracium.Extensions.{bytes_key}

pub data Env : Type 0 where
  production development staging : Env

pub record Workspace : Type 0 where
  pub id : Text
  pub name : Text
  pub slug : Text
  pub role : Text
  pub members : ℕ
  pub env : Env

-- `data: workspaces = []`
abbrev pub or_empty : Option (List Workspace) → List Workspace
or_empty none = []
or_empty (some workspaces) = workspaces

-- `onSuccess` of the two mutations, on the cached data
unfoldable pub on_created : Workspace → Option (List Workspace) → Option (List Workspace)
on_created created cached = some (or_empty cached ++ created ∷ [])

unfoldable pub on_deleted : Text → Option (List Workspace) → Option (List Workspace)
on_deleted id cached = some (select (λ w. not (w.id === id)) (or_empty cached))

abbrev pub first : List Workspace → Option Workspace
first [] = none
first (w ∷ workspaces) = some w

abbrev pub or_first : Option Workspace → List Workspace → Option Workspace
or_first none workspaces = first workspaces
or_first (some w) workspaces = some w

abbrev pub is_id : Option Text → Workspace → Bool
is_id none w = false
is_id (some id) w = w.id === id

-- `workspaces.find((w) => w.id === selectedWorkspaceId) ?? workspaces[0] ?? null`
unfoldable pub choose : Option Text → List Workspace → Option Workspace
choose selected_id workspaces = or_first (find (is_id selected_id) workspaces) workspaces

-- `createDemoWorkspace`, with the random part of its id
unfoldable pub demo_workspace : Text → Workspace
demo_workspace random = record {
  id = bytes "demo-" ++ random;
  name = bytes "Demo";
  slug = bytes "demo";
  role = bytes "Owner";
  members = 1;
  env = Env.production;
}
