-- ===== src/Settings/Create.antt =====
-- The tabs of the settings and the form for a workspace: `SettingsPage` and `CreateWorkspaceView` of
-- dashboard/src/modules/settings/pages/SettingsPage.tsx. A creation is in flight until the server
-- answers it, whether its form is still there or not.
pub mod Sent
use tracium.Prelude.{
  ℕ, zero, suc, Bool, true, false, ◌&&◌, ◌||◌, not, List, [], ◌∷◌, ◌++◌, Option, none, some, String,
  if◌then◌else◌, ◌===◌, number_key,
}
use tracium.Prelude.InFlight.{take_out}
use tracium.Uri.{Text, bytes}
use tracium.Texts.{trim, trim_start, trim_end, is_empty}
use tracium.Shell.Workspaces.{Env}
use tracium.Settings.Slug.{slugify}

pub data TabId : Type 0 where
  account workspace members danger : TabId
  extension : Text → TabId

abbrev pub is_workspace : TabId → Bool
is_workspace workspace = true
is_workspace _ = false

pub record WorkspaceDraft : Type 0 where
  pub name : Text
  pub slug : Text
  pub env : Env

-- The form; `submitting` is the ref.
pub record CreateForm : Type 0 where
  pub name : Text
  pub slug : Text
  pub slug_edited : Bool
  pub env : Env
  pub pending : Bool
  pub error : String
  pub submitting : Bool

abbrev pub fresh_form : CreateForm
fresh_form = record {
  name = [];
  slug = [];
  slug_edited = false;
  env = Env.production;
  pending = false;
  error = "";
  submitting = false;
}

-- The page, with its form; `form_number` tells the forms apart that were opened one after another.
pub record Settings : Type 0 where
  pub tab : TabId
  pub creating : Bool
  pub created_id : Option Text
  pub prev_create_mode : Bool
  pub form_number : ℕ
  pub form : CreateForm
  pub in_flight : List (ℕ × WorkspaceDraft)

abbrev pub first_tab : Bool → Bool → TabId
first_tab create_mode demo = if create_mode || not demo then workspace else account

unfoldable pub open_settings : Bool → Bool → Settings
open_settings create_mode demo = record {
  tab = first_tab create_mode demo;
  creating = create_mode;
  created_id = none;
  prev_create_mode = create_mode;
  form_number = 0;
  form = fresh_form;
  in_flight = [];
}

-- `setCreating`: a form that was not there is a new one.
abbrev pub set_creating : Bool → Settings → Settings
set_creating true s =
    if s.creating
    then s
    else record s { creating = true; form_number = suc s.form_number; form = fresh_form }
set_creating false s = record s { creating = false }

-- What the render does when `createMode` has changed
unfoldable pub sync_create_mode : Bool → Settings → Settings
sync_create_mode true s =
    if s.prev_create_mode
    then s
    else set_creating true
        (record s { prev_create_mode = true; tab = workspace; created_id = none })
sync_create_mode false s = record s { prev_create_mode = false }

-- The rendered slug, and whether the form can be sent
abbrev pub effective_slug : (Text → Text) → CreateForm → Text
effective_slug lower form = if form.slug_edited then form.slug else slugify lower form.name

abbrev pub can_create : (Text → Text) → CreateForm → Bool
can_create lower form =
    not (is_empty (trim form.name)) && not (is_empty (effective_slug lower form))

abbrev pub draft_of : (Text → Text) → CreateForm → WorkspaceDraft
draft_of lower form = record {
  name = trim form.name;
  slug = effective_slug lower form;
  env = form.env;
}

-- `submit`, up to its `await`
abbrev pub submit_form : (Text → Text) → Settings → Settings
submit_form lower s = if not (can_create lower s.form) || s.form.submitting then s else record s {
  form = record s.form { submitting = true; pending = true; error = "" };
  in_flight = s.in_flight ++ (s.form_number, draft_of lower s.form) ∷ [];
}

-- What the server answers, once `createWorkspace` has done its part: an id, or the message of an error
pub data Created : Type 0 where
  made : Text → Created
  refused : String → Created

abbrev pub close_created : Text → Settings → Settings
close_created id s = record s { created_id = some id; creating = false; tab = workspace }

abbrev pub settled : String → CreateForm → CreateForm
settled error form = record form { error = error; submitting = false; pending = false }

abbrev pub hear_created : Bool → Created → Settings → Settings
hear_created here (made id) s =
    close_created id (if here then record s { form = settled s.form.error s.form } else s)
hear_created here (refused message) s =
    if here then record s { form = settled message s.form } else s

abbrev pub answer_created :
    Option ((ℕ × WorkspaceDraft) × List (ℕ × WorkspaceDraft)) → Created → Settings → Settings
answer_created none answer s = s
answer_created (some ((sender, draft), rest)) answer s =
    hear_created (sender === s.form_number) answer (record s { in_flight = rest })

pub data Event : Type 0 where
  type_name type_slug : Text → Event
  choose_env : Env → Event
  submit cancel create_another : Event
  select_tab : TabId → Event
  create_mode : Bool → Event
  answered : ℕ → Created → Event

-- The inputs and the buttons of the form do nothing while it is pending; it is there only while
-- `creating`, on the tab of the workspace, and the button for another workspace only while it is not.
abbrev pub edit : (CreateForm → CreateForm) → Settings → Settings
edit f s = if s.creating && not s.form.pending then record s { form = f s.form } else s

unfoldable pub step : (Text → Text) → Event → Settings → Settings
step lower (type_name t) s = edit (λ form. record form { name = t }) s
step lower (type_slug t) s =
    edit (λ form. record form { slug_edited = true; slug = slugify lower t }) s
step lower (choose_env e) s = edit (λ form. record form { env = e }) s
step lower submit s = if s.creating then submit_form lower s else s
step lower cancel s = if s.creating && not s.form.pending then set_creating false s else s
step lower create_another s =
    if s.creating || not (is_workspace s.tab)
    then s
    else set_creating true (record s { created_id = none })
step lower (select_tab t) s = record (set_creating false s) { tab = t }
step lower (create_mode b) s = sync_create_mode b s
step lower (answered i answer) s = answer_created (take_out i s.in_flight) answer s

abbrev pub steps : (Text → Text) → Settings → List Event → Settings
steps lower s [] = s
steps lower s (e ∷ es) = steps lower (step lower e s) es
