-- ===== src/ApiKeys.antt =====
-- The ingest keys of a workspace: the view state and its handlers in dashboard/src/modules/api-keys/
-- pages/ApiKeysPage.tsx, over the requests that hooks/useApiKeys.ts sends. A request is in flight
-- until it is answered, in any order; a view that is no longer there does not hear the answer.
pub mod Demo
pub mod Consistent
mod Tests
use tracium.Prelude.{
  ℕ, zero, suc, Bool, true, false, ◌&&◌, ◌||◌, not, List, [], ◌∷◌, ◌++◌, Option, none, some, String,
  if◌then◌else◌, ◌===◌, number_key, select,
}
use tracium.Prelude.InFlight.{take_out}
use tracium.Uri.{Text, bytes}
use tracium.Extensions.{bytes_key}
use tracium.Texts.{trim, trim_start, trim_end, includes, is_empty}

pub record ApiKeyRecord : Type 0 where
  pub id : Text
  pub workspace_id : Text
  pub created_by : Text
  pub name : Text
  pub prefix : Text
  pub created_at : Text
  pub last_used_at : Option Text
  pub revoked_at : Option Text

pub record CreatedApiKey : Type 0 where
  pub key : ApiKeyRecord
  pub token : Text

-- `!!k.revoked_at`
abbrev pub is_revoked : ApiKeyRecord → Bool
is_revoked k = elim k.revoked_at [ none ↦ false | some t ↦ not (is_empty t) ]

-- `visible`, given the host's `toLowerCase`
unfoldable pub visible : (Text → Text) → List ApiKeyRecord → Text → List ApiKeyRecord
visible lower keys search =
    if is_empty (trim search)
    then keys
    else select
        (λ k. includes (lower k.name) (lower search) || includes (lower k.prefix) (lower search))
        keys

abbrev pub active : List ApiKeyRecord → List ApiKeyRecord
active = select (λ k. not (is_revoked k))

abbrev pub revoked : List ApiKeyRecord → List ApiKeyRecord
revoked = select is_revoked

-- The state of `ApiKeysView`, and of the form in it
pub record View : Type 0 where
  pub workspace_id : Option Text
  pub name : Text
  pub search : Text
  pub create_error : Option String
  pub created : Option CreatedApiKey
  pub revoke_target : Option ApiKeyRecord
  pub revoke_error : Option String

pub data Call : Type 0 where
  create : Text → Call
  revoke : Text → Call

-- What is in flight: the view that sent it, its workspace and the call
pub record Request : Type 0 where
  pub sender : ℕ
  pub workspace_id : Text
  pub call : Call

-- `current` numbers the views: another workspace has another key, and so another view. The mutations
-- belong to the page, and stay.
pub record Page : Type 0 where
  pub current : ℕ
  pub view : View
  pub is_creating : Bool
  pub is_revoking : Bool
  pub in_flight : List Request

abbrev pub fresh : Option Text → View
fresh workspace_id = record {
  workspace_id = workspace_id;
  name = [];
  search = [];
  create_error = none;
  created = none;
  revoke_target = none;
  revoke_error = none;
}

unfoldable pub start : Option Text → Page
start workspace_id = record {
  current = 0;
  view = fresh workspace_id;
  is_creating = false;
  is_revoking = false;
  in_flight = [];
}

abbrev pub send : Text → Call → Page → Page
send workspace_id call page = record page {
  in_flight =
      page.in_flight
      ++ record { sender = page.current; workspace_id = workspace_id; call = call } ∷ [];
}

-- The submission of the form, and the start of `handleCreate`. The form is there in a workspace only.
abbrev pub submit_in : Option Text → Page → Page
submit_in none page = page
submit_in (some []) page = page
submit_in (some (b ∷ w)) page =
    if not (is_empty (trim page.view.name)) && not page.is_creating
    then send (b ∷ w) (create (trim page.view.name))
        (record page { view = record page.view { create_error = none }; is_creating = true })
    else page

-- The click on `Revoke key`, which is disabled while a key is being revoked
abbrev pub confirm_in : Option Text → Option ApiKeyRecord → Page → Page
confirm_in none target page = page
confirm_in (some w) none page = page
confirm_in (some w) (some k) page =
    if page.is_revoking
    then page
    else send w (revoke k.id)
        (record page { view = record page.view { revoke_error = none }; is_revoking = true })

-- What the server answers: a key for a creation, or else that it is done; none if it fails
pub data Answer : Type 0 where
  made : CreatedApiKey → Answer
  done failed : Answer

-- The rest of the handlers. The form starts anew with each created key, since its `key` changes.
abbrev pub finish_create : Answer → View → View
finish_create (made c) view = record view { created = some c; name = [] }
finish_create done view = view
finish_create failed view = record view {
  create_error = some "Could not create the key. Please try again.";
}

abbrev pub finish_revoke : Answer → View → View
finish_revoke failed view = record view {
  revoke_error = some "Could not revoke the key. Please try again.";
}
finish_revoke answer view = record view { revoke_target = none }

abbrev pub finish : Call → Answer → View → View
finish (create name) answer view = finish_create answer view
finish (revoke id) answer view = finish_revoke answer view

abbrev pub is_create : Request → Bool
is_create request = elim request.call [ create name ↦ true | revoke id ↦ false ]

-- A mutation is over with its answer, wherever the page is by then.
abbrev pub hear : Option (Request × List Request) → Answer → Page → Page
hear none answer page = page
hear (some (request, rest)) answer page = record page {
  view =
      if request.sender === page.current then finish request.call answer page.view else page.view;
  is_creating = if is_create request then false else page.is_creating;
  is_revoking = if is_create request then page.is_revoking else false;
  in_flight = rest;
}

abbrev pub same_workspace : Option Text → Option Text → Bool
same_workspace none none = true
same_workspace (some v) (some w) = v === w
same_workspace v w = false

pub data Event : Type 0 where
  type_name type_search : Text → Event
  submit close_reveal cancel_revoke confirm_revoke : Event
  ask_revoke : ApiKeyRecord → Event
  answered : ℕ → Answer → Event
  switch : Option Text → Event

unfoldable pub step : Event → Page → Page
step (type_name t) page = record page { view = record page.view { name = t } }
step (type_search t) page = record page { view = record page.view { search = t } }
step submit page = submit_in page.view.workspace_id page
step close_reveal page = record page { view = record page.view { created = none; name = [] } }
step cancel_revoke page = record page { view = record page.view { revoke_target = none } }
step confirm_revoke page = confirm_in page.view.workspace_id page.view.revoke_target page
step (ask_revoke k) page = record page {
  view = record page.view { revoke_error = none; revoke_target = some k };
}
step (answered i answer) page = hear (take_out i page.in_flight) answer page
step (switch workspace_id) page =
    if same_workspace page.view.workspace_id workspace_id
    then page
    else record page { current = suc page.current; view = fresh workspace_id }

abbrev pub steps : Page → List Event → Page
steps page [] = page
steps page (e ∷ es) = steps (step e page) es
