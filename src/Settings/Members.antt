-- ===== src/Settings/Members.antt =====
-- The members of a workspace and their invites: `MembersView` of
-- dashboard/src/modules/settings/pages/SettingsPage.tsx. A request is in flight until the server
-- answers it. What the queries list, and that they are read again, is left out.
pub mod Busy
use tracium.Prelude.{
  ℕ, Bool, true, false, ◌&&◌, ◌||◌, not, List, [], ◌∷◌, ◌++◌, Option, none, some, String,
  if◌then◌else◌, Key, ◌===◌,
}
use tracium.Prelude.InFlight.{take_out}
use tracium.Uri.{Text}
use tracium.Extensions.{bytes_key}
use tracium.Texts.{trim, is_empty}

pub record CreatedInvite : Type 0 where
  pub token : Text
  pub email : Text
  pub email_sent : Bool

-- `invitations` are the addresses of the invites that the server has not made yet, `actions` the ids
-- of what is being removed or revoked.
pub record Members : Type 0 where
  pub email : Text
  pub inviting : Bool
  pub invite_error : String
  pub created : Option CreatedInvite
  pub busy_id : Option Text
  pub action_error : String
  pub invitations : List Text
  pub actions : List Text

abbrev pub open_members : Members
open_members = record {
  email = [];
  inviting = false;
  invite_error = "";
  created = none;
  busy_id = none;
  action_error = "";
  invitations = [];
  actions = [];
}

-- What comes of a request: the message of the failure, if it is not one of the server's, is the
-- fallback.
pub data Answer (A : Type 0) : Type 0 where
  done : A → Answer A
  api_error : String → Answer A
  other_error : Answer A

abbrev pub send_invite : Text → Members → Members
send_invite address s = record s {
  inviting = true;
  invite_error = "";
  action_error = "";
  invitations = s.invitations ++ trim address ∷ [];
}

abbrev pub hear_invite : Answer CreatedInvite → Members → Members
hear_invite (done invite) s = record s { created = some invite; email = []; inviting = false }
hear_invite (api_error message) s = record s { invite_error = message; inviting = false }
hear_invite other_error s = record s {
  invite_error = "Could not create the invite. Please try again.";
  inviting = false;
}

abbrev pub run_action : Text → Members → Members
run_action id s = record s { busy_id = some id; action_error = ""; actions = s.actions ++ id ∷ [] }

abbrev pub hear_action : String → Answer Unit → Members → Members
hear_action fallback (done _) s = record s { busy_id = none }
hear_action fallback (api_error message) s = record s { action_error = message; busy_id = none }
hear_action fallback other_error s = record s { action_error = fallback; busy_id = none }

-- The answer to one of the requests in flight
abbrev pub answer_invite : Option (Text × List Text) → Answer CreatedInvite → Members → Members
answer_invite none answer s = s
answer_invite (some (address, rest)) answer s = hear_invite answer (record s { invitations = rest })

abbrev pub answer_action : Option (Text × List Text) → String → Answer Unit → Members → Members
answer_action none fallback answer s = s
answer_action (some (id, rest)) fallback answer s =
    hear_action fallback answer (record s { actions = rest })

-- `busyId === id`
abbrev pub is_busy : Option Text → Text → Bool
is_busy none id = false
is_busy (some busy) id = busy === id

-- `remove` is a click that the dialog of `window.confirm` affirms; it and `revoke` carry the id of the
-- row, `new_link` its id and address.
pub data Event : Type 0 where
  type_email : Text → Event
  submit dismiss : Event
  new_link : (id address : Text) → Event
  remove revoke : (id : Text) → Event
  invite_answered : ℕ → Answer CreatedInvite → Event
  action_answered : ℕ → String → Answer Unit → Event

-- Only an owner has the form and the buttons.
unfoldable pub step : Event → Members → Members
step (type_email t) s = if s.inviting then s else record s { email = t }
step submit s = if s.inviting || is_empty (trim s.email) then s else send_invite s.email s
step dismiss s = record s { created = none }
step (new_link id address) s =
    if s.inviting || is_busy s.busy_id id then s else send_invite address s
step (remove id) s = if is_busy s.busy_id id then s else run_action id s
step (revoke id) s = if is_busy s.busy_id id then s else run_action id s
step (invite_answered i answer) s = answer_invite (take_out i s.invitations) answer s
step (action_answered i fallback answer) s = answer_action (take_out i s.actions) fallback answer s

abbrev pub steps : List Event → Members → Members
steps [] s = s
steps (e ∷ es) s = steps es (step e s)
