-- ===== src/Settings/Password.antt =====
-- The form for a new password: `ChangePasswordField` of
-- dashboard/src/modules/settings/pages/SettingsPage.tsx, on the state of `App`. The server's answer is
-- the token of the session that it renews.
pub mod Kept
pub mod Renewal
mod Tests
use tracium.Prelude.{
  Bool, true, false, ◌&&◌, ◌||◌, not, List, [], ◌∷◌, ◌++◌, Option, none, some, String,
  if◌then◌else◌, ◌===◌, text_key, is_truthy,
}
use tracium.Session.{App, handle_logout, handle_session_renewed, has_token, or_before}
use tracium.Settings.Members.{Answer, done, api_error, other_error}

pub record PasswordForm : Type 0 where
  pub editing : Bool
  pub current : String
  pub next : String
  pub confirm : String
  pub saving : Bool
  pub error : String
  pub just_changed : Bool

-- The form with the application around it, from its mounting on. It is there until the user leaves
-- the tab or logs out; `in_flight` are the current and the new password of the requests that the
-- server has not answered.
pub record Account : Type 0 where
  pub app : App
  pub form : PasswordForm
  pub is_there : Bool
  pub in_flight : List (String × String)

abbrev pub open_account : App → Account
open_account app = record {
  app = app;
  form = record {
    editing = false;
    current = "";
    next = "";
    confirm = "";
    saving = false;
    error = "";
    just_changed = false;
  };
  is_there = true;
  in_flight = [];
}

abbrev pub reset : PasswordForm → PasswordForm
reset form = record form { editing = false; current = ""; next = ""; confirm = ""; error = "" }

-- `submit`, up to its `await`
abbrev pub submit_password : Account → Account
submit_password s =
    if s.form.saving
    then s
    else if not (s.form.next === s.form.confirm)
    then record s { form = record s.form { error = "New passwords don't match." } }
    else record s {
      form = record s.form { saving = true; error = "" };
      in_flight = s.in_flight ++ (s.form.current, s.form.next) ∷ [];
    }

abbrev pub failed : String → Account → Account
failed message s = record s { form = record s.form { error = message; saving = false } }

abbrev pub could_not_change : String
could_not_change = "Could not change password. Please try again."

-- What `onSessionRenewed` does, and what follows if it does not throw
abbrev pub renewed : Option App → Account → Account
renewed none s = failed could_not_change s
renewed (some app) s = record s {
  app = app;
  form = record (reset s.form) { just_changed = true; saving = false };
}

abbrev pub hear_password : Answer String → Account → Account
hear_password (done token) s = renewed (handle_session_renewed token s.app) s
hear_password (api_error message) s = failed message s
hear_password other_error s = failed could_not_change s

-- The answer to the first request in flight
abbrev pub answer_password : Answer String → List (String × String) → Account → Account
answer_password answer [] s = s
answer_password answer (sent ∷ rest) s = hear_password answer (record s { in_flight = rest })

pub data Event : Type 0 where
  change cancel submit leave_tab log_out : Event
  type_current type_next type_confirm : String → Event
  answered : Answer String → Event

-- The inputs and the buttons of the form, which are disabled while it is saving
abbrev pub edit : (PasswordForm → PasswordForm) → Account → Account
edit f s =
    if s.is_there && s.form.editing && not s.form.saving then record s { form = f s.form } else s

abbrev pub is_filled : PasswordForm → Bool
is_filled form = is_truthy form.current && is_truthy form.next && is_truthy form.confirm

abbrev pub leave : Option App → Account → Account
leave none s = s
leave (some app) s = record s { app = app; is_there = false }

unfoldable pub step : Event → Account → Account
step change s =
    if s.is_there && not s.form.editing
    then record s { form = record s.form { just_changed = false; editing = true } }
    else s
step cancel s = edit reset s
step (type_current t) s = edit (λ form. record form { current = t }) s
step (type_next t) s = edit (λ form. record form { next = t }) s
step (type_confirm t) s = edit (λ form. record form { confirm = t }) s
step submit s = if s.is_there && s.form.editing && is_filled s.form then submit_password s else s
step leave_tab s = record s { is_there = false }
step log_out s = if has_token s.app.token then leave (handle_logout s.app) s else s
step (answered answer) s = answer_password answer s.in_flight s

abbrev pub steps : List Event → Account → Account
steps [] s = s
steps (e ∷ es) s = steps es (step e s)
