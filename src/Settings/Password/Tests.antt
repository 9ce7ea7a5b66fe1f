-- ===== src/Settings/Password/Tests.antt =====
-- A change of the password, and a logout before its answer.
use tracium.Prelude.{◌≡◌, refl, List, [], ◌∷◌, none, some}
use tracium.Session.{
  App, Access, Storage, token_key, email_key, load, read_initial_token, read_pending_invite,
  get_item, set_item, remove_item, without, store_session, handle_login, handle_logout,
  handle_session_renewed, Reachable,
}
use tracium.Session.Stored.{app_of}
use tracium.Settings.Members.{done}
use tracium.Settings.Password.{
  open_account, Event, change, submit, log_out, type_current, type_next, type_confirm, answered,
  step, steps,
}
use tracium.Settings.Password.Kept.{IsKept}
use tracium.Settings.Password.Renewal.{StaysIn, steps-open_account}

abbrev empty : Storage
empty = record { access = Access.open_access; items = [] }

abbrev user : App
user =
    app_of (some "tok") none Access.open_access ((token_key, "tok") ∷ (email_key, "ada@x.io") ∷ [])
      empty

loaded : load none user.local_storage empty ≡ some user
unfolding load read_initial_token read_pending_invite get_item
loaded = refl

user-Reachable : Reachable user
user-Reachable = Reachable.loaded none user.local_storage empty loaded

abbrev session : List Event
session =
    change
    ∷ type_current "old"
    ∷ type_next "new-word"
    ∷ type_confirm "new-word"
    ∷ submit
    ∷ submit
    ∷ answered (done "tok2")
    ∷ []

renewed_token : (steps session (open_account user)).app.token ≡ some "tok2"
unfolding step handle_session_renewed handle_login store_session get_item set_item
renewed_token = refl

-- The answer that comes after a logout signs in again.
abbrev left_early : List Event
left_early =
    change
    ∷ type_current "old"
    ∷ type_next "new-word"
    ∷ type_confirm "new-word"
    ∷ submit
    ∷ log_out
    ∷ answered (done "tok2")
    ∷ []

back_in : (steps left_early (open_account user)).app.token ≡ some "tok2"
unfolding step handle_logout handle_session_renewed handle_login store_session get_item set_item
    remove_item without
back_in = refl

steps-open_account_example :
    let s = steps session (open_account user) in IsKept s × StaysIn session s.app
steps-open_account_example = steps-open_account user "tok" session user-Reachable refl refl refl
