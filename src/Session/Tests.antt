-- ===== src/Session/Tests.antt =====
-- Runs of the session, and each property at a concrete input.
use tracium.Prelude.{◌≡◌, refl, [], ◌∷◌, none, some, String, text_key}
use tracium.Prelude.Maps.{get}
use tracium.Session.{
  token_key, email_key, workspace_key, invite_key, Access, Storage, App, load, read_initial_token,
  read_pending_invite, get_item, set_item, remove_item, without, store_session, handle_login,
  handle_logout, handle_invite_accepted, leave_invite, clear_pending_invite, Screen, screen, Step,
  Reachable,
}
use tracium.Session.Stored.{app_of}
use tracium.Session.Reload.{reload-same}
use tracium.Session.Transitions.{kept, handle_logout-clears}

abbrev empty : Storage
empty = record { access = Access.open_access; items = [] }

-- A visitor opens an invite link, logs in, and accepts.
abbrev visitor : App
visitor = app_of none (some "inv") Access.open_access ((invite_key, "inv") ∷ []) empty

abbrev invited : App
invited =
    app_of (some "tok") (some "inv") Access.open_access
      ((invite_key, "inv") ∷ (token_key, "tok") ∷ (email_key, "ada@x.io") ∷ []) empty

abbrev member : App
member =
    app_of (some "tok") none Access.open_access
      ((token_key, "tok")
        ∷ (email_key, "ada@x.io")
        ∷ (workspace_key, "w1")
        ∷ ("tracium_view", "overview")
        ∷ [])
      empty

opened : load (some "inv") empty empty ≡ some visitor
unfolding load read_initial_token read_pending_invite get_item set_item
opened = refl

logged_in : handle_login "tok" "ada@x.io" visitor ≡ some invited
unfolding handle_login store_session set_item
logged_in = refl

accepted : handle_invite_accepted "w1" invited ≡ some member
unfolding handle_invite_accepted set_item leave_invite clear_pending_invite remove_item without
accepted = refl

no_room : handle_login "tok" "ada@x.io" (app_of none none Access.full [] empty) ≡ none
unfolding handle_login store_session set_item
no_room = refl

at_pages : screen visitor ≡ Screen.visitor_pages (some "inv")
unfolding screen
at_pages = refl

at_invite : screen invited ≡ Screen.invite_page "inv" "tok"
unfolding screen
at_invite = refl

invited-Reachable : Reachable invited
invited-Reachable =
    Reachable.step (Reachable.loaded (some "inv") empty empty opened)
      (Step.login "tok" "ada@x.io" at_pages logged_in)

member-Reachable : Reachable member
member-Reachable = Reachable.step invited-Reachable (Step.accept "w1" at_invite accepted)

reload-same_example : load none member.local_storage member.session_storage ≡ some member
reload-same_example = reload-same member member-Reachable refl

handle_logout-clears_example :
    (b : App) × (handle_logout invited ≡ some b)
    × (screen b ≡ Screen.visitor_pages (some "inv"))
    × ((k : String) → get k b.local_storage.items ≡ kept k invited.local_storage.items)
handle_logout-clears_example = handle_logout-clears invited invited-Reachable
