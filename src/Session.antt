-- ===== src/Session.antt =====
-- The session of the dashboard: dashboard/src/App.tsx, dashboard/src/modules/auth/auth.ts and
-- dashboard/src/modules/invites/pending.ts. The invite token that `inviteTokenFromPath` reads from
-- the path of the page is an argument. A function that throws returns none.
pub mod Stored
pub mod Reload
pub mod Transitions
pub mod Renewed
mod Tests
use tracium.Prelude.{
  ◌≡◌, Bool, true, false, ◌&&◌, not, List, [], ◌∷◌, Option, none, some, String, if◌then◌else◌,
  ◌===◌, text_key, is_truthy, ◌>>=◌,
}
use tracium.Prelude.Maps.{get, set}

abbrev pub token_key : String
token_key = "tracium_token"

abbrev pub email_key : String
email_key = "tracium_email"

abbrev pub redirect_key : String
redirect_key = "tracium_redirect"

abbrev pub workspace_key : String
workspace_key = "tracium_ws"

abbrev pub view_key : String
view_key = "tracium_view"

abbrev pub invite_key : String
invite_key = "tracium_invite"

-- What the browser lets a page do with its storage: all, all but writing (no room is left), nothing
pub data Access : Type 0 where
  open_access full blocked : Access

pub record Storage : Type 0 where
  pub access : Access
  pub items : List (String × String)

-- `map.delete(k)`
unfoldable pub without {ℓ} : {V : Type ℓ} → String → List (String × V) → List (String × V)
without k [] = []
without k ((j, v) ∷ m) = if j === k then without k m else (j, v) ∷ without k m

abbrev pub when_readable {ℓ} : {A : Type ℓ} → Access → A → Option A
when_readable Access.open_access a = some a
when_readable Access.full a = some a
when_readable Access.blocked a = none

abbrev pub when_writable {ℓ} : {A : Type ℓ} → Access → A → Option A
when_writable Access.open_access a = some a
when_writable Access.full a = none
when_writable Access.blocked a = none

-- `getItem`, `setItem` and `removeItem`
unfoldable pub get_item : String → Storage → Option (Option String)
get_item k storage = when_readable storage.access (get k storage.items)

unfoldable pub set_item : String → String → Storage → Option Storage
set_item k v storage =
    when_writable storage.access (record { access = storage.access; items = set k v storage.items })

unfoldable pub remove_item : String → Storage → Option Storage
remove_item k storage =
    when_readable storage.access
      (record { access = storage.access; items = without k storage.items })

-- `storeSession`
unfoldable pub store_session : String → String → Storage → Option Storage
store_session token email local_storage = do
  stored ← set_item token_key token local_storage
  set_item email_key email stored

-- `readInitialToken`
unfoldable pub read_initial_token : Storage → Option (Option String)
read_initial_token local_storage = get_item token_key local_storage

-- What a `try` leaves: the result, or what there was before
abbrev pub or_before {ℓ} : {A : Type ℓ} → Option A → A → A
or_before none before = before
or_before (some a) before = a

abbrev pub has_token : Option String → Bool
has_token none = false
has_token (some t) = is_truthy t

-- The body of the `try` in `readPendingInvite`
abbrev pub try_pending : Option String → Storage → Option (Option String × Storage)
try_pending from_path local_storage =
    if has_token from_path
    then (do
      stored ← set_item invite_key (or_before from_path "") local_storage
      some (from_path, stored))
    else (do remembered ← get_item invite_key local_storage; some (remembered, local_storage))

unfoldable pub read_pending_invite : Option String → Storage → Option String × Storage
read_pending_invite from_path local_storage =
    or_before (try_pending from_path local_storage) (from_path, local_storage)

unfoldable pub clear_pending_invite : Storage → Storage
clear_pending_invite local_storage = or_before (remove_item invite_key local_storage) local_storage

-- The state of `App`, with the storage that it works on
pub record App : Type 0 where
  pub token : Option String
  pub invite_token : Option String
  pub local_storage : Storage
  pub session_storage : Storage

-- The first render: both initialisers run.
unfoldable pub load : Option String → Storage → Storage → Option App
unfolding read_initial_token read_pending_invite
load from_path local_storage session_storage = do
  token ← read_initial_token local_storage
  some (record {
    token = token;
    invite_token = (read_pending_invite from_path local_storage).0;
    local_storage = (read_pending_invite from_path local_storage).1;
    session_storage = session_storage;
  })

unfoldable pub leave_invite : App → App
unfolding clear_pending_invite
leave_invite app = record {
  token = app.token;
  invite_token = none;
  local_storage = clear_pending_invite app.local_storage;
  session_storage = app.session_storage;
}

abbrev pub with_local : App → Storage → App
with_local app storage = record {
  token = app.token;
  invite_token = app.invite_token;
  local_storage = storage;
  session_storage = app.session_storage;
}

abbrev pub with_token : App → Option String → Storage → App
with_token app token storage = record {
  token = token;
  invite_token = app.invite_token;
  local_storage = storage;
  session_storage = app.session_storage;
}

unfoldable pub handle_invite_accepted : String → App → Option App
unfolding leave_invite
handle_invite_accepted workspace_id app = do
  scoped ← set_item workspace_key workspace_id app.local_storage
  viewed ← set_item view_key "overview" scoped
  some (leave_invite (with_local app viewed))

unfoldable pub handle_login : String → String → App → Option App
unfolding store_session
handle_login new_token email app = do
  stored ← store_session new_token email app.local_storage
  some (with_token app (some new_token) stored)

unfoldable pub handle_logout : App → Option App
handle_logout app = do
  a ← remove_item token_key app.local_storage
  b ← remove_item email_key a
  c ← remove_item workspace_key b
  some (with_token app none c)

-- `onSessionRenewed`: a login with the stored email
unfoldable pub handle_session_renewed : String → App → Option App
unfolding handle_login
handle_session_renewed new_token app = do
  email ← get_item email_key app.local_storage
  handle_login new_token (or_before email "") app

-- What is rendered: the pages of a visitor, the invite page of a user, or the dashboard
pub data Screen : Type 0 where
  visitor_pages : (invite : Option String) → Screen
  invite_page : (invite token : String) → Screen
  dashboard : (token : String) → Screen

abbrev pub screen_of : Option String → Option String → Screen
screen_of none invite = Screen.visitor_pages invite
screen_of (some token) none =
    if is_truthy token then Screen.dashboard token else Screen.visitor_pages none
screen_of (some token) (some invite) =
    if not (is_truthy token)
    then Screen.visitor_pages (some invite)
    else if is_truthy invite
    then Screen.invite_page invite token
    else Screen.dashboard token

unfoldable pub screen : App → Screen
screen app = screen_of app.token app.invite_token

-- What a person, the pages or the server can make happen, on the screen that offers it
pub data Step : App → App → Type 0 where
  login :
      {a b : App} {i : Option String} (token email : String)
      → screen a ≡ Screen.visitor_pages i
      → handle_login token email a ≡ some b
      → Step a b
  logout : {a b : App} {t : String} → a.token ≡ some t → handle_logout a ≡ some b → Step a b
  accept :
      {a b : App} {i t : String} (workspace_id : String)
      → screen a ≡ Screen.invite_page i t
      → handle_invite_accepted workspace_id a ≡ some b
      → Step a b
  leave : {a : App} → Step a (leave_invite a)
  renew :
      {a b : App} {t : String} (token : String)
      → screen a ≡ Screen.dashboard t
      → handle_session_renewed token a ≡ some b
      → Step a b

-- The states that the page comes to after it has loaded
pub data Reachable : App → Type 0 where
  loaded :
      {a : App} (from_path : Option String) (local_storage session_storage : Storage)
      → load from_path local_storage session_storage ≡ some a
      → Reachable a
  step : {a b : App} → Reachable a → Step a b → Reachable b
