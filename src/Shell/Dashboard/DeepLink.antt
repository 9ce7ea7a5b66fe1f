-- ===== src/Shell/Dashboard/DeepLink.antt =====
-- A deep link that a visitor opens: `RequireAuthRedirect` of dashboard/src/App.tsx, up to the first
-- render of the dashboard behind the login.
use tracium.Prelude.{
  ◌≡◌, refl, sym, ap, ◌∙◌, subst, inl, inr, Bool, true, false, ◌||◌, not, List, [], ◌∷◌, Option,
  none, some, find, if◌then◌else◌, ◌===◌, Bool-cases, if_true, if_false, any, text_key,
}
use tracium.Prelude.Maps.{get, set, get-set}
use tracium.Uri.{Text, bytes, decode, unescape, hex_value, is_plain, is_utf8_from, behind_first}
use tracium.Extensions.{
  bytes_key, DashboardExtensions, ExtensionPage, validate_extensions, or_none, starts_with,
}
use tracium.Session.{redirect_key, view_key}
use tracium.Session.Stored.{get-without}
use tracium.Shell.Workspaces.{Workspace}
use tracium.Shell.Routing.{
  ViewId, NavState, at_view, nothing, view_text, Selected, if_there, workflow_path, core_path,
  page_path, state_to_path, path_to_state, is_full, segments, split, decode_each, route, state_of,
}
use tracium.Shell.Routing.Core.{IsSelection, shown}
use tracium.Shell.Routing.RoundTrip.{path_to_state-state_to_path}
use tracium.Shell.Dashboard.{
  Browser, Config, initial_shell, compute_initial_nav, redirect_nav, stored_nav, or_nav,
}
use tracium.Shell.Dashboard.History.{mirror, sync_client, mount}

abbrev pub login_path : Text
login_path = bytes "/login"

abbrev pub signup_path : Text
signup_path = bytes "/signup"

-- The paths that are not worth remembering
abbrev pub is_auth_path : Text → Bool
is_auth_path pathname =
    pathname === login_path || pathname === signup_path || starts_with (bytes "/invite/") pathname

-- `RequireAuthRedirect` at the path of the page
unfoldable pub require_auth_redirect : Browser → Browser
require_auth_redirect browser =
    let pathname = browser.current.path in
    record browser {
      current = record { path = login_path; state = none };
      session_storage =
          if is_auth_path pathname
          then browser.session_storage
          else set redirect_key pathname browser.session_storage;
    }

-- A path that is remembered
abbrev IsKept : Text → Type 0
IsKept path = (is_auth_path path ≡ false) × (is_full path ≡ true)

if_there-IsKept :
    (o : Option Text) (f : Text → Text) (d : Text)
    → ((t : Text) → IsKept (f t))
    → IsKept d
    → IsKept (if_there o f d)
if_there-IsKept none f d kept kept_else = kept_else
if_there-IsKept (some []) f d kept kept_else = kept_else
if_there-IsKept (some (c ∷ t)) f d kept kept_else = kept (c ∷ t)

workflow_path-IsKept : (o : Option Text) → IsKept (workflow_path o)
workflow_path-IsKept o = if_there-IsKept o _ _ (λ t. (refl, refl)) (refl, refl)

core_path-IsKept : (view : ViewId) (s : Selected) → IsKept (core_path view s)
unfolding core_path
core_path-IsKept ViewId.overview s = (refl, refl)
core_path-IsKept ViewId.workflows s = workflow_path-IsKept s.workflow
core_path-IsKept ViewId.compare s =
    if_there-IsKept s.workflow _ _
      (λ w.
        if_there-IsKept s.base _ _
          (λ b.
            if_there-IsKept s.candidate _ _ (λ c. (refl, refl)) (workflow_path-IsKept s.workflow))
          (workflow_path-IsKept s.workflow))
      (workflow_path-IsKept s.workflow)
core_path-IsKept ViewId.trace s = if_there-IsKept s.trace_id _ _ (λ t. (refl, refl)) (refl, refl)
core_path-IsKept ViewId.usage s = (refl, refl)
core_path-IsKept ViewId.users s = (refl, refl)
core_path-IsKept ViewId.user s = if_there-IsKept s.user _ _ (λ t. (refl, refl)) (refl, refl)
core_path-IsKept ViewId.keys s = (refl, refl)
core_path-IsKept ViewId.settings s = (refl, refl)
core_path-IsKept (ViewId.extension id) s = (refl, refl)

state_to_path-IsKept :
    (view : ViewId) (s : Selected) (pages : List ExtensionPage)
    → IsKept (state_to_path view s pages)
unfolding state_to_path
state_to_path-IsKept view s pages =
    elim (Bool-cases (any (λ page. page.id === view_text view) pages)) [
      | inl e ↦ subst IsKept (sym (if_true _ e)) (refl, refl)
      | inr e ↦ subst IsKept (sym (if_false _ e)) (core_path-IsKept view s)
    ]

-- The page of the login, or the one of the sign-up that it links to
abbrev pub auth_path : Bool → Text
auth_path sign_up = if sign_up then signup_path else login_path

abbrev pub at_auth : Bool → Browser → Browser
at_auth sign_up browser = record browser {
  current = record { path = auth_path sign_up; state = none };
}

-- Neither is one of the dashboard's.
no_page :
    (sign_up : Bool) (pages : List ExtensionPage)
    → find (λ page. auth_path sign_up === page_path page.id) pages ≡ none
no_page sign_up [] = refl
no_page true (page ∷ pages) = no_page true pages
no_page false (page ∷ pages) = no_page false pages

path_to_state-auth_path :
    (sign_up : Bool) (pages : List ExtensionPage) → path_to_state (auth_path sign_up) pages ≡ none
unfolding path_to_state segments split decode_each decode unescape hex_value is_plain is_utf8_from
    behind_first route
path_to_state-auth_path true pages = ap (λ o. state_of o signup_path) (no_page true pages)
path_to_state-auth_path false pages = ap (λ o. state_of o login_path) (no_page false pages)

-- At such a page a path that is remembered decides.
compute_initial_nav-redirect :
    (config : Config) (sign_up : Bool) (browser : Browser) (path : Text) (nav : NavState)
    → config.persist ≡ true
    → get redirect_key browser.session_storage ≡ some path
    → is_full path ≡ true
    → path_to_state path config.pages ≡ some nav
    → compute_initial_nav config (at_auth sign_up browser) ≡ nav
unfolding compute_initial_nav
compute_initial_nav-redirect config sign_up browser path nav persists e full goes =
    let stored = stored_nav (get view_key browser.local_storage) config.pages in
    ap
      (λ b.
        if not b
        then at_view ViewId.overview nothing
        else or_nav (path_to_state (auth_path sign_up) config.pages)
            (or_nav (redirect_nav (get redirect_key browser.session_storage) config.pages) stored))
      persists
    ∙ ap
        (λ o.
          or_nav o
            (or_nav (redirect_nav (get redirect_key browser.session_storage) config.pages) stored))
        (path_to_state-auth_path sign_up config.pages)
    ∙ ap (λ o. or_nav (redirect_nav o config.pages) stored) e
    ∙ ap (λ o. or_nav o stored) (if_true _ full ∙ goes)

mount_forgets :
    (config : Config) (browser : Browser) (cached : Option (List Workspace))
    → config.persist ≡ true
    → get redirect_key (mount config browser cached).browser.session_storage ≡ none
unfolding mount mirror sync_client initial_shell
mount_forgets config browser cached persists =
    rw persists (get-without redirect_key redirect_key browser.session_storage)

-- A visitor who opens the path of a view is sent to the login. The dashboard that is mounted behind
-- the login, or behind the sign-up, shows that view, with no more than the path tells, and forgets the
-- path, so that it cannot override a later visit. The extensions are those that `validateExtensions`
-- accepts, and the selected texts are well formed.
pub require_auth_redirect-mount :
    (extensions : DashboardExtensions) (config : Config) (browser : Browser)
    (cached : Option (List Workspace)) (view : ViewId) (s : Selected) (sign_up : Bool)
    → config.persist ≡ true
    → config.pages ≡ or_none extensions.pages
    → validate_extensions extensions ≡ none
    → IsSelection s
    → let opened = record browser {
      current = record { path = state_to_path view s config.pages; state = none };
    } in
      let behind_login = at_auth sign_up (require_auth_redirect opened) in
      (compute_initial_nav config behind_login ≡ shown view s config.pages)
      × (get redirect_key (mount config behind_login cached).browser.session_storage ≡ none)
unfolding require_auth_redirect
require_auth_redirect-mount extensions config browser cached view s sign_up persists e accepted h =
    let path = state_to_path view s config.pages in
    let opened = record browser { current = record { path = path; state = none } } in
    let (apart, full) = state_to_path-IsKept view s config.pages in
    let kept : get redirect_key (
          if is_auth_path path
          then browser.session_storage
          else set redirect_key path browser.session_storage)
        ≡ some path =
      ap (get redirect_key) (if_false _ apart)
      ∙ get-set redirect_key redirect_key path browser.session_storage in
    let goes : path_to_state path config.pages ≡ some (shown view s config.pages) =
      rw e (path_to_state-state_to_path extensions view s accepted h) in
    (
      compute_initial_nav-redirect config sign_up (require_auth_redirect opened) path
          (shown view s config.pages) persists kept full goes,
      mount_forgets config (at_auth sign_up (require_auth_redirect opened)) cached persists,
    )
