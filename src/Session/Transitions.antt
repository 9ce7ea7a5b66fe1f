-- ===== src/Session/Transitions.antt =====
-- Where a login and a logout lead.
use tracium.Prelude.{
  ◌≡◌, ◌≢◌, refl, ap, ◌∙◌, inl, inr, true, ◌||◌, List, Option, none, some, String, arith,
  if◌then◌else◌, ◌===◌, text_key, is_truthy, Bool-cases,
}
use tracium.Prelude.Maps.{get, set, get-set}
use tracium.Session.{
  token_key, email_key, workspace_key, Access, Storage, without, set_item, store_session, App,
  handle_login, handle_logout, Screen, screen, screen_of, Reachable,
}
use tracium.Session.Stored.{app_of, get-without, logged_out, logout_result, IsStored-Reachable}

-- What is stored under a key after a logout
abbrev pub kept : String → List (String × String) → Option String
kept k items =
    if (token_key === k) || ((email_key === k) || (workspace_key === k)) then none else get k items

get-logged_out :
    (k : String) (items : List (String × String)) → get k (logged_out items) ≡ kept k items
get-logged_out k items = ground (
  arith,
  get-without k workspace_key (without email_key (without token_key items)),
  get-without k email_key (without token_key items),
  get-without k token_key items,
)

-- A logout succeeds in every state that the page comes to. It leads to the pages of a visitor, with
-- the invite that was pending. Token, email and workspace are stored no more; the rest is kept.
pub handle_logout-clears :
    (a : App)
    → Reachable a
    → (b : App) × (handle_logout a ≡ some b)
      × (screen b ≡ Screen.visitor_pages a.invite_token)
      × ((k : String) → get k b.local_storage.items ≡ kept k a.local_storage.items)
unfolding screen
handle_logout-clears a r =
    let h = IsStored-Reachable a r in
    (
      app_of none a.invite_token a.local_storage.access (logged_out a.local_storage.items)
          a.session_storage,
      logout_result a.token a.invite_token a.local_storage.access a.local_storage.items
          a.session_storage h.readable,
      refl,
      λ k. get-logged_out k a.local_storage.items,
    )

-- The page of a user: an invite that is pending comes before the dashboard.
abbrev pub entered : Option String → String → Screen
entered invite token = screen_of (some token) invite

login_result :
    (t i : Option String) (access : Access) (items : List (String × String)) (s : Storage)
    (token email : String)
    → access ≡ Access.open_access
    → handle_login token email (app_of t i access items s)
      ≡ some (app_of (some token) i access (set email_key email (set token_key token items)) s)
unfolding handle_login store_session set_item
login_result t i Access.open_access items s token email e = refl
login_result t i Access.full items s token email e = absurd (ground arith)
login_result t i Access.blocked items s token email e = absurd (ground arith)

-- If the storage can be written and the token is not empty, a login succeeds, leads past the pages of
-- a visitor, stores the token and its email together, and changes nothing else that is stored.
pub handle_login-stores :
    (a : App) (token email : String)
    → a.local_storage.access ≡ Access.open_access
    → is_truthy token ≡ true
    → (b : App) × (handle_login token email a ≡ some b)
      × ((t : String) × (b.token ≡ some t)
          × ((i : Option String) → screen b ≢ Screen.visitor_pages i))
      × ((k : String)
          → get k b.local_storage.items ≡ (
              if email_key === k
              then some email
              else if token_key === k
              then some token
              else get k a.local_storage.items))
unfolding screen
handle_login-stores a token email o named = (
  app_of (some token) a.invite_token a.local_storage.access
      (set email_key email (set token_key token a.local_storage.items)) a.session_storage,
  login_result a.token a.invite_token a.local_storage.access a.local_storage.items a.session_storage
      token email o,
  (token, refl, past a.invite_token),
  λ k.
      get-set email_key k email (set token_key token a.local_storage.items)
      ∙ ap (λ rest. if email_key === k then some email else rest)
          (get-set token_key k token a.local_storage.items),
)
  where
    past :
        (o : Option String) (i : Option String) → screen_of (some token) o ≢ Screen.visitor_pages i
    past none i = rw named (λ e. ground (arith, e))
    past (some invite) i = elim (Bool-cases (is_truthy invite)) [
      | inl pending ↦ rw named (rw pending (λ e. ground (arith, e)))
      | inr dismissed ↦ rw named (rw dismissed (λ e. ground (arith, e)))
    ]
