-- ===== src/Session/Stored.antt =====
-- In every state that the page comes to, what it holds is what it has stored.
use tracium.Prelude.{
  ◌≡◌, ◌≢◌, refl, sym, ◌∙◌, subst, inl, inr, List, [], ◌∷◌, Option, none, some, String, arith,
  if◌then◌else◌, ◌===◌, text_key, is_truthy, Bool-cases,
}
use tracium.Prelude.Maps.{get, set, get-set}
use tracium.Session.{
  token_key, email_key, workspace_key, view_key, invite_key, Access, Storage, without, get_item,
  set_item, remove_item, store_session, read_initial_token, or_before, has_token,
  read_pending_invite, clear_pending_invite, App, load, leave_invite, handle_invite_accepted,
  handle_login, handle_logout, handle_session_renewed, Step, Reachable,
}

pub get-without {ℓ} :
    {V : Type ℓ} (j k : String) (m : List (String × V))
    → get j (without k m) ≡ (if k === j then none else get j m)
unfolding without
get-without j k [] = ground arith
get-without j k ((i, v) ∷ m) =
    ground (
      arith,
      get-without j k m,
      text_key.same_iff i k,
      text_key.same_iff k j,
      text_key.same_iff i j,
    )

abbrev pub app_of : Option String → Option String → Access → List (String × String) → Storage → App
app_of token invite_token access items session_storage = record {
  token = token;
  invite_token = invite_token;
  local_storage = record { access = access; items = items };
  session_storage = session_storage;
}

-- The token is the stored one, and, if the storage can be written, so is the invite.
pub record IsStored (a : App) : Type 0 where
  pub readable : a.local_storage.access ≢ Access.blocked
  pub token_kept : get token_key a.local_storage.items ≡ a.token
  pub invite_kept :
      a.local_storage.access ≡ Access.open_access
      → get invite_key a.local_storage.items ≡ a.invite_token

some-inj : {a b : App} → some a ≡ some b → a ≡ b
some-inj e = ground arith

blocked_ne : (a : Access) → a ≡ Access.open_access → a ≢ Access.blocked
blocked_ne a e b = ground arith

IsStored-load :
    (from_path : Option String) (access : Access) (items : List (String × String)) (s : Storage)
    (a : App)
    → load from_path (record { access = access; items = items }) s ≡ some a
    → IsStored a
unfolding load read_initial_token read_pending_invite get_item set_item
IsStored-load none Access.open_access items s a e =
    subst IsStored (some-inj e)
      (record { readable = λ b. ground arith; token_kept = refl; invite_kept = λ _. refl })
IsStored-load (some path) Access.open_access items s a e = elim (Bool-cases (is_truthy path)) [
  | inl named ↦
      let e' : some (
            app_of (get token_key items) (some path) Access.open_access (set invite_key path items)
              s)
          ≡ some a =
        rw named at e in
      subst IsStored (some-inj e') (record {
        readable = λ b. ground arith;
        token_kept = get-set invite_key token_key path items;
        invite_kept = λ _. get-set invite_key invite_key path items;
      })
  | inr empty ↦
      let e' : some (app_of (get token_key items) (get invite_key items) Access.open_access items s)
          ≡ some a =
        rw empty at e in
      subst IsStored (some-inj e')
        (record { readable = λ b. ground arith; token_kept = refl; invite_kept = λ _. refl })
]
IsStored-load from_path Access.full items s a e = elim (Bool-cases (has_token from_path)) [
  | inl named ↦
      let e' : some (app_of (get token_key items) from_path Access.full items s) ≡ some a =
        rw named at e in
      subst IsStored (some-inj e') (IsStored-full from_path)
  | inr empty ↦
      let e' : some (app_of (get token_key items) (get invite_key items) Access.full items s)
          ≡ some a =
        rw empty at e in
      subst IsStored (some-inj e') (IsStored-full (get invite_key items))
]
  where
    IsStored-full :
        (o : Option String) → IsStored (app_of (get token_key items) o Access.full items s)
    IsStored-full o = record {
      readable = λ b. ground arith;
      token_kept = refl;
      invite_kept = λ bad. absurd (ground (arith, bad));
    }
IsStored-load from_path Access.blocked items s a e = absurd (ground arith)

IsStored-leave :
    (t i : Option String) (access : Access) (items : List (String × String)) (s : Storage)
    → IsStored (app_of t i access items s)
    → IsStored (leave_invite (app_of t i access items s))
unfolding leave_invite clear_pending_invite remove_item
IsStored-leave t i Access.open_access items s h = record {
  readable = h.readable;
  token_kept = get-without token_key invite_key items ∙ h.token_kept;
  invite_kept = λ _. get-without invite_key invite_key items;
}
IsStored-leave t i Access.full items s h = record {
  readable = h.readable;
  token_kept = get-without token_key invite_key items ∙ h.token_kept;
  invite_kept = λ _. get-without invite_key invite_key items;
}
IsStored-leave t i Access.blocked items s h = absurd (h.readable refl)

IsStored-login :
    (t i : Option String) (access : Access) (items : List (String × String)) (s : Storage)
    (token email : String) (b : App)
    → IsStored (app_of t i access items s)
    → handle_login token email (app_of t i access items s) ≡ some b
    → IsStored b
unfolding handle_login store_session set_item
IsStored-login t i Access.open_access items s token email b h e =
    subst IsStored (some-inj e) (record {
      readable = h.readable;
      token_kept =
          get-set email_key token_key email (set token_key token items)
          ∙ get-set token_key token_key token items;
      invite_kept = λ o.
          get-set email_key invite_key email (set token_key token items)
          ∙ get-set token_key invite_key token items
          ∙ h.invite_kept o;
    })
IsStored-login t i Access.full items s token email b h e = absurd (ground arith)
IsStored-login t i Access.blocked items s token email b h e = absurd (ground arith)

-- The items that a logout leaves
abbrev pub logged_out : List (String × String) → List (String × String)
logged_out items = without workspace_key (without email_key (without token_key items))

IsStored-logged_out :
    (t i : Option String) (access : Access) (items : List (String × String)) (s : Storage)
    → IsStored (app_of t i access items s)
    → IsStored (app_of none i access (logged_out items) s)
IsStored-logged_out t i access items s h = record {
  readable = h.readable;
  token_kept =
      get-without token_key workspace_key (without email_key (without token_key items))
      ∙ get-without token_key email_key (without token_key items)
      ∙ get-without token_key token_key items;
  invite_kept = λ o.
      get-without invite_key workspace_key (without email_key (without token_key items))
      ∙ get-without invite_key email_key (without token_key items)
      ∙ get-without invite_key token_key items
      ∙ h.invite_kept o;
}

pub logout_result :
    (t i : Option String) (access : Access) (items : List (String × String)) (s : Storage)
    → access ≢ Access.blocked
    → handle_logout (app_of t i access items s) ≡ some (app_of none i access (logged_out items) s)
unfolding handle_logout remove_item
logout_result t i Access.open_access items s r = refl
logout_result t i Access.full items s r = refl
logout_result t i Access.blocked items s r = absurd (r refl)

IsStored-accept :
    (t i : Option String) (access : Access) (items : List (String × String)) (s : Storage)
    (workspace_id : String) (b : App)
    → IsStored (app_of t i access items s)
    → handle_invite_accepted workspace_id (app_of t i access items s) ≡ some b
    → IsStored b
unfolding handle_invite_accepted set_item
IsStored-accept t i Access.open_access items s workspace_id b h e = subst IsStored (some-inj e) (
    IsStored-leave t i Access.open_access
      (set view_key "overview" (set workspace_key workspace_id items)) s
      (record {
        readable = h.readable;
        token_kept =
            get-set view_key token_key "overview" (set workspace_key workspace_id items)
            ∙ get-set workspace_key token_key workspace_id items
            ∙ h.token_kept;
        invite_kept = λ o.
            get-set view_key invite_key "overview" (set workspace_key workspace_id items)
            ∙ get-set workspace_key invite_key workspace_id items
            ∙ h.invite_kept o;
      }))
IsStored-accept t i Access.full items s workspace_id b h e = absurd (ground arith)
IsStored-accept t i Access.blocked items s workspace_id b h e = absurd (ground arith)

IsStored-renew :
    (t i : Option String) (access : Access) (items : List (String × String)) (s : Storage)
    (token : String) (b : App)
    → IsStored (app_of t i access items s)
    → handle_session_renewed token (app_of t i access items s) ≡ some b
    → IsStored b
unfolding handle_session_renewed get_item
IsStored-renew t i Access.open_access items s token b h e =
    IsStored-login t i Access.open_access items s token (or_before (get email_key items) "") b h e
IsStored-renew t i Access.full items s token b h e =
    IsStored-login t i Access.full items s token (or_before (get email_key items) "") b h e
IsStored-renew t i Access.blocked items s token b h e = absurd (ground arith)

IsStored-Step : (a b : App) → Step a b → IsStored a → IsStored b
IsStored-Step a b (Step.login token email _ e) h =
    IsStored-login a.token a.invite_token a.local_storage.access a.local_storage.items
      a.session_storage token email b h e
IsStored-Step a b (Step.logout _ e) h =
    let left =
      logout_result a.token a.invite_token a.local_storage.access a.local_storage.items
        a.session_storage h.readable in
    subst IsStored (some-inj (sym left ∙ e)) (
      IsStored-logged_out a.token a.invite_token a.local_storage.access a.local_storage.items
        a.session_storage h)
IsStored-Step a b (Step.accept workspace_id _ e) h =
    IsStored-accept a.token a.invite_token a.local_storage.access a.local_storage.items
      a.session_storage workspace_id b h e
IsStored-Step a b Step.leave h =
    IsStored-leave a.token a.invite_token a.local_storage.access a.local_storage.items
      a.session_storage h
IsStored-Step a b (Step.renew token _ e) h =
    IsStored-renew a.token a.invite_token a.local_storage.access a.local_storage.items
      a.session_storage token b h e

pub IsStored-Reachable : (a : App) → Reachable a → IsStored a
IsStored-Reachable a (Reachable.loaded from_path local_storage session_storage e) =
    IsStored-load from_path local_storage.access local_storage.items session_storage a e
IsStored-Reachable b (Reachable.step {a = a} r s) = IsStored-Step a b s (IsStored-Reachable a r)
