-- ===== src/Session/Renewed.antt =====
-- What a renewed session leads to.
use tracium.Prelude.{
  ◌≡◌, refl, sym, ap, ◌∙◌, true, false, Option, none, some, String, arith, text_key, is_truthy,
  Bool-cases, Option-cases, inl, inr, ◌⊎◌, some_inj,
}
use tracium.Session.{
  App, email_key, get_item, store_session, handle_login, handle_logout, handle_session_renewed,
  or_before, has_token, Screen, screen, screen_of, Step, Reachable,
}
use tracium.Session.Stored.{logout_result, IsStored-Reachable}

pub login_keeps :
    (token email : String) (a b : App)
    → handle_login token email a ≡ some b
    → (b.token ≡ some token) × (b.invite_token ≡ a.invite_token)
unfolding handle_login
login_keeps token email a b e = elim (Option-cases (store_session token email a.local_storage)) [
  | inl f ↦ absurd (let g : none ≡ some b = rw f at e in ground (arith, g))
  | inr (stored, f) ↦
      (let g = rw f at e in
        (
          ap (λ (x : App). x.token) (sym (some_inj g)),
          ap (λ (x : App). x.invite_token) (sym (some_inj g)),
        ))
]

pub renewal_is_login :
    (token : String) (a b : App)
    → handle_session_renewed token a ≡ some b
    → (email : String) × (handle_login token email a ≡ some b)
unfolding handle_session_renewed
renewal_is_login token a b e = elim (Option-cases (get_item email_key a.local_storage)) [
  | inl f ↦ absurd (let g : none ≡ some b = rw f at e in ground (arith, g))
  | inr (email, f) ↦ (or_before email "", rw f at e)
]

-- Without an invite the application shows the dashboard to a user, and the visitor's pages else.
pub dashboard_of :
    (a : App) (t : String)
    → has_token a.invite_token ≡ false
    → a.token ≡ some t
    → is_truthy t ≡ true
    → screen a ≡ Screen.dashboard t
unfolding screen
dashboard_of a t invite e truthy =
    ap (λ o. screen_of o a.invite_token) e ∙ shown a.invite_token invite
  where
    shown : (o : Option String) → has_token o ≡ false → screen_of (some t) o ≡ Screen.dashboard t
    shown none h = rw truthy refl
    shown (some i) h = rw truthy (rw h refl)

screens :
    (a : App)
    → has_token a.invite_token ≡ false
    → ((i : Option String) × (screen a ≡ Screen.visitor_pages i))
      ⊎ ((t : String) × (screen a ≡ Screen.dashboard t))
unfolding screen
screens a invite = of_parts a.token a.invite_token invite
  where
    of_parts :
        (o i : Option String)
        → has_token i ≡ false
        → ((j : Option String) × (screen_of o i ≡ Screen.visitor_pages j))
          ⊎ ((t : String) × (screen_of o i ≡ Screen.dashboard t))
    of_parts none i h = inl (i, refl)
    of_parts (some t) none h = elim (Bool-cases (is_truthy t)) [
      | inl e ↦ inr (t, rw e refl)
      | inr e ↦ inl (none, rw e refl)
    ]
    of_parts (some t) (some i) h = elim (Bool-cases (is_truthy t)) [
      | inl e ↦ inr (t, rw e (rw h refl))
      | inr e ↦ inl (some i, rw e refl)
    ]

pub renewal-Reachable :
    (token : String) (a b : App)
    → has_token a.invite_token ≡ false
    → handle_session_renewed token a ≡ some b
    → Reachable a
    → Reachable b
renewal-Reachable token a b invite e r = elim (screens a invite) [
  | inl (i, visitor) ↦
      (let (email, login) = renewal_is_login token a b e in
        Reachable.step r (Step.login token email visitor login))
  | inr (t, user) ↦ Reachable.step r (Step.renew token user e)
]

pub invite_stays :
    (a b : App) → Reachable a → handle_logout a ≡ some b → b.invite_token ≡ a.invite_token
invite_stays a b r e =
    let left =
      logout_result a.token a.invite_token a.local_storage.access a.local_storage.items
        a.session_storage (IsStored-Reachable a r).readable in
    ap (λ (x : App). x.invite_token) (some_inj (sym e ∙ left))
