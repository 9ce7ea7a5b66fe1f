-- ===== src/Invites/Accept.antt =====
-- What comes of accepting an invite.
use tracium.Prelude.{
  ◌≡◌, refl, sym, ap, subst, Bool, true, false, ◌&&◌, ◌||◌, not, Option, none, some, String, arith,
  ◌>>=◌, if_true, if_false,
}
use tracium.Session.{App, handle_invite_accepted}
use tracium.Auth.{Result, ok, fail}
use tracium.Invites.{Page, Acceptance, accept, accepted, entered}

abbrev pub workspace_in : Result String → Option String
workspace_in (ok workspace_id) = some workspace_id
workspace_in (fail err) = none

-- In the workspace and without a message; or with a message, and all else as it was
abbrev pub Accepts : App → Option App → Acceptance → Type 0
Accepts app none r = (r.app ≡ app) × (message : String) × (r.page.accept_error ≡ some message)
Accepts app (some after) r = (r.app ≡ after) × (r.page.accept_error ≡ none)

module _ (storage_error : String) (page : Page) (app : App) where
  abbrev tried : Page
  tried = record page { accepting = true; accept_error = none }

  entered-Accepts : (o : Option App) → Accepts app o (entered storage_error tried app o)
  entered-Accepts none = (refl, _, refl)
  entered-Accepts (some after) = (refl, refl)

  entered-ends : (o : Option App) → (entered storage_error tried app o).page.accepting ≡ false
  entered-ends none = refl
  entered-ends (some after) = refl

  accepted-Accepts :
      (answer : Result String)
      → Accepts app
          (workspace_in answer >>= (λ w. handle_invite_accepted w app))
          (accepted storage_error answer tried app)
        × ((accepted storage_error answer tried app).page.accepting ≡ false)
  accepted-Accepts (ok w) =
      (entered-Accepts (handle_invite_accepted w app), entered-ends (handle_invite_accepted w app))
  accepted-Accepts (fail err) = ((refl, _, refl), refl)

  -- A click on accept with a session, while no other is being answered: the application is the one
  -- after `handleInviteAccepted` and no message is left exactly if the server names the workspace and
  -- the storage takes it; else the application stays and there is a message. The page can be tried
  -- again in both cases. Without a session, or while one is being answered, the click does nothing.
  pub accept-Accepts :
      (has_session : Bool) (answer : Result String)
      → let r = accept storage_error has_session answer page app in
        ((has_session && not page.accepting) ≡ true
          → Accepts app (workspace_in answer >>= (λ w. handle_invite_accepted w app)) r
            × (r.page.accepting ≡ false))
        × ((has_session && not page.accepting) ≡ false → (r.page ≡ page) × (r.app ≡ app))
  unfolding accept
  accept-Accepts has_session answer =
      let held = not has_session || page.accepting in
      (
        λ h.
            subst
              (λ r.
                Accepts app (workspace_in answer >>= (λ w. handle_invite_accepted w app)) r
                × (r.page.accepting ≡ false))
              (sym (if_false {b = held} _ (ground (arith, h)))) (accepted-Accepts answer),
        λ h.
            (let e =
                if_true {b = held} (accepted storage_error answer tried app) (ground (arith, h)) in
              (ap (λ (r : Acceptance). r.page) e, ap (λ (r : Acceptance). r.app) e)),
      )
