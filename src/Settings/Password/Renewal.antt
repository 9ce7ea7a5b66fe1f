-- ===== src/Settings/Password/Renewal.antt =====
-- What the form leaves of the session.
use tracium.Prelude.{
  ◌≡◌, refl, sym, subst, Bool, true, false, ◌&&◌, not, List, [], ◌∷◌, Option, none, some, String,
  arith, if◌then◌else◌, ◌===◌, text_key, is_truthy, Bool-cases, inl, inr, ◌⊎◌, any,
}
use tracium.Session.{App, handle_session_renewed, has_token, Screen, screen, Reachable}
use tracium.Session.Renewed.{login_keeps, renewal_is_login, dashboard_of}
use tracium.Settings.Members.{Answer, done, api_error, other_error}
use tracium.Settings.Password.{
  Account, open_account, submit_password, renewed, answer_password, Event, change, cancel, submit,
  leave_tab, log_out, type_current, type_next, type_confirm, answered, is_filled, step, steps,
}
use tracium.Settings.Password.Kept.{IsKept, step-IsKept}

-- An event that may end the session: a logout, or a renewal with no token
abbrev pub ends : Event → Bool
ends log_out = true
ends (answered (done token)) = not (is_truthy token)
ends e = false

-- Signed in
abbrev pub IsIn : App → Type 0
IsIn app = (t : String) × (app.token ≡ some t) × (is_truthy t ≡ true)

renewed-IsIn :
    (o : Option App) (token : String) (s : Account)
    → handle_session_renewed token s.app ≡ o
    → is_truthy token ≡ true
    → IsIn s.app
    → IsIn (renewed o s).app
renewed-IsIn none token s e truthy h = h
renewed-IsIn (some app) token s e truthy h =
    let (email, login) = renewal_is_login token s.app app e in
    (token, (login_keeps token email s.app app login).0, truthy)

answer-IsIn :
    (answer : Answer String) (l : List (String × String)) (s : Account)
    → ends (answered answer) ≡ false
    → IsIn s.app
    → IsIn (answer_password answer l s).app
answer-IsIn answer [] s stays h = h
answer-IsIn (done token) (sent ∷ rest) s stays h =
    renewed-IsIn _ token (record s { in_flight = rest }) refl (ground (arith, stays)) h
answer-IsIn (api_error message) (sent ∷ rest) s stays h = h
answer-IsIn other_error (sent ∷ rest) s stays h = h

-- A step that leaves the application alone
same_app : (b : Bool) (s t : Account) → t.app ≡ s.app → IsIn s.app → IsIn (if b then t else s).app
same_app true s t e h = subst IsIn (sym e) h
same_app false s t e h = h

app-submit_password : (s : Account) → (submit_password s).app ≡ s.app
app-submit_password s = elim (Bool-cases s.form.saving) [
  | inl e ↦ rw e refl
  | inr e ↦
      rw e (elim (Bool-cases (s.form.next === s.form.confirm)) [
        | inl d ↦ rw d refl
        | inr d ↦ rw d refl
      ])
]

step-IsIn : (e : Event) (s : Account) → ends e ≡ false → IsIn s.app → IsIn (step e s).app
unfolding step
step-IsIn change s _ h = same_app (s.is_there && not s.form.editing) s _ refl h
step-IsIn cancel s _ h = same_app (s.is_there && s.form.editing && not s.form.saving) s _ refl h
step-IsIn (type_current t) s _ h =
    same_app (s.is_there && s.form.editing && not s.form.saving) s _ refl h
step-IsIn (type_next t) s _ h =
    same_app (s.is_there && s.form.editing && not s.form.saving) s _ refl h
step-IsIn (type_confirm t) s _ h =
    same_app (s.is_there && s.form.editing && not s.form.saving) s _ refl h
step-IsIn submit s _ h =
    same_app (s.is_there && s.form.editing && is_filled s.form) s _ (app-submit_password s) h
step-IsIn leave_tab s _ h = h
step-IsIn log_out s stays h = absurd (ground (arith, stays))
step-IsIn (answered answer) s stays h = answer-IsIn answer s.in_flight s stays h

-- That the dashboard is shown, unless some event may have ended the session
abbrev pub StaysIn : List Event → App → Type 0
StaysIn es app = (any ends es ≡ true) ⊎ ((t : String) × (screen app ≡ Screen.dashboard t))

steps-IsKept :
    (es : List Event) (s : Account)
    → IsKept s
    → IsIn s.app
    → IsKept (steps es s) × ((any ends es ≡ true) ⊎ IsIn (steps es s).app)
steps-IsKept [] s h i = (h, inr i)
steps-IsKept (e ∷ es) s h i = elim (Bool-cases (ends e)) [
  | inl out ↦ (steps-kept es (step e s) (step-IsKept e s h), inl (ground (arith, out)))
  | inr stays ↦
      (let (kept, in_or_out) =
          steps-IsKept es (step e s) (step-IsKept e s h) (step-IsIn e s stays i) in
        (kept, elim in_or_out [ inl out ↦ inl (ground (arith, out, stays)) | inr i' ↦ inr i' ]))
]
  where
    steps-kept : (es : List Event) (s : Account) → IsKept s → IsKept (steps es s)
    steps-kept [] s h = h
    steps-kept (e ∷ es) s h = steps-kept es (step e s) (step-IsKept e s h)

-- From any state that the session comes to with a user at the dashboard, whatever is typed, submitted,
-- cancelled or answered, and also if the user has logged out in between: the session is in a state that
-- it comes to by its own steps; a request is in flight just while the form is saving, never two, and
-- with passwords that are not empty. Unless someone logged out or the server sent an empty token, the
-- dashboard is shown: no failure of the form signs anybody out.
pub steps-open_account :
    (app : App) (token : String) (es : List Event)
    → Reachable app
    → has_token app.invite_token ≡ false
    → app.token ≡ some token
    → is_truthy token ≡ true
    → let s = steps es (open_account app) in IsKept s × StaysIn es s.app
steps-open_account app token es r invite is_in truthy =
    let (kept, in_or_out) =
      steps-IsKept es (open_account app)
        (record { reached = r; no_invite = invite; there = λ _. (token, is_in); once = tt })
        (token, is_in, truthy) in
    (
      kept,
      elim in_or_out [
        | inl out ↦ inl out
        | inr (t, e, tr) ↦ inr (t, dashboard_of _ t kept.no_invite e tr)
      ],
    )
