-- ===== src/Settings/Password/Kept.antt =====
-- The form and its request, and the session that it works on.
use tracium.Prelude.{
  ◌≡◌, refl, sym, ap, ◌∙◌, subst, Bool, true, false, ◌&&◌, not, List, [], ◌∷◌, ◌++◌, Option, none,
  some, String, arith, if◌then◌else◌, ◌===◌, text_key, is_truthy, Bool-cases, inl, inr, if_true,
  if_false,
}
use tracium.Session.{App, handle_logout, handle_session_renewed, has_token, Step, Reachable}
use tracium.Session.Renewed.{login_keeps, renewal_is_login, renewal-Reachable, invite_stays}
use tracium.Settings.Members.{Answer, done, api_error, other_error}
use tracium.Settings.Password.{
  PasswordForm, Account, reset, submit_password, failed, could_not_change, renewed, hear_password,
  answer_password, Event, change, cancel, submit, leave_tab, log_out, type_current, type_next,
  type_confirm, answered, edit, is_filled, leave, step,
}

-- One request in flight while the form is saving, with two passwords that are not empty, else none
abbrev pub AreSent : Bool → List (String × String) → Type 0
AreSent false [] = Unit
AreSent false (sent ∷ rest) = ⊥
AreSent true [] = ⊥
AreSent true ((current, next) ∷ []) = (is_truthy current ≡ true) × (is_truthy next ≡ true)
AreSent true (a ∷ b ∷ rest) = ⊥

pub record IsKept (s : Account) : Type 0 where
  pub reached : Reachable s.app
  pub no_invite : has_token s.app.invite_token ≡ false
  pub there : s.is_there ≡ true → (t : String) × (s.app.token ≡ some t)
  pub once : AreSent s.form.saving s.in_flight

-- A change of the form alone
with_form :
    (s : Account) (form : PasswordForm)
    → form.saving ≡ s.form.saving
    → IsKept s
    → IsKept (record s { form = form })
with_form s form e h = record {
  reached = h.reached;
  no_invite = h.no_invite;
  there = h.there;
  once = subst (λ b. AreSent b s.in_flight) (sym e) h.once;
}

failed-IsKept :
    (message : String) (s : Account)
    → AreSent false s.in_flight
    → Reachable s.app
    → has_token s.app.invite_token ≡ false
    → (s.is_there ≡ true → (t : String) × (s.app.token ≡ some t))
    → IsKept (failed message s)
failed-IsKept message s once r i t = record { reached = r; no_invite = i; there = t; once = once }

renewed-IsKept :
    (o : Option App) (token : String) (s : Account)
    → handle_session_renewed token s.app ≡ o
    → AreSent false s.in_flight
    → Reachable s.app
    → has_token s.app.invite_token ≡ false
    → (s.is_there ≡ true → (t : String) × (s.app.token ≡ some t))
    → IsKept (renewed o s)
renewed-IsKept none token s e once r i t = failed-IsKept could_not_change s once r i t
renewed-IsKept (some app) token s e once r i t =
    let (email, login) = renewal_is_login token s.app app e in
    let (token_is, invite_is) = login_keeps token email s.app app login in
    record {
      reached = renewal-Reachable token s.app app i e r;
      no_invite = ap has_token invite_is ∙ i;
      there = λ _. (token, token_is);
      once = once;
    }

hear-IsKept :
    (answer : Answer String) (s : Account)
    → AreSent false s.in_flight
    → Reachable s.app
    → has_token s.app.invite_token ≡ false
    → (s.is_there ≡ true → (t : String) × (s.app.token ≡ some t))
    → IsKept (hear_password answer s)
hear-IsKept (done token) s once r i t = renewed-IsKept _ token s refl once r i t
hear-IsKept (api_error message) s once r i t = failed-IsKept message s once r i t
hear-IsKept other_error s once r i t = failed-IsKept could_not_change s once r i t

alone :
    (b : Bool) (sent : String × String) (rest : List (String × String))
    → AreSent b (sent ∷ rest)
    → rest ≡ []
alone false sent rest h = absurd h
alone true sent [] h = refl
alone true sent (b ∷ rest) h = absurd h

answer-IsKept :
    (answer : Answer String) (l : List (String × String)) (s : Account)
    → s.in_flight ≡ l
    → IsKept s
    → IsKept (answer_password answer l s)
answer-IsKept answer [] s e h = h
answer-IsKept answer (sent ∷ rest) s e h =
    let last = alone s.form.saving sent rest (subst (AreSent s.form.saving) e h.once) in
    hear-IsKept answer (record s { in_flight = rest }) (subst (AreSent false) (sym last) tt)
      h.reached h.no_invite h.there

none_sent : (l : List (String × String)) → AreSent false l → l ≡ []
none_sent [] h = refl
none_sent (sent ∷ rest) h = absurd h

submit-IsKept : (s : Account) → is_filled s.form ≡ true → IsKept s → IsKept (submit_password s)
submit-IsKept s filled h = elim (Bool-cases s.form.saving) [
  | inl e ↦ subst IsKept (sym (if_true _ e)) h
  | inr e ↦
      subst IsKept (sym (if_false _ e)) (elim (Bool-cases (not (s.form.next === s.form.confirm))) [
        | inl d ↦ subst IsKept (sym (if_true _ d)) (with_form s _ refl h)
        | inr d ↦
            (let empty = none_sent s.in_flight (subst (λ b. AreSent b s.in_flight) e h.once) in
              subst IsKept (sym (if_false _ d)) (record {
                reached = h.reached;
                no_invite = h.no_invite;
                there = h.there;
                once =
                    subst (λ l. AreSent true (l ++ (s.form.current, s.form.next) ∷ [])) (sym empty)
                      (ground (arith, filled), ground (arith, filled));
              }))
      ])
]

token_of : (o : Option String) → has_token o ≡ true → (t : String) × (o ≡ some t)
token_of none h = absurd (ground (arith, h))
token_of (some t) h = (t, refl)

leave-IsKept :
    (o : Option App) (s : Account)
    → handle_logout s.app ≡ o
    → has_token s.app.token ≡ true
    → IsKept s
    → IsKept (leave o s)
leave-IsKept none s e here h = h
leave-IsKept (some app) s e here h =
    let (t, is_in) = token_of s.app.token here in
    record {
      reached = Reachable.step h.reached (Step.logout is_in e);
      no_invite = ap has_token (invite_stays s.app app h.reached e) ∙ h.no_invite;
      there = λ still. absurd (ground (arith, still));
      once = h.once;
    }

-- A step that is made only if a test passes
when-IsKept :
    (b : Bool) (s t : Account) → IsKept s → (b ≡ true → IsKept t) → IsKept (if b then t else s)
when-IsKept true s t h k = k refl
when-IsKept false s t h k = h

edit-IsKept :
    (f : PasswordForm → PasswordForm) (s : Account)
    → (f s.form).saving ≡ s.form.saving
    → IsKept s
    → IsKept (edit f s)
edit-IsKept f s e h =
    when-IsKept (s.is_there && s.form.editing && not s.form.saving) s _ h
      (λ _. with_form s (f s.form) e h)

pub step-IsKept : (e : Event) (s : Account) → IsKept s → IsKept (step e s)
unfolding step
step-IsKept change s h =
    when-IsKept (s.is_there && not s.form.editing) s _ h (λ _. with_form s _ refl h)
step-IsKept cancel s h = edit-IsKept reset s refl h
step-IsKept (type_current t) s h =
    edit-IsKept (λ (form : PasswordForm). record form { current = t }) s refl h
step-IsKept (type_next t) s h =
    edit-IsKept (λ (form : PasswordForm). record form { next = t }) s refl h
step-IsKept (type_confirm t) s h =
    edit-IsKept (λ (form : PasswordForm). record form { confirm = t }) s refl h
step-IsKept submit s h =
    when-IsKept (s.is_there && s.form.editing && is_filled s.form) s _ h
      (λ e. submit-IsKept s (ground (arith, e)) h)
step-IsKept leave_tab s h = record {
  reached = h.reached;
  no_invite = h.no_invite;
  there = λ still. absurd (ground (arith, still));
  once = h.once;
}
step-IsKept log_out s h =
    when-IsKept (has_token s.app.token) s _ h (λ e. leave-IsKept (handle_logout s.app) s refl e h)
step-IsKept (answered answer) s h = answer-IsKept answer s.in_flight s refl h
