-- ===== src/Settings/Members/Busy.antt =====
-- What the buttons say of the requests in flight.
use tracium.Prelude.{
  ℕ, ◌≤◌, ◌≡◌, refl, ◌∙◌, Bool, true, false, ◌||◌, List, [], ◌∷◌, Option, none, some, String, arith,
  if◌then◌else◌, ◌===◌, same_refl,
}
use tracium.Prelude.InFlight.{take_out, total, total-append, total-take_out}
use tracium.Uri.{Text}
use tracium.Extensions.{bytes_key}
use tracium.Texts.{trim, is_empty}
use tracium.Settings.Members.{
  CreatedInvite, Members, open_members, Answer, done, api_error, other_error, send_invite,
  hear_invite, run_action, answer_invite, answer_action, is_busy, Event, type_email, submit,
  dismiss, new_link, remove, revoke, invite_answered, action_answered, step, steps,
}

abbrev each : Text → ℕ
each t = 1

-- Whether it is about that id
abbrev pub about : Text → Text → ℕ
about id t = if t === id then 1 else 0

abbrev one_if : Bool → ℕ
one_if b = if b then 1 else 0

-- A busy id is one of a request in flight.
abbrev pub IsHeld : Option Text → List Text → Type 0
IsHeld none actions = Unit
IsHeld (some id) actions = 1 ≤ total (about id) actions

pub record IsTold (s : Members) : Type 0 where
  pub inviting : total each s.invitations ≡ one_if s.inviting
  pub busy : IsHeld s.busy_id s.actions

send_invite-IsTold :
    (address : Text) (s : Members) → s.inviting ≡ false → IsTold s → IsTold (send_invite address s)
send_invite-IsTold address s idle h = record {
  inviting = total-append each s.invitations (trim address) ∙ ground (arith, h.inviting, idle);
  busy = h.busy;
}

run_action-IsTold : (id : Text) (s : Members) → IsTold s → IsTold (run_action id s)
run_action-IsTold id s h = record {
  inviting = h.inviting;
  busy = ground (arith, total-append (about id) s.actions id, same_refl id);
}

hear_invite-IsTold :
    (answer : Answer CreatedInvite) (s : Members) (rest : List Text)
    → total each rest ≡ 0
    → IsHeld s.busy_id s.actions
    → IsTold (hear_invite answer (record s { invitations = rest }))
hear_invite-IsTold (done invite) s rest e h = record { inviting = e; busy = h }
hear_invite-IsTold (api_error message) s rest e h = record { inviting = e; busy = h }
hear_invite-IsTold other_error s rest e h = record { inviting = e; busy = h }

answer_invite-IsTold :
    (o : Option (Text × List Text)) (i : ℕ) (answer : Answer CreatedInvite) (s : Members)
    → take_out i s.invitations ≡ o
    → IsTold s
    → IsTold (answer_invite o answer s)
answer_invite-IsTold none i answer s e h = h
answer_invite-IsTold (some (address, rest)) i answer s e h =
    let count = total-take_out each i s.invitations address rest e in
    hear_invite-IsTold answer s rest (ground (arith, count, h.inviting)) h.busy

answer_action-IsTold :
    (o : Option (Text × List Text)) (fallback : String) (answer : Answer Unit) (s : Members)
    → IsTold s
    → IsTold (answer_action o fallback answer s)
answer_action-IsTold none fallback answer s h = h
answer_action-IsTold (some (id, rest)) fallback (done _) s h = record {
  inviting = h.inviting;
  busy = tt;
}
answer_action-IsTold (some (id, rest)) fallback (api_error message) s h = record {
  inviting = h.inviting;
  busy = tt;
}
answer_action-IsTold (some (id, rest)) fallback other_error s h = record {
  inviting = h.inviting;
  busy = tt;
}

-- A step that is made only if a test fails
unless-IsTold :
    (b : Bool) (s t : Members) → IsTold s → (b ≡ false → IsTold t) → IsTold (if b then s else t)
unless-IsTold true s t h k = h
unless-IsTold false s t h k = k refl

step-IsTold : (e : Event) (s : Members) → IsTold s → IsTold (step e s)
unfolding step
step-IsTold (type_email t) s h =
    unless-IsTold s.inviting s _ h (λ _. record { inviting = h.inviting; busy = h.busy })
step-IsTold submit s h =
    unless-IsTold (s.inviting || is_empty (trim s.email)) s _ h
      (λ e. send_invite-IsTold s.email s (ground (arith, e)) h)
step-IsTold dismiss s h = record { inviting = h.inviting; busy = h.busy }
step-IsTold (new_link id address) s h =
    unless-IsTold (s.inviting || is_busy s.busy_id id) s _ h
      (λ e. send_invite-IsTold address s (ground (arith, e)) h)
step-IsTold (remove id) s h =
    unless-IsTold (is_busy s.busy_id id) s _ h (λ _. run_action-IsTold id s h)
step-IsTold (revoke id) s h =
    unless-IsTold (is_busy s.busy_id id) s _ h (λ _. run_action-IsTold id s h)
step-IsTold (invite_answered i answer) s h =
    answer_invite-IsTold (take_out i s.invitations) i answer s refl h
step-IsTold (action_answered i fallback answer) s h =
    answer_action-IsTold (take_out i s.actions) fallback answer s h

steps-IsTold : (es : List Event) (s : Members) → IsTold s → IsTold (steps es s)
steps-IsTold [] s h = h
steps-IsTold (e ∷ es) s h = steps-IsTold es (step e s) (step-IsTold e s h)

-- Whatever an owner types, sends, removes or revokes, and in whatever order the answers come: an
-- invite is in flight just while the form is disabled, and never two; and the row that says that it
-- is being removed or revoked is one of a request in flight. It need not be the only one.
pub steps-open_members : (es : List Event) → IsTold (steps es open_members)
steps-open_members es = steps-IsTold es open_members (record { inviting = refl; busy = tt })
