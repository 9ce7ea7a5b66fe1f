-- ===== src/ApiKeys/Consistent.antt =====
-- Whatever order the answers come in: the flags, the requests and the shown token agree.
use tracium.Prelude.{
  ℕ, suc, ◌≤◌, ◌≡◌, refl, sym, ap, ◌∙◌, subst, Bool, true, false, ◌&&◌, not, List, [], ◌∷◌, Option,
  none, some, arith, if◌then◌else◌, ◌===◌, number_key, eq_of_same, if_true, if_false, Bool-cases,
  inl, inr, All, All-append,
}
use tracium.Prelude.InFlight.{take_out, total, total-append, total-take_out, take_out-All}
use tracium.Uri.{Text}
use tracium.Texts.{trim, is_empty}
use tracium.ApiKeys.{
  ApiKeyRecord, CreatedApiKey, View, Call, create, revoke, Request, Page, start, submit_in,
  confirm_in, Answer, made, done, failed, finish, is_create, hear, same_workspace, Event, step,
  steps,
}

-- The server makes a key in the workspace that the request names.
abbrev pub IsTrue : Page → Event → Type 0
IsTrue page (Event.answered i (made c)) =
    (request : Request) (rest : List Request)
    → take_out i page.in_flight ≡ some (request, rest)
    → request.workspace_id ≡ c.key.workspace_id
IsTrue page e = Unit

abbrev pub AreTrue : Page → List Event → Type 0
AreTrue page [] = Unit
AreTrue page (e ∷ es) = IsTrue page e × AreTrue (step e page) es

abbrev pub is_creation : Request → ℕ
is_creation r = if is_create r then 1 else 0

abbrev pub is_revocation : Request → ℕ
is_revocation r = if is_create r then 0 else 1

abbrev pub one_if : Bool → ℕ
one_if b = if b then 1 else 0

-- A request is from a view that was there, and if from this one, for its workspace.
abbrev pub IsSent : ℕ → Option Text → Request → Type 0
IsSent current workspace_id r =
    (r.sender ≤ current) × (r.sender ≡ current → workspace_id ≡ some r.workspace_id)

abbrev pub IsShown : Option Text → Option CreatedApiKey → Type 0
IsShown workspace_id none = Unit
IsShown workspace_id (some c) = workspace_id ≡ some c.key.workspace_id

pub record IsConsistent (page : Page) : Type 0 where
  pub creating : total is_creation page.in_flight ≡ one_if page.is_creating
  pub revoking : total is_revocation page.in_flight ≡ one_if page.is_revoking
  pub sent : All (IsSent page.current page.view.workspace_id) page.in_flight
  pub shown : IsShown page.view.workspace_id page.view.created

-- Another view hears nothing of the requests that were sent before.
All-IsSent-suc :
    (current : ℕ) (v w : Option Text) (rs : List Request)
    → All (IsSent current v) rs
    → All (IsSent (suc current) w) rs
All-IsSent-suc current v w [] _ = tt
All-IsSent-suc current v w (r ∷ rs) ((le, _), hs) =
    ((omega arith, λ e. absurd (omega arith)), All-IsSent-suc current v w rs hs)

-- What an answer to a request of this view, about its workspace, leaves to be shown
finish-IsShown :
    (w : Option Text) (call : Call) (answer : Answer) (view : View)
    → ((c : CreatedApiKey) → answer ≡ made c → w ≡ some c.key.workspace_id)
    → IsShown w view.created
    → IsShown w (finish call answer view).created
finish-IsShown w (create name) (made c) view h _ = h c refl
finish-IsShown w (create name) done view h s = s
finish-IsShown w (create name) failed view h s = s
finish-IsShown w (revoke id) (made c) view h s = s
finish-IsShown w (revoke id) done view h s = s
finish-IsShown w (revoke id) failed view h s = s

finish-workspace_id :
    (call : Call) (answer : Answer) (view : View)
    → (finish call answer view).workspace_id ≡ view.workspace_id
finish-workspace_id (create name) (made c) view = refl
finish-workspace_id (create name) done view = refl
finish-workspace_id (create name) failed view = refl
finish-workspace_id (revoke id) (made c) view = refl
finish-workspace_id (revoke id) done view = refl
finish-workspace_id (revoke id) failed view = refl

names_workspace :
    (page : Page) (i : ℕ) (answer : Answer) (r : Request) (rest : List Request)
    → IsTrue page (Event.answered i answer)
    → take_out i page.in_flight ≡ some (r, rest)
    → (c : CreatedApiKey) → answer ≡ made c
    → r.workspace_id ≡ c.key.workspace_id
names_workspace page i (made d) r rest t e c same = t r rest e ∙ ap workspace_of same
  where
    workspace_of : Answer → Text
    workspace_of (made c) = c.key.workspace_id
    workspace_of done = []
    workspace_of failed = []
names_workspace page i done r rest t e c same = absurd (ground arith)
names_workspace page i failed r rest t e c same = absurd (ground arith)

module _ (page : Page) (h : IsConsistent page) where
  submit-IsConsistent :
      (w : Option Text) → page.view.workspace_id ≡ w → IsConsistent (submit_in w page)
  submit-IsConsistent none e = h
  submit-IsConsistent (some []) e = h
  submit-IsConsistent (some (b ∷ w)) e =
      elim (Bool-cases (not (is_empty (trim page.view.name)) && not page.is_creating)) [
        | inl go ↦ rw go (record {
          creating =
              total-append is_creation page.in_flight _
              ∙ omega (arith, h.creating ∙ ap one_if (idle go));
          revoking = total-append is_revocation page.in_flight _ ∙ omega (arith, h.revoking);
          sent = All-append _ page.in_flight _ h.sent ((omega arith, λ _. e), tt);
          shown = h.shown;
        })
        | inr held ↦ rw held h
      ]
    where
      idle :
          (not (is_empty (trim page.view.name)) && not page.is_creating) ≡ true
          → page.is_creating ≡ false
      idle go = ground (arith, go)

  confirm-IsConsistent :
      (w : Option Text) (target : Option ApiKeyRecord)
      → page.view.workspace_id ≡ w
      → IsConsistent (confirm_in w target page)
  confirm-IsConsistent none target e = h
  confirm-IsConsistent (some w) none e = h
  confirm-IsConsistent (some w) (some k) e = elim (Bool-cases page.is_revoking) [
    | inl busy ↦ subst IsConsistent (sym (if_true _ busy)) h
    | inr idle ↦ rw idle (record {
      creating = total-append is_creation page.in_flight _ ∙ omega (arith, h.creating);
      revoking =
          total-append is_revocation page.in_flight _ ∙ omega (arith, h.revoking ∙ ap one_if idle);
      sent = All-append _ page.in_flight _ h.sent ((omega arith, λ _. e), tt);
      shown = h.shown;
    })
  ]

  hear-IsConsistent :
      (o : Option (Request × List Request)) (i : ℕ) (answer : Answer)
      → take_out i page.in_flight ≡ o
      → IsTrue page (Event.answered i answer)
      → IsConsistent (hear o answer page)
  hear-IsConsistent none i answer e true_answer = h
  hear-IsConsistent (some (r, rest)) i answer e true_answer =
      let ((le, own), others) =
        take_out-All (IsSent page.current page.view.workspace_id) i page.in_flight r rest e
          h.sent in
      let c = total-take_out is_creation i page.in_flight r rest e in
      let v = total-take_out is_revocation i page.in_flight r rest e in
      elim (Bool-cases (r.sender === page.current)) [
        | inl mine ↦ rw mine (record {
          creating = ground (arith, c, h.creating);
          revoking = ground (arith, v, h.revoking);
          sent =
              subst (λ w. All (IsSent page.current w) rest)
                (sym (finish-workspace_id r.call answer page.view)) others;
          shown =
              subst (λ w. IsShown w (finish r.call answer page.view).created)
                (sym (finish-workspace_id r.call answer page.view))
                (finish-IsShown page.view.workspace_id r.call answer page.view
                  (λ d same.
                    own (eq_of_same r.sender page.current mine)
                    ∙ ap some (names_workspace page i answer r rest true_answer e d same))
                  h.shown);
        })
        | inr other ↦ rw other (record {
          creating = ground (arith, c, h.creating);
          revoking = ground (arith, v, h.revoking);
          sent = others;
          shown = h.shown;
        })
      ]

step-IsConsistent :
    (e : Event) (page : Page) → IsTrue page e → IsConsistent page → IsConsistent (step e page)
unfolding step
step-IsConsistent (Event.type_name t) page _ h = record {
  creating = h.creating;
  revoking = h.revoking;
  sent = h.sent;
  shown = h.shown;
}
step-IsConsistent (Event.type_search t) page _ h = record {
  creating = h.creating;
  revoking = h.revoking;
  sent = h.sent;
  shown = h.shown;
}
step-IsConsistent Event.submit page _ h = submit-IsConsistent page h page.view.workspace_id refl
step-IsConsistent Event.close_reveal page _ h = record {
  creating = h.creating;
  revoking = h.revoking;
  sent = h.sent;
  shown = tt;
}
step-IsConsistent Event.cancel_revoke page _ h = record {
  creating = h.creating;
  revoking = h.revoking;
  sent = h.sent;
  shown = h.shown;
}
step-IsConsistent Event.confirm_revoke page _ h =
    confirm-IsConsistent page h page.view.workspace_id page.view.revoke_target refl
step-IsConsistent (Event.ask_revoke k) page _ h = record {
  creating = h.creating;
  revoking = h.revoking;
  sent = h.sent;
  shown = h.shown;
}
step-IsConsistent (Event.answered i answer) page t h =
    hear-IsConsistent page h (take_out i page.in_flight) i answer refl t
step-IsConsistent (Event.switch w) page _ h =
    elim (Bool-cases (same_workspace page.view.workspace_id w)) [
      | inl same ↦ subst IsConsistent (sym (if_true _ same)) h
      | inr other ↦ subst IsConsistent (sym (if_false _ other)) (record {
        creating = h.creating;
        revoking = h.revoking;
        sent = All-IsSent-suc page.current page.view.workspace_id w page.in_flight h.sent;
        shown = tt;
      })
    ]

steps-IsConsistent :
    (es : List Event) (page : Page)
    → AreTrue page es
    → IsConsistent page
    → IsConsistent (steps page es)
steps-IsConsistent [] page _ h = h
steps-IsConsistent (e ∷ es) page (t, ts) h =
    steps-IsConsistent es (step e page) ts (step-IsConsistent e page t h)

start-IsConsistent : (workspace_id : Option Text) → IsConsistent (start workspace_id)
unfolding start
start-IsConsistent w = record { creating = refl; revoking = refl; sent = tt; shown = tt }

-- Whatever is typed, clicked, answered or switched to, and in whatever order the answers come: no
-- more than one creation and no more than one revocation are in flight, and the form or the buttons
-- are disabled just while one is, whichever workspace it was sent from; a token that is shown is one
-- of the workspace that is shown. The server makes a key in the workspace that the request names.
pub steps-start :
    (workspace_id : Option Text) (es : List Event)
    → AreTrue (start workspace_id) es
    → IsConsistent (steps (start workspace_id) es)
steps-start w es t = steps-IsConsistent es (start w) t (start-IsConsistent w)
