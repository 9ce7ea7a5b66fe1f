-- ===== src/Settings/Create/Sent.antt =====
-- What the form sends, and how often.
use tracium.Prelude.{
  ℕ, suc, ◌+◌, ◌≤◌, ◌≡◌, refl, sym, ap, ◌∙◌, subst, Bool, true, false, ◌&&◌, ◌||◌, not, List, [],
  ◌∷◌, Option, none, some, arith, if◌then◌else◌, ◌===◌, number_key, Bool-cases, inl, inr, All,
  All-append, if_true, if_false,
}
use tracium.Prelude.InFlight.{take_out, total, total-append, total-take_out, take_out-All}
use tracium.Uri.{Text}
use tracium.Texts.{is_empty}
use tracium.Settings.Slug.{slugify}
use tracium.Settings.Slug.Laws.{is_slug, slugify-is_slug}
use tracium.Settings.Create.{
  TabId, is_workspace, WorkspaceDraft, CreateForm, Settings, open_settings, set_creating,
  sync_create_mode, effective_slug, can_create, submit_form, Created, made, refused, hear_created,
  answer_created, Event, edit, step, steps,
}

-- A draft with a name and a slug
abbrev pub IsDraft : WorkspaceDraft → Type 0
IsDraft d = (is_empty d.name ≡ false) × (is_empty d.slug ≡ false) × (is_slug d.slug ≡ true)

-- Whether it is a creation of that form
abbrev pub sent_by : ℕ → ℕ × WorkspaceDraft → ℕ
sent_by n (sender, draft) = if sender === n then 1 else 0

abbrev pub one_if : Bool → ℕ
one_if b = if b then 1 else 0

-- Sent by a form that was there
abbrev pub IsSent : ℕ → ℕ × WorkspaceDraft → Type 0
IsSent current (sender, draft) = (sender ≤ current) × IsDraft draft

pub record IsSound (s : Settings) : Type 0 where
  pub slug : is_slug s.form.slug ≡ true
  pub once : total (sent_by s.form_number) s.in_flight ≡ one_if s.form.submitting
  pub pending : s.form.pending ≡ s.form.submitting
  pub drafts : All (IsSent s.form_number) s.in_flight

-- A new form has sent nothing.
sent_by-suc :
    (n : ℕ) (xs : List (ℕ × WorkspaceDraft))
    → All (IsSent n) xs
    → (total (sent_by (suc n)) xs ≡ 0) × All (IsSent (suc n)) xs
sent_by-suc n [] _ = (refl, tt)
sent_by-suc n ((sender, draft) ∷ xs) ((le, d), hs) =
    let (none_sent, sent) = sent_by-suc n xs hs in
    (ground (arith, none_sent, le), ((omega arith, d), sent))

effective_slug-is_slug :
    (lower : Text → Text) (form : CreateForm)
    → is_slug form.slug ≡ true
    → is_slug (effective_slug lower form) ≡ true
effective_slug-is_slug lower form h = elim (Bool-cases form.slug_edited) [
  | inl e ↦ rw e h
  | inr e ↦ rw e (slugify-is_slug lower form.name)
]

set_creating-IsSound : (b : Bool) (s : Settings) → IsSound s → IsSound (set_creating b s)
set_creating-IsSound true s h = elim (Bool-cases s.creating) [
  | inl e ↦ subst IsSound (sym (if_true _ e)) h
  | inr e ↦
      (let (none_sent, sent) = sent_by-suc s.form_number s.in_flight h.drafts in
        subst IsSound (sym (if_false _ e))
          (record { slug = refl; once = none_sent; pending = refl; drafts = sent }))
]
set_creating-IsSound false s h = record {
  slug = h.slug;
  once = h.once;
  pending = h.pending;
  drafts = h.drafts;
}

submit_form-IsSound :
    (lower : Text → Text) (s : Settings) → IsSound s → IsSound (submit_form lower s)
submit_form-IsSound lower s h =
    let held = not (can_create lower s.form) || s.form.submitting in
    elim (Bool-cases held) [
      | inl e ↦ subst IsSound (sym (if_true _ e)) h
      | inr e ↦ subst IsSound (sym (if_false _ e)) (record {
        slug = h.slug;
        once = total-append (sent_by s.form_number) s.in_flight _ ∙ ground (arith, h.once, e);
        pending = refl;
        drafts = All-append _ s.in_flight _ h.drafts (
          (
            omega arith,
            (ground (arith, e), ground (arith, e), effective_slug-is_slug lower s.form h.slug),
          ),
          tt,
        );
      })
    ]

hear_created-IsSound :
    (here : Bool) (answer : Created) (s : Settings) (rest : List (ℕ × WorkspaceDraft))
    → IsSound s
    → one_if s.form.submitting ≡ one_if here + total (sent_by s.form_number) rest
    → All (IsSent s.form_number) rest
    → IsSound (hear_created here answer (record s { in_flight = rest }))
hear_created-IsSound true (made id) s rest h count left = record {
  slug = h.slug;
  once = ground (arith, count);
  pending = refl;
  drafts = left;
}
hear_created-IsSound true (refused m) s rest h count left = record {
  slug = h.slug;
  once = ground (arith, count);
  pending = refl;
  drafts = left;
}
hear_created-IsSound false (made id) s rest h count left = record {
  slug = h.slug;
  once = ground (arith, count);
  pending = h.pending;
  drafts = left;
}
hear_created-IsSound false (refused m) s rest h count left = record {
  slug = h.slug;
  once = ground (arith, count);
  pending = h.pending;
  drafts = left;
}

answer_created-IsSound :
    (o : Option ((ℕ × WorkspaceDraft) × List (ℕ × WorkspaceDraft))) (i : ℕ) (answer : Created)
    (s : Settings)
    → take_out i s.in_flight ≡ o
    → IsSound s
    → IsSound (answer_created o answer s)
answer_created-IsSound none i answer s e h = h
answer_created-IsSound (some ((sender, draft), rest)) i answer s e h =
    let (_, left) =
      take_out-All (IsSent s.form_number) i s.in_flight (sender, draft) rest e h.drafts in
    hear_created-IsSound (sender === s.form_number) answer s rest h
      (sym h.once ∙ total-take_out (sent_by s.form_number) i s.in_flight (sender, draft) rest e)
      left

edit-IsSound :
    (f : CreateForm → CreateForm) (s : Settings)
    → (is_slug (f s.form).slug ≡ true)
    → ((f s.form).submitting ≡ s.form.submitting)
    → ((f s.form).pending ≡ s.form.pending)
    → IsSound s
    → IsSound (edit f s)
edit-IsSound f s slug sub pen h = elim (Bool-cases (s.creating && not s.form.pending)) [
  | inl e ↦ subst IsSound (sym (if_true _ e)) (record {
    slug = slug;
    once = h.once ∙ ap one_if (sym sub);
    pending = pen ∙ h.pending ∙ sym sub;
    drafts = h.drafts;
  })
  | inr e ↦ subst IsSound (sym (if_false _ e)) h
]

moved :
    (s : Settings) (tab : TabId) (creating prev : Bool) (id : Option Text)
    → IsSound s
    → IsSound
        (record s { tab = tab; creating = creating; prev_create_mode = prev; created_id = id })
moved s tab creating prev id h = record {
  slug = h.slug;
  once = h.once;
  pending = h.pending;
  drafts = h.drafts;
}

step-IsSound :
    (lower : Text → Text) (e : Event) (s : Settings) → IsSound s → IsSound (step lower e s)
unfolding step sync_create_mode
step-IsSound lower (Event.type_name t) s h =
    edit-IsSound (λ (form : CreateForm). record form { name = t }) s h.slug refl refl h
step-IsSound lower (Event.type_slug t) s h =
    edit-IsSound (λ (form : CreateForm). record form { slug_edited = true; slug = slugify lower t })
      s (slugify-is_slug lower t) refl refl h
step-IsSound lower (Event.choose_env e) s h =
    edit-IsSound (λ (form : CreateForm). record form { env = e }) s h.slug refl refl h
step-IsSound lower Event.submit s h = elim (Bool-cases s.creating) [
  | inl e ↦ subst IsSound (sym (if_true _ e)) (submit_form-IsSound lower s h)
  | inr e ↦ subst IsSound (sym (if_false _ e)) h
]
step-IsSound lower Event.cancel s h = elim (Bool-cases (s.creating && not s.form.pending)) [
  | inl e ↦ subst IsSound (sym (if_true _ e)) (set_creating-IsSound false s h)
  | inr e ↦ subst IsSound (sym (if_false _ e)) h
]
step-IsSound lower Event.create_another s h =
    elim (Bool-cases (s.creating || not (is_workspace s.tab))) [
      | inl e ↦ subst IsSound (sym (if_true _ e)) h
      | inr e ↦
          subst IsSound (sym (if_false _ e))
            (set_creating-IsSound true _ (moved s s.tab s.creating s.prev_create_mode none h))
    ]
step-IsSound lower (Event.select_tab t) s h = moved s t false s.prev_create_mode s.created_id h
step-IsSound lower (Event.create_mode true) s h = elim (Bool-cases s.prev_create_mode) [
  | inl e ↦ subst IsSound (sym (if_true _ e)) h
  | inr e ↦
      subst IsSound (sym (if_false _ e))
        (set_creating-IsSound true _ (moved s TabId.workspace s.creating true none h))
]
step-IsSound lower (Event.create_mode false) s h = moved s s.tab s.creating false s.created_id h
step-IsSound lower (Event.answered i answer) s h =
    answer_created-IsSound (take_out i s.in_flight) i answer s refl h

steps-IsSound :
    (lower : Text → Text) (es : List Event) (s : Settings) → IsSound s → IsSound (steps lower s es)
steps-IsSound lower [] s h = h
steps-IsSound lower (e ∷ es) s h =
    steps-IsSound lower es (step lower e s) (step-IsSound lower e s h)

-- Whatever is typed, submitted, cancelled, chosen or answered since the settings were opened: every
-- draft in flight has a name and a slug of the form that `slugify` makes, and the form has one in
-- flight just while it is disabled, and never two.
pub steps-open_settings :
    (lower : Text → Text) (create_mode demo : Bool) (es : List Event)
    → IsSound (steps lower (open_settings create_mode demo) es)
unfolding open_settings
steps-open_settings lower create_mode demo es =
    steps-IsSound lower es _ (record { slug = refl; once = refl; pending = refl; drafts = tt })
