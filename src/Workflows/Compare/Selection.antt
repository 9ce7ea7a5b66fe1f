-- ===== src/Workflows/Compare/Selection.antt =====
-- Which metrics are charted.
use tracium.Prelude.{
  ◌≡◌, sym, subst, ap, ◌∙◌, Bool, true, false, List, [], ◌∷◌, String, arith, if◌then◌else◌,
  text_key, Bool-cases, select, All, select_holds, inl, inr, if_true, if_false,
}
use tracium.Workflows.Compare.{
  MetricId, same_metric, chartable, or_default, charted, toggle_in, Page, open_compare, toggle,
  Event, click_row, choose_range, step, steps,
}

-- One metric or two that differ
abbrev pub IsFew : List MetricId → Type 0
IsFew [] = ⊥
IsFew (a ∷ []) = Unit
IsFew (a ∷ b ∷ []) = same_metric a b ≡ false
IsFew (a ∷ b ∷ c ∷ rest) = ⊥

-- What is charted after a click on the row of a metric: the last one of a chart stays; of two, the
-- one that was picked first makes room.
abbrev pub clicked : MetricId → List MetricId → List MetricId
clicked id [] = []
clicked id (a ∷ []) = if same_metric a id then a ∷ [] else a ∷ id ∷ []
clicked id (a ∷ b ∷ rest) =
    if same_metric a id then b ∷ [] else if same_metric b id then a ∷ [] else b ∷ id ∷ []

same_metric_comm : (a b : MetricId) → same_metric a b ≡ same_metric b a
same_metric_comm a b = ground arith

toggle_in-clicked :
    (id : MetricId) (shown : List MetricId)
    → IsFew shown
    → (toggle_in id shown ≡ clicked id shown) × IsFew (clicked id shown)
toggle_in-clicked id [] h = absurd h
toggle_in-clicked id (a ∷ []) h = ground (arith, same_metric_comm id a)
toggle_in-clicked id (a ∷ b ∷ []) h =
    ground (arith, same_metric_comm id a, same_metric_comm id b, same_metric_comm a b)
toggle_in-clicked id (a ∷ b ∷ c ∷ rest) h = absurd h

-- A chart of one metric or two, of those that the range has
abbrev pub IsChart : String → List MetricId → Type 0
IsChart range shown = IsFew shown × All (λ id. chartable range id ≡ true) shown

select-IsFew :
    (p : MetricId → Bool) (picked : List MetricId)
    → IsFew picked
    → IsFew (or_default (select p picked))
select-IsFew p [] h = absurd h
select-IsFew p (a ∷ []) h = ground arith
select-IsFew p (a ∷ b ∷ []) h = ground arith
select-IsFew p (a ∷ b ∷ c ∷ rest) h = absurd h

or_default-chartable :
    (range : String) (shown : List MetricId)
    → All (λ id. chartable range id ≡ true) shown
    → All (λ id. chartable range id ≡ true) (or_default shown)
or_default-chartable range [] _ = (ground arith, tt)
or_default-chartable range (id ∷ ids) h = h

charted-IsChart :
    (range : String) (picked : List MetricId) → IsFew picked → IsChart range (charted range picked)
charted-IsChart range picked few = (
  select-IsFew (chartable range) picked few,
  or_default-chartable range (select (chartable range) picked)
      (select_holds (chartable range) picked),
)

clicked-chartable :
    (range : String) (id : MetricId) (shown : List MetricId)
    → chartable range id ≡ true
    → IsChart range shown
    → All (λ m. chartable range m ≡ true) (clicked id shown)
clicked-chartable range id [] c (few, h) = absurd few
clicked-chartable range id (a ∷ []) c (few, h) = ground (arith, h, c)
clicked-chartable range id (a ∷ b ∷ []) c (few, h) = ground (arith, h, c)
clicked-chartable range id (a ∷ b ∷ d ∷ rest) c (few, h) = absurd few

-- All the metrics of a chart are of its range already.
charted-all :
    (range : String) (shown : List MetricId) → IsChart range shown → charted range shown ≡ shown
charted-all range [] (few, h) = absurd few
charted-all range (a ∷ []) (few, (p, _)) = ground (arith, p)
charted-all range (a ∷ b ∷ []) (few, (p, (q, _))) = ground (arith, p, q)
charted-all range (a ∷ b ∷ d ∷ rest) (few, h) = absurd few

step-IsFew : (e : Event) (page : Page) → IsFew page.picked → IsFew (step e page).picked
unfolding toggle
step-IsFew (click_row id) page h = elim (Bool-cases (chartable page.range id)) [
  | inl c ↦
      (let shown = charted page.range page.picked in
        let (same, few) = toggle_in-clicked id shown (charted-IsChart page.range page.picked h).0 in
        subst (λ (p : Page). IsFew p.picked) (sym (if_true _ c)) (subst IsFew (sym same) few))
  | inr c ↦ subst (λ (p : Page). IsFew p.picked) (sym (if_false _ c)) h
]
step-IsFew (choose_range range) page h = h

steps-IsFew : (es : List Event) (page : Page) → IsFew page.picked → IsFew (steps es page).picked
steps-IsFew [] page h = h
steps-IsFew (e ∷ es) page h = steps-IsFew es (step e page) (step-IsFew e page h)

-- The chart after a click on a row
abbrev pub Answers : Page → MetricId → Type 0
Answers page id =
    let after = toggle id page in
    let shown = charted page.range page.picked in
    charted after.range after.picked ≡ (if chartable page.range id then clicked id shown else shown)

toggle-Answers : (id : MetricId) (page : Page) → IsFew page.picked → Answers page id
unfolding toggle
toggle-Answers id page h = elim (Bool-cases (chartable page.range id)) [
  | inl c ↦
      (let shown = charted page.range page.picked in
        let chart = charted-IsChart page.range page.picked h in
        let (same, few) = toggle_in-clicked id shown chart.0 in
        ap (λ (p : Page). charted p.range p.picked) (if_true _ c)
        ∙ ap (charted page.range) same
        ∙ charted-all page.range (clicked id shown)
            (few, clicked-chartable page.range id shown c chart)
        ∙ sym (if_true _ c))
  | inr c ↦ ap (λ (p : Page). charted p.range p.picked) (if_false _ c) ∙ sym (if_false _ c)
]

-- Whatever rows are clicked and ranges are chosen since the comparison was opened: one metric or two
-- that differ are charted, no latency over a long range. A click on a row that is enabled takes its
-- metric out of a chart of two, leaves a chart of it alone, and else charts it beside the one that
-- was picked last.
pub steps-open_compare :
    (range : String) (es : List Event)
    → let page = steps es (open_compare range) in
      IsChart page.range (charted page.range page.picked) × ((id : MetricId) → Answers page id)
steps-open_compare range es =
    let page = steps es (open_compare range) in
    let few = steps-IsFew es (open_compare range) tt in
    (charted-IsChart page.range page.picked few, λ id. toggle-Answers id page few)
