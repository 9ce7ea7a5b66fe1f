-- ===== src/Workflows/Table/Rows.antt =====
-- What the list shows.
use tracium.Prelude.{
  ℕ, ◌≡◌, ◌≤◌, ◌<◌, refl, sym, List, [], ◌∷◌, ◌++◌, Option, none, some, arith, ltb, Bool-cases, inl,
  inr, All, ap, subst, ◌∙◌, if_true, if_false,
}
use tracium.Prelude.Int.{ℤ}
use tracium.Prelude.Sort.{IsComparator}
use tracium.Uri.{Text}
use tracium.Tables.{compare_rows}
use tracium.Tables.Order.{IsColumn, texts, numbers, rows-IsComparator, IsTable, sort-IsTable}
use tracium.Workflows.Table.{
  Workflow, SortKey, name, calls, cost, avg_latency_ms, error_rate, cell, Page, matches, filtered,
  top, top_volume, top_cost,
}

cell-IsColumn : (k : SortKey) → IsColumn (cell k)
cell-IsColumn name = texts (λ w. w.name) (λ w. refl)
cell-IsColumn calls = numbers (λ w. w.calls) (λ w. refl)
cell-IsColumn cost = numbers (λ w. w.cost) (λ w. refl)
cell-IsColumn avg_latency_ms = numbers (λ w. w.avg_latency_ms) (λ w. refl)
cell-IsColumn error_rate = numbers (λ w. w.error_rate) (λ w. refl)

-- If the host's collation is an order, the list shows each workflow that the filter keeps, as often
-- as the server sent it, in the order of the chosen column and direction; those that are equal in
-- that column stay in the order in which the server sent them.
pub filtered-IsTable :
    (lower : Text → Text) (collate : Text → Text → ℤ) (page : Page) (workflows : List Workflow)
    → IsComparator collate
    → IsTable
        (compare_rows collate cell page.sort.dir page.sort.key)
        (matches lower page.q)
        workflows
        (filtered lower collate page workflows)
unfolding filtered
filtered-IsTable lower collate page workflows c =
    sort-IsTable _ (matches lower page.q) workflows
      (rows-IsComparator collate cell page.sort.dir page.sort.key c (cell-IsColumn page.sort.key))

-- The first of the greatest: all before it are less, none behind it is greater.
pub record IsTop (f : Workflow → ℕ) (workflows : List Workflow) (m : Workflow) : Type 0 where
  pub ahead : List Workflow
  pub behind : List Workflow
  pub parts : workflows ≡ ahead ++ m ∷ behind
  pub less : All (λ w. f w < f m) ahead
  pub greatest : All (λ w. f w ≤ f m) behind

-- What the loop leaves of a first element and the rest
data Left (f : Workflow → ℕ) (m : Workflow) (rest : List Workflow) : Type 0 where
  first : top f (some m) rest ≡ some m → All (λ w. f w ≤ f m) rest → Left f m rest
  later :
      (w : Workflow) (ahead behind : List Workflow)
      → top f (some m) rest ≡ some w
      → rest ≡ ahead ++ w ∷ behind
      → f m < f w
      → All (λ v. f v < f w) ahead
      → All (λ v. f v ≤ f w) behind
      → Left f m rest

top-Left : (f : Workflow → ℕ) (rest : List Workflow) (m : Workflow) → Left f m rest
unfolding top
top-Left f [] m = first refl tt
top-Left f (a ∷ rest) m = elim (Bool-cases (ltb (f m) (f a))) [
  | inl up ↦
      (let next : top f (some m) (a ∷ rest) ≡ top f (some a) rest =
          ap (λ w. top f (some w) rest) (if_true m up) in
        elim (top-Left f rest a) [
          | first e all ↦ later a [] rest (next ∙ e) refl (ground (arith, up)) tt all
          | later w ahead behind e parts lt less greatest ↦
              later w (a ∷ ahead) behind (next ∙ e) (ap (λ ws. a ∷ ws) parts)
                (ground (arith, up, lt)) (lt, less) greatest
        ])
  | inr down ↦
      (let next : top f (some m) (a ∷ rest) ≡ top f (some m) rest =
          ap (λ w. top f (some w) rest) (if_false a down) in
        elim (top-Left f rest m) [
          | first e all ↦ first (next ∙ e) (ground (arith, down), all)
          | later w ahead behind e parts lt less greatest ↦
              later w (a ∷ ahead) behind (next ∙ e) (ap (λ ws. a ∷ ws) parts) lt
                (ground (arith, down, lt), less) greatest
        ])
]

-- Nothing for no workflows, else the first of the greatest
abbrev pub IsTopOf : (Workflow → ℕ) → List Workflow → Option Workflow → Type 0
IsTopOf f workflows none = workflows ≡ []
IsTopOf f workflows (some m) = IsTop f workflows m

top-IsTopOf :
    (f : Workflow → ℕ) (workflows : List Workflow) → IsTopOf f workflows (top f none workflows)
unfolding top
top-IsTopOf f [] = refl
top-IsTopOf f (m ∷ rest) = elim (top-Left f rest m) [
  | first e all ↦
      subst (IsTopOf f (m ∷ rest)) (sym e)
        (record { ahead = []; behind = rest; parts = refl; less = tt; greatest = all })
  | later w ahead behind e parts lt less greatest ↦ subst (IsTopOf f (m ∷ rest)) (sym e) (record {
    ahead = m ∷ ahead;
    behind = behind;
    parts = ap (λ ws. m ∷ ws) parts;
    less = (lt, less);
    greatest = greatest;
  })
]

-- The tiles show the first of the workflows with the most runs, and the first of those with the
-- greatest cost; they show none only if there is none.
pub tops-IsTopOf :
    (workflows : List Workflow)
    → IsTopOf (λ w. w.calls) workflows (top_volume workflows)
      × IsTopOf (λ w. w.cost) workflows (top_cost workflows)
tops-IsTopOf workflows = (top-IsTopOf (λ w. w.calls) workflows, top-IsTopOf (λ w. w.cost) workflows)
