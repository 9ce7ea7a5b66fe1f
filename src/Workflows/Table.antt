-- ===== src/Workflows/Table.antt =====
-- The list of the workflows: dashboard/src/modules/workflows/pages/WorkflowsPage.tsx. Costs and rates
-- are counted in whole units of a scale.
pub mod Rows
mod Tests
use tracium.Prelude.{
  ℕ, ◌≡◌, ◌↔◌, Bool, true, false, ◌||◌, List, [], ◌∷◌, ◌+◌, Option, none, some, if◌then◌else◌, ltb,
  select, Key, arith,
}
use tracium.Prelude.Int.{ℤ}
use tracium.Prelude.Sort.{sort}
use tracium.Uri.{Text}
use tracium.Texts.{is_empty, includes}
use tracium.Tables.{Cell, SortDir, desc, compare_rows, SortState, toggle_sort}

pub record Workflow : Type 0 where
  pub name : Text
  pub calls : ℕ
  pub cost : ℕ
  pub avg_latency_ms : ℕ
  pub error_rate : ℕ
  pub trend : List ℕ
  pub last_trace_id : Text

pub data SortKey : Type 0 where
  name calls cost avg_latency_ms error_rate : SortKey

-- `a[sortKey]`
abbrev pub cell : SortKey → Workflow → Cell
cell name w = Cell.text w.name
cell calls w = Cell.number w.calls
cell cost w = Cell.number w.cost
cell avg_latency_ms w = Cell.number w.avg_latency_ms
cell error_rate w = Cell.number w.error_rate

abbrev pub same_key : SortKey → SortKey → Bool
same_key name name = true
same_key calls calls = true
same_key cost cost = true
same_key avg_latency_ms avg_latency_ms = true
same_key error_rate error_rate = true
same_key _ _ = false

pub same_key_iff : (j k : SortKey) → (same_key j k ≡ true) ↔ (j ≡ k)
same_key_iff j k = ground arith

instance abbrev pub sort_key : Key SortKey
sort_key = record { same = same_key; same_iff = same_key_iff }

pub record Page : Type 0 where
  pub sort : SortState SortKey
  pub q : Text

abbrev pub open_workflows : Page
open_workflows = record { sort = record { key = calls; dir = desc }; q = [] }

-- The filter keeps all while nothing is typed.
abbrev pub matches : (Text → Text) → Text → Workflow → Bool
matches lower q w = is_empty q || includes (lower w.name) (lower q)

-- `filtered`
unfoldable pub filtered : (Text → Text) → (Text → Text → ℤ) → Page → List Workflow → List Workflow
filtered lower collate page workflows =
    sort (compare_rows collate cell page.sort.dir page.sort.key)
      (select (matches lower page.q) workflows)

-- What is left of two by `!m || f(a) > f(m) ? a : m`
abbrev pub greater : (Workflow → ℕ) → Option Workflow → Workflow → Workflow
greater f none a = a
greater f (some m) a = if ltb (f m) (f a) then a else m

-- `workflows.reduce(…, null)`, from what is left so far
unfoldable pub top : (Workflow → ℕ) → Option Workflow → List Workflow → Option Workflow
top f m [] = m
top f m (a ∷ rest) = top f (some (greater f m a)) rest

abbrev pub top_volume : List Workflow → Option Workflow
top_volume workflows = top (λ w. w.calls) none workflows

abbrev pub top_cost : List Workflow → Option Workflow
top_cost workflows = top (λ w. w.cost) none workflows

pub data Event : Type 0 where
  click_header : SortKey → Event
  type_filter : Text → Event

abbrev pub step : Event → Page → Page
step (click_header k) page = record page { sort = toggle_sort k page.sort }
step (type_filter q) page = record page { q = q }
