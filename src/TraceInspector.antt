-- ===== src/TraceInspector.antt =====
-- The trace view: dashboard/src/modules/trace-inspector/interfaces and the state of
-- dashboard/src/modules/trace-inspector/components/TraceView.tsx (the markup is left out).
-- Costs, durations and token counts are whole numbers of a fixed small unit.
pub mod Ancestors
pub mod Collapse
pub mod Reveal
pub mod Json
mod Tests
use tracium.Prelude.{
  ℕ, Bool, true, false, ◌&&◌, ◌||◌, List, [], ◌∷◌, Option, none, some, String, ltb, if◌then◌else◌,
  ◌===◌, text_key, number_key, find, length, select,
}
use tracium.Prelude.Int.{ℤ}
use tracium.Prelude.Maps.{has, add, delete}
use tracium.Common.{AvailableTool, SetupIssue}

pub record TraceError : Type 0 where
  pub kind : String
  pub message : String
  pub code : String
  pub stack : String

-- SpanDetail['type']
pub data SpanType : Type 0 where
  agent llm tool chain retriever embedding internal : SpanType

-- SpanDetail['status']
pub data SpanStatus : Type 0 where
  ok failed : SpanStatus

-- TraceDetail['status']
pub data RunStatus : Type 0 where
  completed failed : RunStatus

pub record SpanDetail : Type 0 where
  pub id : String
  pub name : String
  pub span_type : SpanType
  pub start : ℤ
  pub duration : ℕ
  pub depth : ℕ
  pub cost : ℕ
  pub subtree_cost : Option ℕ
  pub child_count : Option ℕ
  pub tokens : ℕ
  pub subtree_tokens : Option ℕ
  pub input_tokens : Option ℕ
  pub output_tokens : Option ℕ
  pub status : SpanStatus
  pub error : Option TraceError
  pub input : Option String
  pub output : Option String
  pub available_tools : Option (List AvailableTool)
  pub setup_issues : Option (List SetupIssue)
  pub attributes : List (String × String)

pub record TraceDetail : Type 0 where
  pub id : String
  pub workflow : String
  pub status : RunStatus
  pub duration : ℕ
  pub total_cost : ℕ
  pub input_tokens : ℕ
  pub output_tokens : ℕ
  pub model : String
  pub spans : List SpanDetail
  pub error : Option TraceError
  pub output : Option String
  pub version : Option String
  pub started_at : Option String
  pub ended_at : Option String
  pub cached_tokens : Option ℕ
  pub provider : Option String
  pub user : Option String
  pub session_id : Option String
  pub environment : Option String
  pub region : Option String
  pub sdk : Option String
  pub input : Option String
  pub tags : Option (List String)

-- `o ?? d`
abbrev pub or_default {ℓ} : {A : Type ℓ} → Option A → A → A
or_default none d = d
or_default (some a) d = a

unfoldable pub is_parent_span : SpanDetail → Bool
is_parent_span span = ltb 0 (or_default span.child_count 0)

unfoldable pub display_cost : SpanDetail → ℕ
display_cost span = or_default span.subtree_cost span.cost

unfoldable pub display_tokens : SpanDetail → ℕ
display_tokens span = or_default span.subtree_tokens span.tokens

abbrev pub is_failed : SpanStatus → Bool
is_failed SpanStatus.ok = false
is_failed SpanStatus.failed = true

pub data Tab : Type 0 where
  timeline input_tab output_tab metadata raw : Tab

-- The `useState` variables of TraceView; `collapsed` is a Set.
pub record ViewState : Type 0 where
  pub active_span_id : String
  pub tab : Tab
  pub collapsed : List String

-- `firstFailed?.id ?? t.spans[0]?.id ?? ''`
first_active : Option SpanDetail → List SpanDetail → String
first_active (some s) _ = s.id
first_active none (s ∷ _) = s.id
first_active none [] = ""

unfoldable pub initial_state : List SpanDetail → ViewState
unfolding first_active
initial_state spans = record {
  active_span_id = first_active (find (λ s. is_failed s.status) spans) spans;
  tab = timeline;
  collapsed = [];
}

unfoldable pub toggle_collapse : String → List String → List String
toggle_collapse id prev = if has id prev then delete id prev else add id prev

-- `t.spans.findIndex(s => s.id === id)`: the span, behind the ones that precede it, nearest first.
unfoldable pub find_index :
    String → List SpanDetail → List SpanDetail → Option (List SpanDetail × SpanDetail)
find_index id before [] = none
find_index id before (s ∷ rest) =
    if s.id === id then some (before, s) else find_index id (s ∷ before) rest

-- The loop `for (let i = idx - 1; i >= 0 && depth > 0; i--)`, over the spans before idx.
unfoldable pub ancestor_ids : List SpanDetail → ℕ → List String
ancestor_ids [] depth = []
ancestor_ids (s ∷ before) depth =
    let found = s.id ∷ ancestor_ids before s.depth in
    let skipped = ancestor_ids before depth in
    if depth === 0 then [] else if ltb s.depth depth then found else skipped

-- `ancestors.forEach(a => next.delete(a))`
unfoldable pub delete_all : List String → List String → List String
delete_all [] next = next
delete_all (a ∷ ancestors) next = delete_all ancestors (delete a next)

-- The part of `revealSpan` under `idx >= 0`
unfoldable pub expand : Option (List SpanDetail × SpanDetail) → List String → List String
unfolding ancestor_ids delete_all
expand none collapsed = collapsed
expand (some (before, s)) collapsed = delete_all (ancestor_ids before s.depth) collapsed

unfoldable pub reveal_span : List SpanDetail → String → ViewState → ViewState
unfolding expand find_index
reveal_span spans id st = record {
  active_span_id = id;
  tab = timeline;
  collapsed = expand (find_index id [] spans) st.collapsed;
}

-- `hideBelow !== null && span.depth > hideBelow`
abbrev pub is_below : Option ℕ → ℕ → Bool
is_below none depth = false
is_below (some h) depth = ltb h depth

abbrev pub is_folded : List String → SpanDetail → Bool
is_folded collapsed span = has span.id collapsed && is_parent_span span

-- The loop of `visibleSpans`, with `hideBelow` as an argument
unfoldable pub visible_from : List String → Option ℕ → List SpanDetail → List SpanDetail
visible_from collapsed hide_below [] = []
visible_from collapsed hide_below (span ∷ rest) = elim (is_below hide_below span.depth) [
  | true ↦ visible_from collapsed hide_below rest
  | false ↦
      span
      ∷ visible_from collapsed (if is_folded collapsed span then some span.depth else none) rest
]

unfoldable pub visible_spans : List SpanDetail → List String → List SpanDetail
unfolding visible_from
visible_spans spans collapsed = visible_from collapsed none spans

-- `t.spans.filter(s => s.status === 'failed').length`
pub failed_count : List SpanDetail → ℕ
failed_count spans = length (select (λ s. is_failed s.status) spans)
