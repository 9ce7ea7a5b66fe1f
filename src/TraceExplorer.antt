-- ===== src/TraceExplorer.antt =====
-- The trace explorer: dashboard/src/modules/trace-explorer/interfaces and its two mappers,
-- utils/toRunRow.ts and utils/toTraceView.ts. Timestamps are whole milliseconds from the epoch;
-- costs and token counts are whole numbers of a fixed small unit.
pub mod Children
pub mod Preorder
pub mod Closed
pub mod Steps
pub mod Visits
pub mod Rows
pub mod Lineage
pub mod View
pub mod ViewLaws
mod Tests
use tracium.Prelude.{
  ◌>>=◌, ℕ, zero, suc, ◌+◌, ◌-◌, Bool, true, false, ◌&&◌, ◌||◌, not, List, [], ◌∷◌, ◌++◌, map,
  Option, none, some, String, ltb, if◌then◌else◌, ◌===◌, text_key, find, length, select,
}
use tracium.Prelude.Int.{ℤ, sub_ℕ}
use tracium.Prelude.Sort.{sort}
use tracium.Prelude.Maps.{has, add, get, set, from_pairs}
use tracium.Common.{AvailableTool, SetupIssue}
use tracium.TraceInspector.{SpanType, or_default}

-- Span['kind']
pub data Kind : Type 0 where
  agent llm tool chain retriever embedding : Kind

pub record Span : Type 0 where
  pub trace_id : String
  pub span_id : String
  pub parent_span_id : String
  pub name : String
  pub start_time_ms : ℕ
  pub end_time_ms : ℕ
  pub duration_ms : ℕ
  pub model : String
  pub finish_reason : String
  pub input_tokens : ℕ
  pub output_tokens : ℕ
  pub cost_usd : ℕ
  pub subtree_cost_usd : ℕ
  pub subtree_input_tokens : ℕ
  pub subtree_output_tokens : ℕ
  pub user_id : String
  pub model_normalized : String
  pub schema_version : ℕ
  pub error_type : String
  pub error_message : String
  pub kind : Option Kind
  pub input : Option String
  pub output : Option String
  pub available_tools : Option (List AvailableTool)
  pub setup_issues : Option (List SetupIssue)

pub record Trace : Type 0 where
  pub trace_id : String
  pub name : String
  pub start_time_ms : ℕ
  pub end_time_ms : ℕ
  pub duration_ms : ℕ
  pub user_id : String
  pub span_count : ℕ
  pub has_error : Bool
  pub total_cost_usd : ℕ
  pub workflow_version : Option String

-- TraceDetail of this module: a Trace with its spans
pub record LiveTrace : Type 0 where
  pub trace : Trace
  pub open trace use *
  pub spans : List Span

unfoldable pub is_llm_span : Span → Bool
is_llm_span span = not (span.model === "") || (ltb 0 span.input_tokens || ltb 0 span.output_tokens)

-- A wire kind as a kind of the view
abbrev pub kind_type : Kind → SpanType
kind_type Kind.agent = SpanType.agent
kind_type Kind.llm = SpanType.llm
kind_type Kind.tool = SpanType.tool
kind_type Kind.chain = SpanType.chain
kind_type Kind.retriever = SpanType.retriever
kind_type Kind.embedding = SpanType.embedding

-- `parent && isLlmSpan(parent)`
abbrev pub is_llm_parent : Option Span → Bool
is_llm_parent none = false
is_llm_parent (some p) = is_llm_span p

unfoldable pub span_type : Span → Bool → Option Span → SpanType
span_type span is_root parent = elim span.kind [
  | some k ↦ kind_type k
  | none ↦
      if is_root
      then SpanType.agent
      else if is_llm_span span
      then SpanType.llm
      else if is_llm_parent parent
      then SpanType.tool
      else SpanType.internal
]

unfoldable pub span_attributes : Span → List (String × String)
span_attributes span =
    select (λ kv. not (kv.1 === ""))
      (("llm.model", span.model)
        ∷ ("llm.model_normalized", span.model_normalized)
        ∷ ("finish_reason", span.finish_reason)
        ∷ [])

-- `new Map(trace.spans.map(s => [s.span_id, s]))`
unfoldable pub by_id : List Span → List (String × Span)
by_id spans = from_pairs [] (map (λ s. (s.span_id, s)) spans)

abbrev is_none {ℓ} : {A : Type ℓ} → Option A → Bool
is_none none = true
is_none (some a) = false

unfoldable pub is_root : List Span → Span → Bool
is_root spans s = s.parent_span_id === "" || is_none (get s.parent_span_id (by_id spans))

-- The key of a span's group in `childrenOf`
unfoldable pub group_key : List Span → Span → String
group_key spans s = if is_root spans s then "" else s.parent_span_id

-- The first loop over `childrenOf`: each span is pushed on its group.
unfoldable pub group_spans :
    (Span → String) → List (String × List Span) → List Span → List (String × List Span)
group_spans key m [] = m
group_spans key m (s ∷ spans) =
    group_spans key (set (key s) (or_default (get (key s) m) [] ++ s ∷ []) m) spans

abbrev pub by_start : Span → Span → ℤ
by_start a b = sub_ℕ a.start_time_ms b.start_time_ms

-- The second: each group is sorted in place.
unfoldable pub sort_groups : List (String × List Span) → List (String × List Span)
sort_groups [] = []
sort_groups ((k, group) ∷ m) = (k, sort by_start group) ∷ sort_groups m

-- `childrenOf.get(id) ?? []`
unfoldable pub children_of : List Span → String → List Span
unfolding group_spans sort_groups
children_of spans id = or_default (get id (sort_groups (group_spans (group_key spans) [] spans))) []

-- What `visit` writes: `seen` and `ordered`
pub record Order : Type 0 where
  pub seen : List String
  pub ordered : List (Span × ℕ)

-- `for (const child of group) visit(child, depth)`
unfoldable pub visit_each : (Span → ℕ → Order → Option Order) → List Span → ℕ → Order → Option Order
visit_each v [] depth st = some st
visit_each v (child ∷ group) depth st = do st' ← v child depth st; visit_each v group depth st'

-- `seen.add(span.span_id); ordered.push({ span, depth })`
abbrev pub emit : Span → ℕ → Order → Order
emit span depth st = record {
  seen = add span.span_id st.seen;
  ordered = st.ordered ++ (span, depth) ∷ [];
}

-- `visit`, with fuel for the depth of the calls; `none` means that it ran out.
unfoldable pub visit : (String → List Span) → ℕ → Span → ℕ → Order → Option Order
visit children zero span depth st = none
visit children (suc fuel) span depth st =
    let inner =
      visit_each (visit children fuel) (children span.span_id) (suc depth) (emit span depth st) in
    if has span.span_id st.seen then some st else inner

-- The rows of the view with their depths. A call goes one deeper only for a span that was not
-- seen, so one more than the number of spans is fuel enough.
unfoldable pub order_spans : List Span → Option Order
order_spans spans = do
  st ←
      visit_each (visit (children_of spans) (suc (length spans))) (children_of spans "") 0
        (record { seen = []; ordered = [] })
  visit_each (visit (children_of spans) (suc (length spans))) spans 0 st
