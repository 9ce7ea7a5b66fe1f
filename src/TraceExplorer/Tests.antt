-- ===== src/TraceExplorer/Tests.antt =====
-- Runs of the mappers, and each property at a concrete input.
use mathlib.Core.List.{Perm}
use tracium.Prelude.{
  ℕ, ◌≡◌, ◌≢◌, ◌↔◌, refl, false, List, [], ◌∷◌, ◌++◌, map, Option, none, some, String, All,
  text_key, ne_of_differs,
}
use tracium.Prelude.Sort.{sort}
use tracium.TraceInspector.{TraceDetail, SpanType}
use tracium.TraceExplorer.{
  Span, LiveTrace, Order, order_spans, visit_each, visit, children_of, is_root, group_key, by_id,
  span_type, is_llm_span,
}
use tracium.TraceExplorer.View.{has_failed, to_trace_view}
use tracium.TraceExplorer.Visits.{IsOrdering, order_spans_total}
use tracium.TraceExplorer.Lineage.{behind, HasLineage, order_spans-HasLineage}
use tracium.TraceExplorer.ViewLaws.{to_trace_view_total}

abbrev span : String → String → ℕ → String → Span
span id parent start output = record {
  trace_id = "t";
  span_id = id;
  parent_span_id = parent;
  name = id;
  start_time_ms = start;
  end_time_ms = start;
  duration_ms = 0;
  model = "";
  finish_reason = "";
  input_tokens = 0;
  output_tokens = 0;
  cost_usd = 0;
  subtree_cost_usd = 0;
  subtree_input_tokens = 0;
  subtree_output_tokens = 0;
  user_id = "";
  model_normalized = "";
  schema_version = 3;
  error_type = "";
  error_message = "";
  kind = none;
  input = none;
  output = some output;
  available_tools = none;
  setup_issues = none;
}

-- A child that comes before its parent, a sibling that starts earlier, and two spans in a cycle
abbrev spans : List Span
spans =
    span "child" "root" 5 "text"
    ∷ span "root" "" 5 ""
    ∷ span "early" "root" 2 ""
    ∷ span "x" "y" 1 ""
    ∷ span "y" "x" 1 ""
    ∷ []

abbrev trace : LiveTrace
trace = record {
  trace = record {
    trace_id = "t";
    name = "";
    start_time_ms = 1;
    end_time_ms = 9;
    duration_ms = 8;
    user_id = "";
    span_count = 5;
    has_error = false;
    total_cost_usd = 0;
    workflow_version = none;
  };
  spans = spans;
}

abbrev row_of : Span × ℕ → String × ℕ
row_of r = (r.0.span_id, r.1)

run_order : Option (List (String × ℕ))
unfolding order_spans visit_each visit children_of is_root group_key by_id
run_order = elim (order_spans spans) [ none ↦ none | some st ↦ some (map row_of st.ordered) ]

pre_order : run_order ≡ some (("root", 0) ∷ ("early", 1) ∷ ("child", 1) ∷ ("x", 0) ∷ ("y", 1) ∷ [])
unfolding run_order sort
pre_order = refl

under_llm : span_type (span "s" "p" 0 "") false (some (span "p" "" 0 "")) ≡ SpanType.internal
unfolding span_type is_llm_span
under_llm = refl

spans_named : All (λ (s : Span). s.span_id ≢ "") spans
spans_named = (
  ne_of_differs "child" "" refl,
  (
    ne_of_differs "root" "" refl,
    (ne_of_differs "early" "" refl, (ne_of_differs "x" "" refl, (ne_of_differs "y" "" refl, tt))),
  ),
)

order_spans_total_example :
    (st : Order) × (order_spans spans ≡ some st) × IsOrdering spans st.ordered
order_spans_total_example = order_spans_total spans spans_named

order_spans-HasLineage_example :
    (st : Order) × (order_spans spans ≡ some st)
    × ((pre post : List (Span × ℕ)) (s : Span) (depth : ℕ)
        → st.ordered ≡ pre ++ (s, depth) ∷ post
        → HasLineage (behind trace [] pre) s depth)
order_spans-HasLineage_example = order_spans-HasLineage trace spans_named

abbrev date_text : ℕ → String
date_text ms = "date"

to_trace_view_total_example :
    (v : TraceDetail) × (to_trace_view date_text trace ≡ some v)
    × Perm (map (λ r. r.id) v.spans) (map (λ (s : Span). s.span_id) spans)
    × ((v.error ≡ none) ↔ All (λ s. has_failed s ≡ false) spans)
to_trace_view_total_example =
    to_trace_view_total date_text trace spans_named (refl, (refl, (refl, (refl, (refl, tt)))))
