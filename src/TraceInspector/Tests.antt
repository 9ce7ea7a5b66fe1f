-- ===== src/TraceInspector/Tests.antt =====
-- Runs of the trace view, and each property at a concrete input.
use tracium.Prelude.{
  ℕ, ◌≡◌, refl, ◌↔◌, true, List, [], ◌∷◌, none, some, String, Memᴰ, ◌===◌, text_key, find,
}
use tracium.Prelude.Int.{ℤ}
use tracium.TraceInspector.{
  SpanDetail, SpanType, SpanStatus, ViewState, raw, is_parent_span, reveal_span, visible_spans,
  initial_state,
}
use tracium.TraceInspector.Ancestors.{is_hidden, outline, IsCovered}
use tracium.TraceInspector.Collapse.{visible_spans_iff}
use tracium.TraceInspector.Reveal.{reveal_span-visible}

abbrev row : String → ℕ → ℕ → SpanDetail
row id depth children = record {
  id = id;
  name = id;
  span_type = SpanType.internal;
  start = ℤ.pos 0;
  duration = 1;
  depth = depth;
  cost = 0;
  subtree_cost = none;
  child_count = some children;
  tokens = 0;
  subtree_tokens = none;
  input_tokens = none;
  output_tokens = none;
  status = SpanStatus.ok;
  error = none;
  input = none;
  output = none;
  available_tools = none;
  setup_issues = none;
  attributes = [];
}

-- a > b > c, then d under a
abbrev rows : List SpanDetail
rows = row "a" 0 2 ∷ row "b" 1 1 ∷ row "c" 2 0 ∷ row "d" 1 0 ∷ []

abbrev folded_state : ViewState
folded_state = record { active_span_id = "a"; tab = raw; collapsed = "a" ∷ "b" ∷ [] }

folded_b : visible_spans rows ("b" ∷ []) ≡ row "a" 0 2 ∷ row "b" 1 1 ∷ row "d" 1 0 ∷ []
unfolding visible_spans is_parent_span
folded_b = refl

reveal_c : (reveal_span rows "c" folded_state).collapsed ≡ []
unfolding reveal_span
reveal_c = refl

starts_at_first : (initial_state rows).active_span_id ≡ "a"
unfolding initial_state
starts_at_first = refl

visible_spans_iff_example :
    (visible_spans rows ("b" ∷ []) ≡ outline ("b" ∷ []) [] rows)
    × ((before : List SpanDetail) (depth : ℕ)
        → (is_hidden ("b" ∷ []) before depth ≡ true) ↔ IsCovered ("b" ∷ []) before depth)
visible_spans_iff_example = visible_spans_iff rows ("b" ∷ [])

reveal_span-visible_example :
    (s : SpanDetail) × (find (λ t. t.id === (reveal_span rows "c" folded_state).active_span_id) rows
      ≡ some s)
    × Memᴰ s (visible_spans rows (reveal_span rows "c" folded_state).collapsed)
reveal_span-visible_example = reveal_span-visible rows "c" folded_state refl

abbrev b_id : String
b_id = "b"

abbrev a_collapsed : List String
a_collapsed = "a" ∷ []
