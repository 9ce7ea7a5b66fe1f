-- ===== src/TraceExplorer/View.antt =====
-- The result of `toTraceView`, and `toRunRow`. Formatting a date for the user's locale is a
-- parameter: it is the host's.
use tracium.Prelude.{
  ◌>>=◌, ℕ, ◌+◌, Bool, false, List, [], ◌∷◌, map, Option, none, some, String, if◌then◌else◌,
  text_key, find, length, select, is_truthy, or_text,
}
use mathlib.Core.List.{reverse}
use Prim.Native.String
use tracium.Prelude.Int.{sub_ℕ}
use tracium.Prelude.Sort.{sort}
use tracium.Prelude.Maps.{get, unique_from}
use tracium.TraceInspector.{SpanDetail, SpanStatus, RunStatus, TraceDetail, TraceError}
use tracium.TraceExplorer.{
  Span, Trace, LiveTrace, span_type, span_attributes, by_id, is_root, by_start, children_of,
  order_spans,
}

-- `s.error_type || s.error_message`, as a test
abbrev pub has_failed : Span → Bool
has_failed s = is_truthy (or_text s.error_type s.error_message)

unfoldable pub span_error : Span → Option TraceError
span_error s =
    if has_failed s
    then some (record {
      kind = or_text s.error_type "error";
      message = s.error_message;
      code = "";
      stack = "";
    })
    else none

-- One row of the view
unfoldable pub to_span_detail : LiveTrace → Span × ℕ → SpanDetail
unfolding span_error
to_span_detail t (s, depth) = record {
  id = s.span_id;
  name = s.name;
  span_type = span_type s (is_root t.spans s) (get s.parent_span_id (by_id t.spans));
  start = sub_ℕ s.start_time_ms t.start_time_ms;
  duration = s.duration_ms;
  depth = depth;
  cost = s.cost_usd;
  subtree_cost = some s.subtree_cost_usd;
  child_count = some (length (children_of t.spans s.span_id));
  tokens = s.input_tokens + s.output_tokens;
  subtree_tokens = some (s.subtree_input_tokens + s.subtree_output_tokens);
  input_tokens = some s.input_tokens;
  output_tokens = some s.output_tokens;
  status = if has_failed s then SpanStatus.failed else SpanStatus.ok;
  error = span_error s;
  input = s.input;
  output = s.output;
  available_tools = s.available_tools;
  setup_issues = s.setup_issues;
  attributes = span_attributes s;
}

-- A recorded text, if it is not empty
abbrev pub recorded : Option String → Bool
recorded none = false
recorded (some s) = is_truthy s

-- `o?.field`
abbrev pub optional {ℓ} : {A : Type ℓ} → Option A → (A → Option String) → Option String
optional none f = none
optional (some a) f = f a

-- `root?.field || fallback`
abbrev pub or_recorded : Option String → Option String → Option String
or_recorded a b = if recorded a then a else b

-- `trace.spans.find(isRoot)`
abbrev pub root_span : LiveTrace → Option Span
root_span t = find (is_root t.spans) t.spans

unfoldable pub trace_input : LiveTrace → Option String
trace_input t =
    or_recorded (optional (root_span t) (λ s. s.input))
      (optional (find (λ s. recorded s.input) (sort by_start t.spans)) (λ s. s.input))

unfoldable pub trace_output : LiveTrace → Option String
trace_output t =
    or_recorded (optional (root_span t) (λ s. s.output))
      (optional (find (λ s. recorded s.output) (reverse (sort by_start t.spans))) (λ s. s.output))

-- `spans.reduce((sum, s) => sum + f(s), sum)`
sum_from : ℕ → (Span → ℕ) → List Span → ℕ
sum_from sum f [] = sum
sum_from sum f (s ∷ spans) = sum_from (sum + f s) f spans

-- `texts.join(', ')`
join : List String → String
join [] = ""
join (s ∷ []) = s
join (s ∷ t ∷ texts) = String.◌++◌ s (String.◌++◌ ", " (join (t ∷ texts)))

-- `spans.find(s => s.error)?.error ?? null`
unfoldable pub first_error : List SpanDetail → Option TraceError
first_error [] = none
first_error (s ∷ rows) =
    let later = first_error rows in elim s.error [ some e ↦ some e | none ↦ later ]

-- The view, from its ordered rows
unfoldable pub view_of_rows : (ℕ → String) → LiveTrace → List (Span × ℕ) → TraceDetail
unfolding trace_input trace_output sum_from join first_error to_span_detail
view_of_rows format_date_time t rows = record {
  id = t.trace_id;
  workflow = or_text t.name "Untitled trace";
  status = if t.has_error then RunStatus.failed else RunStatus.completed;
  duration = t.duration_ms;
  total_cost = t.total_cost_usd;
  input_tokens = sum_from 0 (λ s. s.input_tokens) t.spans;
  output_tokens = sum_from 0 (λ s. s.output_tokens) t.spans;
  model = join (unique_from [] (select is_truthy (map (λ s. s.model) t.spans)));
  spans = map (to_span_detail t) rows;
  error = first_error (map (to_span_detail t) rows);
  output = trace_output t;
  version = none;
  started_at = some (format_date_time t.start_time_ms);
  ended_at = some (format_date_time t.end_time_ms);
  cached_tokens = none;
  provider = none;
  user = if is_truthy t.user_id then some t.user_id else none;
  session_id = none;
  environment = none;
  region = none;
  sdk = none;
  input = trace_input t;
  tags = none;
}

unfoldable pub to_trace_view : (ℕ → String) → LiveTrace → Option TraceDetail
unfolding view_of_rows
to_trace_view format_date_time t = do
  st ← order_spans t.spans
  some (view_of_rows format_date_time t st.ordered)

-- A row of the list of runs
pub record RunRow : Type 0 where
  pub id : String
  pub status : RunStatus
  pub time : String
  pub duration : ℕ
  pub cost : ℕ
  pub version : Option String

-- `toRunRow`, with `relativeTime` at the current time as an argument
unfoldable pub to_run_row : (ℕ → String) → Trace → RunRow
to_run_row relative_time t = record {
  id = t.trace_id;
  status = if t.has_error then RunStatus.failed else RunStatus.completed;
  time = relative_time t.start_time_ms;
  duration = t.duration_ms;
  cost = t.total_cost_usd;
  version = t.workflow_version;
}
