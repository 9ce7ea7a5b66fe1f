-- ===== src/TraceExplorer/ViewLaws.antt =====
-- What the view of a trace shows.
use mathlib.Core.List.{Perm, reverse}
use mathlib.Core.List.Perm
use tracium.Prelude.{
  ℕ, ◌≡◌, ◌≢◌, ◌↔◌, refl, sym, ap, ◌∙◌, subst, inl, inr, Bool, true, false, List, [], ◌∷◌, map,
  Option, none, some, String, arith, All, All_mem, All-of_mem, any, any-reverse, find, find-any,
  find-none, Bool-cases, Option-cases, text_key, if◌then◌else◌,
}
use tracium.Prelude.Sort.{sort, any-sort}
use tracium.Prelude.Maps.{Distinct}
use tracium.Prelude.Keyed.{map-map, mem-map, mem_of_mem-map}
use tracium.TraceInspector.{SpanDetail, TraceDetail}
use tracium.TraceExplorer.{Span, LiveTrace, by_start, is_root}
use tracium.TraceExplorer.View.{
  has_failed, span_error, to_span_detail, recorded, optional, or_recorded, root_span, trace_input,
  trace_output, first_error, view_of_rows, to_trace_view,
}
use tracium.TraceExplorer.Visits.{IsOrdering, order_spans_total}
use tracium.TraceExplorer.Rows.{row_span, IsOrdering-perm, IsOrdering-mem}

first_error_iff :
    (rows : List SpanDetail) → (first_error rows ≡ none) ↔ All (λ r. r.error ≡ none) rows
unfolding first_error
first_error_iff [] = (λ _. tt, λ _. refl)
first_error_iff (r ∷ rows) = ground (arith, first_error_iff rows)

none_if_iff : {A : Type 0} (b : Bool) (x : A) → ((if b then some x else none) ≡ none) ↔ (b ≡ false)
none_if_iff true x = (λ h. cc, λ h. cc)
none_if_iff false x = (λ _. refl, λ _. refl)

span_error_iff : (s : Span) → (span_error s ≡ none) ↔ (has_failed s ≡ false)
unfolding span_error
span_error_iff s = none_if_iff (has_failed s) _

error_of_row : (t : LiveTrace) (r : Span × ℕ) → (to_span_detail t r).error ≡ span_error r.0
unfolding to_span_detail
error_of_row t r = refl

first_error-rows_iff :
    (t : LiveTrace) (rows : List (Span × ℕ))
    → Distinct (map (λ s. s.span_id) t.spans)
    → IsOrdering t.spans rows
    → (first_error (map (to_span_detail t) rows) ≡ none) ↔ All (λ s. has_failed s ≡ false) t.spans
first_error-rows_iff t rows d o = (
  λ e.
      let fine = (first_error_iff (map (to_span_detail t) rows)).0 e in
      All-of_mem _ t.spans λ s m.
        let (r, n, same) = mem_of_mem-map row_span rows (IsOrdering-mem t.spans rows d o m) in
        let quiet = All_mem _ _ fine (mem-map (to_span_detail t) rows n) in
        subst (λ a. has_failed a ≡ false) (sym same)
          ((span_error_iff r.0).0 (sym (error_of_row t r) ∙ quiet)),
  λ fine. (first_error_iff (map (to_span_detail t) rows)).1 (
      All-of_mem _ _ λ row m.
        let (r, n, same) = mem_of_mem-map (to_span_detail t) rows m in
        ap (λ (x : SpanDetail). x.error) same
        ∙ error_of_row t r
        ∙ (span_error_iff r.0).1 (All_mem _ t.spans fine (All_mem _ rows o.listed n))),
)

-- `toTraceView` gives a view of every trace whose span ids are distinct and not empty. It has one
-- row for each span, and its error is missing exactly if no span has an error type or message.
pub to_trace_view_total :
    (format_date_time : ℕ → String) (t : LiveTrace)
    → All (λ s. s.span_id ≢ "") t.spans
    → Distinct (map (λ s. s.span_id) t.spans)
    → (v : TraceDetail) × (to_trace_view format_date_time t ≡ some v)
      × Perm (map (λ r. r.id) v.spans) (map (λ s. s.span_id) t.spans)
      × ((v.error ≡ none) ↔ All (λ s. has_failed s ≡ false) t.spans)
unfolding to_trace_view
to_trace_view_total format_date_time t named d =
    let (st, ran, o) = order_spans_total t.spans named in
    (
      view_of_rows format_date_time t st.ordered,
      rw ran,
      rw (map-map (to_span_detail t) (λ (r : SpanDetail). r.id) st.ordered) (
          rw map-map at
            (Perm.map (λ (s : Span). s.span_id) (IsOrdering-perm t.spans st.ordered d o))),
      first_error-rows_iff t st.ordered d o,
    )

recorded-optional_iff :
    (f : Span → Option String) (a : Option String) (l spans : List Span)
    → any (λ s. recorded (f s)) l ≡ any (λ s. recorded (f s)) spans
    → (recorded a ≡ true → any (λ s. recorded (f s)) spans ≡ true)
    → recorded (or_recorded a (optional (find (λ s. recorded (f s)) l) f))
      ≡ any (λ s. recorded (f s)) spans
recorded-optional_iff f a l spans same root = elim (Bool-cases (recorded a)) [
  | inl e ↦ rw e (e ∙ sym (root e))
  | inr e ↦ rw e (elim (Bool-cases (any (λ s. recorded (f s)) l)) [
    | inl some_text ↦
        let (s, found, text) = find-any (λ s. recorded (f s)) l some_text in
        rw found (text ∙ sym some_text ∙ same)
    | inr no_text ↦ rw (find-none (λ s. recorded (f s)) l no_text) (sym no_text ∙ same)
  ])
]

any_of_find :
    (p q : Span → Bool) (spans : List Span) (s : Span)
    → find p spans ≡ some s
    → q s ≡ true
    → any q spans ≡ true
any_of_find p q [] s f t = cc
any_of_find p q (x ∷ spans) s f t = elim (Bool-cases (p x)) [
  | inl e ↦
      let here : x ≡ s = ground arith in let holds : q x ≡ true = ap q here ∙ t in ground arith
  | inr e ↦ ground (arith, any_of_find p q spans s (ground arith) t)
]

root_recorded :
    (t : LiveTrace) (f : Span → Option String)
    → recorded (optional (root_span t) f) ≡ true
    → any (λ s. recorded (f s)) t.spans ≡ true
root_recorded t f h = elim (Option-cases (root_span t)) [
  | inl e ↦ (let bad : recorded (optional none f) ≡ true = rw e at h in cc)
  | inr (s, e) ↦ any_of_find (is_root t.spans) (λ s. recorded (f s)) t.spans s e (rw e at h)
]

-- The Input and Output tabs of a trace are filled exactly if some span recorded a text that is not
-- empty, on the root or on any other span.
pub trace_texts_iff :
    (t : LiveTrace)
    → (recorded (trace_input t) ≡ any (λ s. recorded s.input) t.spans)
      × (recorded (trace_output t) ≡ any (λ s. recorded s.output) t.spans)
unfolding trace_input trace_output
trace_texts_iff t = (
  recorded-optional_iff (λ s. s.input) (optional (root_span t) (λ s. s.input))
      (sort by_start t.spans) t.spans (any-sort by_start _ t.spans)
      (root_recorded t (λ s. s.input)),
  recorded-optional_iff (λ s. s.output) (optional (root_span t) (λ s. s.output))
      (reverse (sort by_start t.spans)) t.spans
      (any-reverse _ (sort by_start t.spans) ∙ any-sort by_start _ t.spans)
      (root_recorded t (λ s. s.output)),
)
