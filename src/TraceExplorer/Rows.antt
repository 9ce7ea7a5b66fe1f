-- ===== src/TraceExplorer/Rows.antt =====
-- Each span of the trace stands in one row, and a row's nearest shallower row is its parent.
use mathlib.Core.List.{Perm}
use tracium.Prelude.{ℕ, ◌≡◌, ◌≢◌, sym, subst, List, map, some, Memᴰ, text_key, All, All_mem}
use tracium.Prelude.Maps.{Distinct}
use tracium.Prelude.Keyed.{map-map, mem_of_mem-map, perm_of_keys, mem_of_keys}
use tracium.TraceExplorer.{Span, Order, order_spans}
use tracium.TraceExplorer.Visits.{IsOrdering, order_spans_total}

abbrev pub row_span : Span × ℕ → Span
row_span r = r.0

pub IsOrdering-mem :
    (spans : List Span) (rows : List (Span × ℕ))
    → Distinct (map (λ s. s.span_id) spans)
    → IsOrdering spans rows
    → {a : Span} → Memᴰ a spans
    → Memᴰ a (map row_span rows)
IsOrdering-mem spans rows d o =
    mem_of_keys (λ (s : Span). s.span_id) (map row_span rows) spans d
      (λ a m.
        let (r, n, e) = mem_of_mem-map row_span rows m in
        subst (λ s. Memᴰ s spans) (sym e) (All_mem _ rows o.listed n))
      (λ a m. rw map-map (All_mem _ spans o.complete m))

pub IsOrdering-perm :
    (spans : List Span) (rows : List (Span × ℕ))
    → Distinct (map (λ s. s.span_id) spans)
    → IsOrdering spans rows
    → Perm (map row_span rows) spans
IsOrdering-perm spans rows d o =
    perm_of_keys (λ (s : Span). s.span_id) (map row_span rows) spans (rw map-map o.once) d
      (λ a m.
        let (r, n, e) = mem_of_mem-map row_span rows m in
        subst (λ s. Memᴰ s spans) (sym e) (All_mem _ rows o.listed n))
      (λ a m. rw map-map (All_mem _ spans o.complete m))

-- If the ids of the spans are distinct and none is empty, the rows hold each span exactly once.
pub order_spans-perm :
    (spans : List Span)
    → All (λ s. s.span_id ≢ "") spans
    → Distinct (map (λ s. s.span_id) spans)
    → (st : Order) × (order_spans spans ≡ some st) × Perm (map row_span st.ordered) spans
order_spans-perm spans named d =
    let (st, ran, o) = order_spans_total spans named in
    (st, ran, IsOrdering-perm spans st.ordered d o)
