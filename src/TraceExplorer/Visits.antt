-- ===== src/TraceExplorer/Visits.antt =====
-- `visit` ends, emits each span once, and emits the rows in tree pre-order.
use mathlib.Core.List.{append-nil, append_assoc}
use tracium.Prelude.{
  ℕ, zero, suc, ◌<◌, ◌≤◌, ◌≡◌, ◌≢◌, if_false, refl, sym, ap, ◌∙◌, subst, inl, inr, Bool, true,
  false, List, [], ◌∷◌, ◌++◌, Option, some, String, Memᴰ, arith, if◌then◌else◌, text_key,
  Bool-cases, same_refl, All, All_mem, All-map, All-of_mem, length,
}
use tracium.Prelude.Maps.{has, add, has-add, Distinct}
use tracium.TraceExplorer.{Span, Order, visit_each, visit, emit, order_spans, children_of}
use tracium.TraceExplorer.Children.{children_of-parent, roots-IsRoot}
use tracium.TraceExplorer.Preorder.{IsUnder, Preorder, done, close, row, AreTops}
pub use tracium.TraceExplorer.Closed.{row_ids}
use tracium.TraceExplorer.Closed.{IsFull, seen_rooted}
use tracium.TraceExplorer.Steps.{
  IsTracked, Grew, Grew-refl, Grew-trans, unseen, unseen_mono, unseen-add, has-add_old,
  IsTracked-emit, Ran, IsBase, HasRooted, IsStart, IsBase-later, IsStart-later, IsTop-of_start,
}

module _ (spans : List Span) (named : All (λ s. s.span_id ≢ "") spans) where
  -- What a visitor promises for spans of the trace when its fuel is above the unseen ones.
  abbrev Visits : (Span → ℕ → Order → Option Order) → ℕ → Type 0
  Visits v fuel =
      (s : Span) (path : List Span) (st : Order) (depth : ℕ)
      → depth ≡ length path
      → Memᴰ s spans
      → IsUnder s path
      → IsBase spans path st
      → IsStart spans path st.seen s
      → IsTracked spans st
      → unseen st.seen spans < fuel
      → (r : Ran spans path st (v s depth st)) × (has s.span_id r.after.seen ≡ true)

  visit_each-Ran :
      (v : Span → ℕ → Order → Option Order) (fuel : ℕ)
      → Visits v fuel
      → (group path : List Span) (st : Order) (depth : ℕ) → depth ≡ length path
      → All (λ c. Memᴰ c spans × IsUnder c path × IsStart spans path st.seen c) group
      → IsBase spans path st
      → IsTracked spans st
      → unseen st.seen spans < fuel
      → (r : Ran spans path st (visit_each v group depth st)) × All
          (λ c. has c.span_id r.after.seen ≡ true)
          group
  unfolding visit_each
  visit_each-Ran v fuel h [] path st depth d _ _ t f =
      (record { after = st; ran = refl; grew = Grew-refl spans path st; tracked = t }, tt)
  visit_each-Ran v fuel h (c ∷ group) path st depth d ((m, u, start), ms) base t f =
      let (r, seen) = h c path st depth d m u base start t f in
      let less = unseen_mono st.seen r.after.seen spans r.grew.keeps in
      let (q, seen_rest) =
        visit_each-Ran v fuel h group path r.after depth d
          (All-map _ _ group
            (λ c (m, u, start).
              (m, u, IsStart-later spans path st.seen r.after.seen c r.grew.keeps start))
            ms)
          (IsBase-later spans path st r.after r.grew base) r.tracked (omega arith) in
      (
        record {
          after = q.after;
          ran = rw r.ran q.ran;
          grew = Grew-trans spans path st r.after q.after r.grew q.grew;
          tracked = q.tracked;
        },
        (q.grew.keeps c.span_id seen, seen_rest),
      )

  visit-Ran : (fuel : ℕ) → Visits (visit (children_of spans) fuel) fuel
  unfolding visit
  visit-Ran zero s path st depth d m u base start t f = absurd (omega arith)
  visit-Ran (suc fuel) s path st depth d m u base start t f =
      elim (Bool-cases (has s.span_id st.seen)) [
        | inl old ↦
            (record { after = st; ran = rw old; grew = Grew-refl spans path st; tracked = t }, old)
        | inr new ↦ enter new (
            visit_each-Ran (visit (children_of spans) fuel) fuel (visit-Ran fuel)
              (children_of spans s.span_id) (s ∷ path) (emit s depth st) (suc depth) (ap suc d)
              (All-map _ _ (children_of spans s.span_id) (λ c (n, e). (n, e, tt))
                (children_of-parent spans s.span_id (All_mem _ spans named m)))
              tt (IsTracked-emit spans s depth st m new t)
              (let less = unseen-add s st.seen spans m new in omega arith))
      ]
    where
      emitted : has s.span_id st.seen ≡ false → add s.span_id st.seen ≡ st.seen ++ s.span_id ∷ []
      emitted new = if_false _ new

      inner : Option Order
      inner =
          visit_each (visit (children_of spans) fuel) (children_of spans s.span_id) (suc depth)
            (emit s depth st)

      enter :
          has s.span_id st.seen ≡ false
          → (r : Ran spans (s ∷ path) (emit s depth st) (
              visit_each
                (visit (children_of spans) fuel)
                (children_of spans s.span_id)
                (suc depth)
                (emit s depth st)))
            × All (λ c. has c.span_id r.after.seen ≡ true) (children_of spans s.span_id)
          → (r : Ran spans path st (visit (children_of spans) (suc fuel) s depth st)) × (has
                s.span_id r.after.seen
              ≡ true)
      enter new (r, below) = (
        record {
          after = r.after;
          ran = ap (λ (b : Bool). if b then some st else inner) new ∙ r.ran;
          grew = record {
            keeps = λ k h. r.grew.keeps k (has-add_old k s.span_id st.seen h);
            block = (s, depth) ∷ r.grew.block;
            appended = r.grew.appended ∙ append_assoc st.ordered ((s, depth) ∷ []) r.grew.block;
            fits = λ rows p. row s depth d u (r.grew.fits rows (close p));
            seen =
                r.grew.seen
                ∙ ap (λ l. l ++ row_ids r.grew.block) (emitted new)
                ∙ append_assoc st.seen (s.span_id ∷ []) (row_ids r.grew.block);
            full = (below, r.grew.full);
            tops = (
              λ z. IsTop-of_start spans path st s depth d z t.ids m new base start,
              subst (λ l. AreTops spans l r.grew.block) (emitted new) r.grew.tops,
            );
          };
          tracked = r.tracked;
        },
        r.grew.keeps s.span_id (has-add s.span_id s.span_id st.seen ∙ rw (same_refl s.span_id)),
      )

unseen-le-length : (seen : List String) (spans : List Span) → unseen seen spans ≤ length spans
unfolding unseen
unseen-le-length seen [] = omega arith
unseen-le-length seen (s ∷ spans) = ground (arith, unseen-le-length seen spans)

-- The rows of a trace: in tree pre-order, each id once, all from the trace, and none left out.
pub record IsOrdering (spans : List Span) (rows : List (Span × ℕ)) : Type 0 where
  pub tree : Preorder [] rows
  pub tops : AreTops spans [] rows
  pub once : Distinct (row_ids rows)
  pub listed : All (λ r. Memᴰ r.0 spans) rows
  pub complete : All (λ s. has s.span_id (row_ids rows) ≡ true) spans

HasRooted-of_roots :
    (spans : List Span) (st : Order)
    → st.seen ≡ row_ids st.ordered
    → IsFull spans st.seen st.ordered
    → All (λ c. has c.span_id st.seen ≡ true) (children_of spans "")
    → HasRooted spans st.seen
HasRooted-of_roots spans st ids full roots t h =
    ap (has t.span_id) ids
    ∙ seen_rooted spans st.ordered (subst (λ l. IsFull spans l st.ordered) ids full)
        (subst (λ l. All (λ c. has c.span_id l ≡ true) (children_of spans "")) ids roots) t h

abbrev no_rows : Order
no_rows = record { seen = []; ordered = [] }

IsOrdering-of_runs :
    (spans : List Span) (b : Order)
    → Grew spans [] no_rows b
    → IsTracked spans b
    → All (λ s. has s.span_id b.seen ≡ true) spans
    → IsOrdering spans b.ordered
IsOrdering-of_runs spans b g t all = record {
  tree = subst (Preorder []) (append-nil g.block ∙ sym g.appended) (g.fits [] done);
  tops = subst (AreTops spans []) (sym g.appended) g.tops;
  once = subst Distinct t.ids t.distinct;
  listed = t.listed;
  complete = subst (λ ids. All (λ s. has s.span_id ids ≡ true) spans) t.ids all;
}

-- If no span has the empty id, the loops of `toTraceView` end, with a row for the id of every span,
-- each id once and all from the trace, in tree pre-order: a row at depth d + 1 stands below an open
-- row at depth d that it names as its parent, and a row at depth 0 is that of a root, or of a span
-- whose parents lead to no root and whose parent has no row above.
pub order_spans_total :
    (spans : List Span)
    → All (λ s. s.span_id ≢ "") spans
    → (st : Order) × (order_spans spans ≡ some st) × IsOrdering spans st.ordered
unfolding order_spans
order_spans_total spans named =
    let fuel = suc (length spans) in
    let v = visit (children_of spans) fuel in
    let enough : (seen : List String) → unseen seen spans < fuel =
      λ seen. (let le = unseen-le-length seen spans in omega arith) in
    let (r, roots) =
      visit_each-Ran spans named v fuel (visit-Ran spans named fuel) (children_of spans "") []
        no_rows 0 refl (All-map _ _ _ (λ c (m, root). (m, tt, inl root)) (roots-IsRoot spans)) tt
        (record { ids = refl; distinct = tt; listed = tt }) (enough []) in
    let base = IsBase-later spans [] no_rows r.after r.grew tt in
    let rooted : HasRooted spans r.after.seen =
      HasRooted-of_roots spans r.after r.tracked.ids base roots in
    let (q, all) =
      visit_each-Ran spans named v fuel (visit-Ran spans named fuel) spans [] r.after 0 refl
        (All-of_mem _ spans (λ c m. (m, tt, inr rooted))) base r.tracked (enough r.after.seen) in
    (
      q.after,
      rw r.ran q.ran,
      IsOrdering-of_runs spans q.after (Grew-trans spans [] no_rows r.after q.after r.grew q.grew)
          q.tracked all,
    )
