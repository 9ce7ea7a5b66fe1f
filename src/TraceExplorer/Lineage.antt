-- ===== src/TraceExplorer/Lineage.antt =====
-- `toTraceView` and `TraceView` agree on the tree: the ancestors that the view finds by walking up
-- the rows are the spans that the trace names as parents.
use tracium.Prelude.{
  ℕ, suc, ◌<◌, ◌≡◌, ◌≢◌, refl, sym, ap, ◌∙◌, subst, List, [], ◌∷◌, ◌++◌, map, some, arith, All,
  length,
}
use tracium.TraceInspector.{SpanDetail, ancestor_ids}
use tracium.TraceExplorer.{Span, LiveTrace, Order, order_spans}
use tracium.TraceExplorer.Preorder.{IsUnder, Preorder, done, close, row}
use tracium.TraceExplorer.View.{to_span_detail}
use tracium.TraceExplorer.Visits.{order_spans_total}

-- The rows that precede, nearest first, as `find_index` gathers them.
abbrev pub behind : LiveTrace → List SpanDetail → List (Span × ℕ) → List SpanDetail
behind t before [] = before
behind t before (r ∷ rows) = behind t (to_span_detail t r ∷ before) rows

-- `path` holds the parent of `s`, the parent of that, and so on.
abbrev pub IsLineage : Span → List Span → Type 0
IsLineage s [] = Unit
IsLineage s (p ∷ path) = (s.parent_span_id ≡ p.span_id) × IsLineage p path

-- Walking up from each depth at which a row is open finds the open rows.
Finds : List Span → List SpanDetail → Type 0
Finds [] before = Unit
Finds (p ∷ path) before =
    (ancestor_ids before (suc (length path)) ≡ map (λ s. s.span_id) (p ∷ path)) × Finds path before

ancestor_ids_at_zero : (before : List SpanDetail) → ancestor_ids before 0 ≡ []
unfolding ancestor_ids
ancestor_ids_at_zero [] = refl
ancestor_ids_at_zero (s ∷ before) = refl

Finds-top :
    (path : List Span) (before : List SpanDetail)
    → Finds path before
    → ancestor_ids before (length path) ≡ map (λ s. s.span_id) path
unfolding Finds
Finds-top [] before f = ancestor_ids_at_zero before
Finds-top (p ∷ path) before f = f.0

-- A row at this depth or deeper is passed over.
Finds-deeper :
    (t : LiveTrace) (path : List Span) (before : List SpanDetail) (r : Span × ℕ)
    → ¬ (r.1 < length path)
    → Finds path before
    → Finds path (to_span_detail t r ∷ before)
unfolding Finds ancestor_ids to_span_detail
Finds-deeper t [] before r deep f = tt
Finds-deeper t (p ∷ path) before r deep (f, fs) =
    (ground (arith, f), Finds-deeper t path before r (omega arith) fs)

Finds-row :
    (t : LiveTrace) (path : List Span) (before : List SpanDetail) (s : Span) (depth : ℕ)
    → depth ≡ length path
    → Finds path before
    → Finds (s ∷ path) (to_span_detail t (s, depth) ∷ before)
unfolding Finds ancestor_ids to_span_detail
Finds-row t path before s depth d f =
    (ground (arith, Finds-top path before f), Finds-deeper t path before (s, depth) (omega arith) f)

-- A row at `depth` has that many ancestors; the walk finds them, and they are its lineage.
pub record HasLineage (before : List SpanDetail) (s : Span) (depth : ℕ) : Type 0 where
  pub path : List Span
  pub walked : ancestor_ids before depth ≡ map (λ p. p.span_id) path
  pub long : length path ≡ depth
  pub lineage : IsLineage s path

abbrev IsChained : List Span → Type 0
IsChained [] = Unit
IsChained (p ∷ path) = IsLineage p path

IsChained-tail : (p : Span) (path : List Span) → IsLineage p path → IsChained path
IsChained-tail p [] l = tt
IsChained-tail p (q ∷ path) l = l.1

IsLineage-of_under :
    (s : Span) (path : List Span) → IsUnder s path → IsChained path → IsLineage s path
IsLineage-of_under s [] u c = tt
IsLineage-of_under s (p ∷ path) u c = (u, c)

preorder-HasLineage :
    (t : LiveTrace) {path : List Span} {rows : List (Span × ℕ)}
    → Preorder path rows
    → (before : List SpanDetail) → Finds path before
    → IsChained path
    → (pre post : List (Span × ℕ)) (s : Span) (depth : ℕ) → rows ≡ pre ++ (s, depth) ∷ post
    → HasLineage (behind t before pre) s depth
unfolding Finds
preorder-HasLineage t done before f c [] post s depth e = cc
preorder-HasLineage t done before f c (r ∷ pre) post s depth e = cc
preorder-HasLineage t (close {p = p} {path = path} q) before f c pre post s depth e =
    preorder-HasLineage t q before f.1 (IsChained-tail p path c) pre post s depth e
preorder-HasLineage t (row {path = path} s' d' ed u q) before f c [] post s depth e =
    let same : s' ≡ s = ground arith in
    let level : d' ≡ depth = ground arith in
    record {
      path = path;
      walked = ap (ancestor_ids before) (sym level ∙ ed) ∙ Finds-top path before f;
      long = sym ed ∙ level;
      lineage = subst (λ a. IsLineage a path) same (IsLineage-of_under s' path u c);
    }
preorder-HasLineage t (row {path = path} s' d' ed u q) before f c (r ∷ pre) post s depth e =
    let here : (s', d') ≡ r = ground arith in
    subst (λ a. HasLineage (behind t (to_span_detail t a ∷ before) pre) s depth) here
      (preorder-HasLineage t q (to_span_detail t (s', d') ∷ before)
        (Finds-row t path before s' d' ed f) (IsLineage-of_under s' path u c) pre post s depth
        (ground arith))

-- The rows that `toTraceView` orders suit `revealSpan`: from the row of a span the walk over the
-- rows above gathers the ids of its parent, of the parent of that, and so on, as many as its depth.
pub order_spans-HasLineage :
    (t : LiveTrace)
    → All (λ s. s.span_id ≢ "") t.spans
    → (st : Order) × (order_spans t.spans ≡ some st)
      × ((pre post : List (Span × ℕ)) (s : Span) (depth : ℕ)
          → st.ordered ≡ pre ++ (s, depth) ∷ post
          → HasLineage (behind t [] pre) s depth)
unfolding Finds
order_spans-HasLineage t named =
    let (st, ran, o) = order_spans_total t.spans named in
    (st, ran, λ pre post s depth e. preorder-HasLineage t o.tree [] tt tt pre post s depth e)
