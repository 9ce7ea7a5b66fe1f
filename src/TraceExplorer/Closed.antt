-- ===== src/TraceExplorer/Closed.antt =====
-- Rows whose children have all been emitted.
use mathlib.Core.List.{append-nil, append_assoc}
use tracium.Prelude.{
  ℕ, ◌≡◌, refl, sym, ap, ◌∙◌, subst, inl, inr, true, false, List, [], ◌∷◌, ◌++◌, map, String, Memᴰ,
  arith, ◌===◌, text_key, same_refl, select, Bool-cases, eq_of_same, mem-select, All, All_mem,
  All-map,
}
use tracium.Prelude.Sort.{mem-sort}
use tracium.Prelude.Maps.{has}
use tracium.TraceExplorer.{Span, is_root, group_key, by_start, children_of}
use tracium.TraceExplorer.Children.{children_of-sort}
use tracium.TraceExplorer.Preorder.{IsRooted, AreTops}

abbrev pub row_ids : List (Span × ℕ) → List String
row_ids rows = map (λ r. r.0.span_id) rows

-- Each row's children are among the ids.
abbrev pub IsFull : List Span → List String → List (Span × ℕ) → Type 0
IsFull spans seen rows =
    All (λ r. All (λ c. has c.span_id seen ≡ true) (children_of spans r.0.span_id)) rows

pub IsFull-later :
    (spans : List Span) (seen seen' : List String) (rows : List (Span × ℕ))
    → ((k : String) → has k seen ≡ true → has k seen' ≡ true)
    → IsFull spans seen rows
    → IsFull spans seen' rows
IsFull-later spans seen seen' rows keeps h =
    All-map _ _ rows (λ r. All-map _ _ (children_of spans r.0.span_id) (λ c. keeps c.span_id)) h

-- A span of the trace is a child of the id that it has as its group's key.
pub mem-children_of :
    (spans : List Span) (s : Span) → Memᴰ s spans → Memᴰ s (children_of spans (group_key spans s))
mem-children_of spans s m = subst (Memᴰ s) (sym (children_of-sort spans (group_key spans s))) (
    mem-sort by_start (select (λ t. group_key spans t === group_key spans s) spans) (
      mem-select (λ t. group_key spans t === group_key spans s) spans
        (same_refl (group_key spans s)) m))

child_key :
    (spans : List Span) (s : Span) → is_root spans s ≡ false → group_key spans s ≡ s.parent_span_id
unfolding group_key
child_key spans s h = rw h refl

root_key : (spans : List Span) (s : Span) → is_root spans s ≡ true → group_key spans s ≡ ""
unfolding group_key
root_key spans s h = rw h refl

row_of_id :
    (k : String) (rows : List (Span × ℕ))
    → has k (row_ids rows) ≡ true
    → (r : Span × ℕ) × Memᴰ r rows × (r.0.span_id ≡ k)
row_of_id k [] h = absurd (ground arith)
row_of_id k (r ∷ rows) h = elim (Bool-cases (r.0.span_id === k)) [
  | inl e ↦ (r, Memᴰ.head refl, eq_of_same r.0.span_id k e)
  | inr e ↦ (let (q, m, same) = row_of_id k rows (ground (arith, h)) in (q, Memᴰ.tail m, same))
]

-- Below a row that is full a child has been emitted.
pub seen_child :
    (spans : List Span) (seen : List String) (rows : List (Span × ℕ)) (s : Span)
    → IsFull spans seen rows
    → Memᴰ s spans
    → is_root spans s ≡ false
    → has s.parent_span_id (row_ids rows) ≡ true
    → has s.span_id seen ≡ true
seen_child spans seen rows s full m child h =
    let (r, n, same) = row_of_id s.parent_span_id rows h in
    let key : group_key spans s ≡ r.0.span_id = child_key spans s child ∙ sym same in
    All_mem _ (children_of spans r.0.span_id) (All_mem _ rows full n)
      (subst (λ k. Memᴰ s (children_of spans k)) key (mem-children_of spans s m))

pub seen_root :
    (spans : List Span) (seen : List String) (s : Span)
    → All (λ c. has c.span_id seen ≡ true) (children_of spans "")
    → Memᴰ s spans
    → is_root spans s ≡ true
    → has s.span_id seen ≡ true
seen_root spans seen s all m root =
    All_mem _ (children_of spans "") all (
      subst (λ k. Memᴰ s (children_of spans k)) (root_key spans s root) (mem-children_of spans s m))

-- Once the roots have been visited, each span whose parents lead to a root has been.
pub seen_rooted :
    (spans : List Span) (rows : List (Span × ℕ))
    → IsFull spans (row_ids rows) rows
    → All (λ c. has c.span_id (row_ids rows) ≡ true) (children_of spans "")
    → (s : Span) → IsRooted spans s
    → has s.span_id (row_ids rows) ≡ true
seen_rooted spans rows full all s (IsRooted.root m root) =
    seen_root spans (row_ids rows) s all m root
seen_rooted spans rows full all s (IsRooted.child {p = p} h m child e) =
    seen_child spans (row_ids rows) rows s full m child
      (ap (λ k. has k (row_ids rows)) e ∙ seen_rooted spans rows full all p h)

pub AreTops-append :
    (spans : List Span) (above : List String) (a b : List (Span × ℕ))
    → AreTops spans above a
    → AreTops spans (above ++ row_ids a) b
    → AreTops spans above (a ++ b)
AreTops-append spans above [] b _ h = subst (λ l. AreTops spans l b) (append-nil above) h
AreTops-append spans above ((s, depth) ∷ a) b (t, ts) h = (
  t,
  AreTops-append spans (above ++ s.span_id ∷ []) a b ts
      (subst (λ l. AreTops spans l b) (sym (append_assoc above (s.span_id ∷ []) (row_ids a))) h),
)
