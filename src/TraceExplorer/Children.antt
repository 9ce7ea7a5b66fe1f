-- ===== src/TraceExplorer/Children.antt =====
-- The groups of `childrenOf`.
use mathlib.Core.List.{append-nil, append_assoc}
use tracium.Prelude.{
  ◌≡◌, ◌≢◌, refl, sym, ap, ◌∙◌, inl, inr, Bool, true, List, [], ◌∷◌, ◌++◌, String, Memᴰ, arith,
  ◌===◌, text_key, select, Bool-cases, eq_of_same, All, All-of_mem, select_holds, All_mem,
  mem_of_mem-select,
}
use tracium.Prelude.Sort.{sort, All-sort}
use tracium.Prelude.Maps.{get, set, get-set}
use tracium.TraceInspector.{or_default}
use tracium.TraceExplorer.{
  Span, group_key, group_spans, by_start, sort_groups, children_of, is_root,
}

group_spans-get :
    (key : Span → String) (id : String) (m : List (String × List Span)) (spans : List Span)
    → or_default (get id (group_spans key m spans)) []
      ≡ or_default (get id m) [] ++ select (λ s. key s === id) spans
unfolding group_spans
group_spans-get key id m [] = sym (append-nil _)
group_spans-get key id m (s ∷ spans) =
    let group = or_default (get (key s) m) [] ++ s ∷ [] in
    ground (
      arith,
      group_spans-get key id (set (key s) group m) spans,
      get-set (key s) id group m,
      eq_of_same (key s) id,
      append_assoc (or_default (get id m) []) (s ∷ []) (select (λ t. key t === id) spans),
    )

sort_groups-get :
    (id : String) (m : List (String × List Span))
    → or_default (get id (sort_groups m)) [] ≡ sort by_start (or_default (get id m) [])
unfolding sort_groups sort
sort_groups-get id [] = refl
sort_groups-get id ((k, group) ∷ m) = elim (Bool-cases (k === id)) [
  | inl here ↦ rw here
  | inr other ↦ rw other (sort_groups-get id m)
]

-- The children of an id are the spans with that group key, by their start, and in the order of
-- the response where they start together.
pub children_of-sort :
    (spans : List Span) (id : String)
    → children_of spans id ≡ sort by_start (select (λ s. group_key spans s === id) spans)
unfolding children_of
children_of-sort spans id =
    sort_groups-get id (group_spans (group_key spans) [] spans)
    ∙ ap (sort by_start) (group_spans-get (group_key spans) id [] spans)

-- A child of an id that is not empty names it as its parent.
pub children_of-parent :
    (spans : List Span) (id : String)
    → id ≢ ""
    → All (λ c. Memᴰ c spans × (c.parent_span_id ≡ id)) (children_of spans id)
unfolding group_key
children_of-parent spans id h =
    let mine : Span → Bool = λ s. group_key spans s === id in
    rw children_of-sort (
      All-sort by_start _ (select mine spans)
        (All-of_mem _ (select mine spans) λ c m. (mem_of_mem-select mine spans m, named c m)))
  where
    named :
        (c : Span) → Memᴰ c (select (λ s. group_key spans s === id) spans) → c.parent_span_id ≡ id
    named c m =
        let kept = All_mem _ _ (select_holds (λ s. group_key spans s === id) spans) m in
        let key : group_key spans c ≡ id = eq_of_same _ id kept in ground arith

root_of_key : (spans : List Span) (s : Span) → group_key spans s ≡ "" → is_root spans s ≡ true
unfolding group_key is_root
root_of_key spans s h = elim (Bool-cases (is_root spans s)) [
  | inl e ↦ e
  | inr e ↦
      let empty : s.parent_span_id ≡ "" = rw e at h in
      let same = (text_key.same_iff s.parent_span_id "").1 empty in rw same refl
]

-- The roots are spans of the trace that have no parent in it.
pub roots-IsRoot :
    (spans : List Span) → All (λ c. Memᴰ c spans × (is_root spans c ≡ true)) (children_of spans "")
roots-IsRoot spans =
    let mine : Span → Bool = λ s. group_key spans s === "" in
    rw children_of-sort (
      All-sort by_start _ (select mine spans) (
        All-of_mem _ (select mine spans) λ c m. (
          mem_of_mem-select mine spans m,
          root_of_key spans c (
              eq_of_same (group_key spans c) ""
                (All_mem _ (select mine spans) (select_holds mine spans) m)),
        )))
