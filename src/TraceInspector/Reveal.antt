-- ===== src/TraceInspector/Reveal.antt =====
-- `revealSpan` and `toggleCollapse`.
use tracium.Prelude.{
  ℕ, ◌≡◌, refl, sym, ap, ◌∙◌, inl, inr, Bool, true, false, not, List, [], ◌∷◌, Option, none, some,
  String, Memᴰ, arith, if◌then◌else◌, ◌===◌, text_key, number_key, All, any, find, map, Bool-cases,
  eq_of_same, same_refl, All-of_mem,
}
use mathlib.Core.List.Memᴰ
use tracium.Prelude.Maps.{has, delete, has-delete, has-add}
use tracium.TraceInspector.{
  SpanDetail, ViewState, is_folded, ancestor_ids, delete_all, visible_spans, find_index, expand,
  reveal_span, toggle_collapse,
}
use tracium.TraceInspector.Ancestors.{ancestors, is_hidden, outline}
use tracium.TraceInspector.Collapse.{visible_spans-outline}

has-delete_all :
    (k : String) (ks s : List String)
    → has k (delete_all ks s) ≡ (if has k ks then false else has k s)
unfolding delete_all
has-delete_all k [] s = refl
has-delete_all k (a ∷ ks) s = ground (arith, has-delete_all k ks (delete a s), has-delete k a s)

-- `depth > 0` stops the walk where nothing can be shallower.
ancestors_at_zero : (before : List SpanDetail) → ancestors before 0 ≡ []
unfolding ancestors
ancestors_at_zero [] = refl
ancestors_at_zero (s ∷ before) = ground (arith, ancestors_at_zero before)

-- The walk gathers the ids of the ancestors.
ancestor_ids-ancestors :
    (before : List SpanDetail) (depth : ℕ)
    → ancestor_ids before depth ≡ map (λ s. s.id) (ancestors before depth)
unfolding ancestor_ids ancestors
ancestor_ids-ancestors [] depth = refl
ancestor_ids-ancestors (s ∷ before) depth = ground (
  arith,
  ancestors_at_zero before,
  ancestor_ids-ancestors before depth,
  ancestor_ids-ancestors before s.depth,
)

has-map_id : (s : SpanDetail) (l : List SpanDetail) → Memᴰ s l → has s.id (map (λ t. t.id) l) ≡ true
has-map_id s [] m = elim m [ ]
has-map_id s (t ∷ l) (Memᴰ.head e) = ground (arith, same_refl t.id)
has-map_id s (t ∷ l) (Memᴰ.tail m) = ground (arith, has-map_id s l m)

unfolded_of_removed :
    (collapsed : List String) (l : List SpanDetail)
    → All (λ s. has s.id collapsed ≡ false) l
    → any (is_folded collapsed) l ≡ false
unfolded_of_removed collapsed [] _ = refl
unfolded_of_removed collapsed (s ∷ l) (h, hs) = ground (arith, unfolded_of_removed collapsed l hs)

-- After the deletions no ancestor of the row is collapsed.
expanded :
    (collapsed : List String) (before : List SpanDetail) (depth : ℕ)
    → is_hidden (delete_all (ancestor_ids before depth) collapsed) before depth ≡ false
unfolding is_hidden
expanded collapsed before depth = rw ancestor_ids-ancestors (
    unfolded_of_removed _ (ancestors before depth) (
      All-of_mem _ (ancestors before depth) λ s m.
        has-delete_all s.id (map (λ t. t.id) (ancestors before depth)) collapsed
        ∙ ap (λ (b : Bool). if b then false else has s.id collapsed) (has-map_id s _ m)))

outline-mem :
    (id : String) (collapsed : List String) (before spans b : List SpanDetail) (s : SpanDetail)
    → find_index id before spans ≡ some (b, s)
    → is_hidden collapsed b s.depth ≡ false
    → Memᴰ s (outline collapsed before spans)
unfolding find_index outline
outline-mem id collapsed before [] b s f h = cc
outline-mem id collapsed before (t ∷ rest) b s f h = elim (Bool-cases (t.id === id)) [
  | inl here ↦
      let same : t ≡ s = ground arith in
      let prefix : before ≡ b = ground arith in
      let shown : is_hidden collapsed before t.depth ≡ false =
        ap (λ p. is_hidden collapsed p t.depth) prefix
        ∙ ap (λ (u : SpanDetail). is_hidden collapsed b u.depth) same
        ∙ h in
      rw shown (Memᴰ.head (sym same))
  | inr later ↦
      let ih = outline-mem id collapsed (t ∷ before) rest b s (ground arith) h in
      elim (Bool-cases (is_hidden collapsed before t.depth)) [
        | inl hidden ↦ rw hidden ih
        | inr shown ↦ rw shown (Memᴰ.tail ih)
      ]
]

-- The search stops at the first row with the id.
find_index-find :
    (id : String) (before spans : List SpanDetail)
    → any (λ s. s.id === id) spans ≡ true
    → (b : List SpanDetail) × (s : SpanDetail) × (find_index id before spans ≡ some (b, s))
      × (find (λ t. t.id === id) spans ≡ some s)
unfolding find_index
find_index-find id before [] h = cc
find_index-find id before (t ∷ rest) h = elim (Bool-cases (t.id === id)) [
  | inl here ↦ (before, t, ground arith, ground arith)
  | inr later ↦
      let (b, s, f, g) = find_index-find id (t ∷ before) rest (ground arith) in
      (b, s, ground arith, ground arith)
]

-- After `revealSpan` with the id of a row, the row that the inspector shows, the first with that
-- id, is among the rows that are shown, whatever was collapsed before.
pub reveal_span-visible :
    (spans : List SpanDetail) (id : String) (st : ViewState)
    → any (λ s. s.id === id) spans ≡ true
    → (s : SpanDetail) × (find (λ t. t.id === (reveal_span spans id st).active_span_id) spans
        ≡ some s)
      × Memᴰ s (visible_spans spans (reveal_span spans id st).collapsed)
unfolding reveal_span
reveal_span-visible spans id st h =
    let (b, s, f, g) = find_index-find id [] spans h in
    (
      s,
      g,
      rw (visible_spans-outline, f)
          (outline-mem id _ [] spans b s f (expanded st.collapsed b s.depth)),
    )

folded_mono :
    (c c' : List String) (l : List SpanDetail)
    → ((k : String) → has k c ≡ false → has k c' ≡ false)
    → any (is_folded c) l ≡ false
    → any (is_folded c') l ≡ false
folded_mono c c' [] le h = refl
folded_mono c c' (s ∷ l) le h = ground (arith, le s.id, folded_mono c c' l le)

outline_mono :
    (c c' : List String) (before spans : List SpanDetail) {s : SpanDetail}
    → ((k : String) → has k c ≡ false → has k c' ≡ false)
    → Memᴰ s (outline c before spans)
    → Memᴰ s (outline c' before spans)
unfolding outline is_hidden
outline_mono c c' before [] le m = elim m [ ]
outline_mono c c' before (t ∷ rest) le m = elim (Bool-cases (is_hidden c before t.depth)) [
  | inl hidden ↦ later (outline_mono c c' (t ∷ before) rest le (rw hidden at m))
  | inr shown ↦
      rw (folded_mono c c' (ancestors before t.depth) le shown)
        (elim (Memᴰ.cases_cons (rw shown at m)) [
          | inl here ↦ Memᴰ.head here
          | inr there ↦ Memᴰ.tail (outline_mono c c' (t ∷ before) rest le there)
        ])
]
  where
    later :
        {a : SpanDetail}
        → Memᴰ a (outline c' (t ∷ before) rest)
        → Memᴰ a (outline c' before (t ∷ rest))
    later n = elim (Bool-cases (is_hidden c' before t.depth)) [
      | inl hidden ↦ rw hidden n
      | inr shown ↦ rw shown (Memᴰ.tail n)
    ]

has-expand :
    (found : Option (List SpanDetail × SpanDetail)) (collapsed : List String) (k : String)
    → has k collapsed ≡ false
    → has k (expand found collapsed) ≡ false
unfolding expand
has-expand none collapsed k h = h
has-expand (some (b, s)) collapsed k h =
    ground (arith, has-delete_all k (ancestor_ids b s.depth) collapsed)

-- `revealSpan` hides no row that was shown.
pub reveal_span_keeps :
    (spans : List SpanDetail) (id : String) (st : ViewState) {s : SpanDetail}
    → Memᴰ s (visible_spans spans st.collapsed)
    → Memᴰ s (visible_spans spans (reveal_span spans id st).collapsed)
unfolding reveal_span
reveal_span_keeps spans id st m = rw visible_spans-outline (
    outline_mono st.collapsed _ [] spans (has-expand (find_index id [] spans) st.collapsed)
      (rw visible_spans-outline at m))

toggled :
    (id k : String) (c : List String)
    → has k (toggle_collapse id c) ≡ (if id === k then not (has k c) else has k c)
unfolding toggle_collapse
toggled id k c = elim (Bool-cases (id === k)) [
  | inl same ↦
      let same' : id ≡ k = eq_of_same id k same in
      let agree : has id c ≡ has k c = ap (λ i. has i c) same' in
      ground (arith, has-add k id c, has-delete k id c)
  | inr other ↦ ground (arith, has-add k id c, has-delete k id c)
]

-- `toggleCollapse` flips the membership of its id, and of no other: a second toggle undoes it.
pub toggle_collapse-flips :
    (id k : String) (collapsed : List String)
    → (has k (toggle_collapse id collapsed)
        ≡ (if id === k then not (has k collapsed) else has k collapsed))
      × (has k (toggle_collapse id (toggle_collapse id collapsed)) ≡ has k collapsed)
toggle_collapse-flips id k collapsed = (
  toggled id k collapsed,
  ground (arith, toggled id k (toggle_collapse id collapsed), toggled id k collapsed),
)
