-- ===== src/TraceInspector/Collapse.antt =====
-- What collapsing, revealing and toggling do to the rows that are shown.
use tracium.Prelude.{
  ℕ, ◌≡◌, refl, ◌↔◌, inl, inr, true, false, List, [], ◌∷◌, Option, none, some, String, arith,
  if◌then◌else◌, text_key, number_key, Bool-cases,
}
use tracium.TraceInspector.{SpanDetail, is_folded, is_below, visible_from, visible_spans}
use tracium.TraceInspector.Ancestors.{ancestors, is_hidden, outline, IsCovered, is_hidden_iff}

-- `hideBelow` tells which depths are hidden after the rows `before`.
abbrev Tracks : List String → List SpanDetail → Option ℕ → Type 0
Tracks collapsed before hide_below =
    (depth : ℕ) → is_hidden collapsed before depth ≡ is_below hide_below depth

module _ (collapsed : List String) (before : List SpanDetail) (s : SpanDetail) where
  Tracks-skip :
      (hide_below : Option ℕ)
      → Tracks collapsed before hide_below
      → is_below hide_below s.depth ≡ true
      → Tracks collapsed (s ∷ before) hide_below
  unfolding is_hidden ancestors
  Tracks-skip none t below depth = cc
  Tracks-skip (some h) t below depth = ground (arith, t depth, t s.depth)

  Tracks-show :
      (hide_below : Option ℕ)
      → Tracks collapsed before hide_below
      → is_below hide_below s.depth ≡ false
      → Tracks collapsed (s ∷ before) (if is_folded collapsed s then some s.depth else none)
  unfolding is_hidden ancestors
  Tracks-show none t shown depth = ground (arith, t depth, t s.depth)
  Tracks-show (some h) t shown depth = ground (arith, t depth, t s.depth)

visible_from-outline :
    (collapsed : List String) (before spans : List SpanDetail) (hide_below : Option ℕ)
    → Tracks collapsed before hide_below
    → visible_from collapsed hide_below spans ≡ outline collapsed before spans
unfolding visible_from outline
visible_from-outline collapsed before [] hide_below t = refl
visible_from-outline collapsed before (s ∷ rest) hide_below t =
    elim (Bool-cases (is_below hide_below s.depth)) [
      | inl below ↦ ground (
        arith,
        t s.depth,
        visible_from-outline collapsed (s ∷ before) rest hide_below
            (Tracks-skip collapsed before s hide_below t below),
      )
      | inr shown ↦ ground (
        arith,
        t s.depth,
        visible_from-outline collapsed (s ∷ before) rest
            (if is_folded collapsed s then some s.depth else none)
            (Tracks-show collapsed before s hide_below t shown),
      )
    ]

pub visible_spans-outline :
    (spans : List SpanDetail) (collapsed : List String)
    → visible_spans spans collapsed ≡ outline collapsed [] spans
unfolding visible_spans is_hidden ancestors
visible_spans-outline spans collapsed = visible_from-outline collapsed [] spans none (λ depth. refl)

-- The rows that are shown are those with no collapsed ancestor, in their order. A row has one
-- exactly when a collapsed parent row stands above it and every row between them, and the row
-- itself, is deeper than that parent.
pub visible_spans_iff :
    (spans : List SpanDetail) (collapsed : List String)
    → (visible_spans spans collapsed ≡ outline collapsed [] spans)
      × ((before : List SpanDetail) (depth : ℕ)
          → (is_hidden collapsed before depth ≡ true) ↔ IsCovered collapsed before depth)
visible_spans_iff spans collapsed = (visible_spans-outline spans collapsed, is_hidden_iff collapsed)
