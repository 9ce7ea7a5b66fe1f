-- ===== src/TraceInspector/Ancestors.antt =====
-- The ancestors of a row, and what is shown when some rows are collapsed, described without loops.
use tracium.Prelude.{
  ℕ, ◌<◌, ◌≡◌, refl, ap, ◌∙◌, ◌↔◌, inl, inr, Bool, true, false, List, [], ◌∷◌, ◌++◌, String, arith,
  ltb, ltb→lt, if◌then◌else◌, text_key, All, any, Bool-cases,
}
use tracium.TraceInspector.{SpanDetail, is_folded}

-- The nearest preceding rows at each shallower depth, of the rows that precede, nearest first.
unfoldable pub ancestors : List SpanDetail → ℕ → List SpanDetail
ancestors [] depth = []
ancestors (p ∷ before) depth = elim (ltb p.depth depth) [
  | true ↦ p ∷ ancestors before p.depth
  | false ↦ ancestors before depth
]

-- Some ancestor is collapsed.
unfoldable pub is_hidden : List String → List SpanDetail → ℕ → Bool
is_hidden collapsed before depth = any (is_folded collapsed) (ancestors before depth)

-- The rows with no collapsed ancestor.
unfoldable pub outline : List String → List SpanDetail → List SpanDetail → List SpanDetail
outline collapsed before [] = []
outline collapsed before (s ∷ rest) =
    let tail = outline collapsed (s ∷ before) rest in
    if is_hidden collapsed before s.depth then tail else s ∷ tail

-- A collapsed row stands above, and all between it and the row are deeper than it.
pub record IsCovered (collapsed : List String) (before : List SpanDetail) (depth : ℕ) : Type 0 where
  pub cover : SpanDetail
  pub between : List SpanDetail
  pub above : List SpanDetail
  pub split : before ≡ between ++ cover ∷ above
  pub folded : is_folded collapsed cover ≡ true
  pub shallower : cover.depth < depth
  pub deeper : All (λ q. cover.depth < q.depth) between

module _ (collapsed : List String) where
  hidden-IsCovered :
      (before : List SpanDetail) (depth : ℕ)
      → is_hidden collapsed before depth ≡ true
      → IsCovered collapsed before depth
  unfolding is_hidden ancestors
  hidden-IsCovered [] depth h = absurd (ground arith)
  hidden-IsCovered (p ∷ before) depth h = elim (Bool-cases (ltb p.depth depth)) [
    | inl up ↦ elim (Bool-cases (is_folded collapsed p)) [
      | inl here ↦ record {
        cover = p;
        between = [];
        above = before;
        split = refl;
        folded = here;
        shallower = ltb→lt _ _ up;
        deeper = tt;
      }
      | inr not_here ↦ extend up (hidden-IsCovered before p.depth (ground arith))
    ]
    | inr level ↦ widen level (hidden-IsCovered before depth (ground arith))
  ]
    where
      extend :
          ltb p.depth depth ≡ true
          → IsCovered collapsed before p.depth
          → IsCovered collapsed (p ∷ before) depth
      extend up c = record {
        cover = c.cover;
        between = p ∷ c.between;
        above = c.above;
        split = ap (◌∷◌ p) c.split;
        folded = c.folded;
        shallower = ground arith;
        deeper = (c.shallower, c.deeper);
      }

      widen :
          ltb p.depth depth ≡ false
          → IsCovered collapsed before depth
          → IsCovered collapsed (p ∷ before) depth
      widen level c = record {
        cover = c.cover;
        between = p ∷ c.between;
        above = c.above;
        split = ap (◌∷◌ p) c.split;
        folded = c.folded;
        shallower = c.shallower;
        deeper = (ground arith, c.deeper);
      }

  covered-hidden :
      (cover : SpanDetail) (between above : List SpanDetail) (depth : ℕ)
      → is_folded collapsed cover ≡ true
      → cover.depth < depth
      → All (λ q. cover.depth < q.depth) between
      → is_hidden collapsed (between ++ cover ∷ above) depth ≡ true
  unfolding is_hidden ancestors
  covered-hidden cover [] above depth f up _ = ground arith
  covered-hidden cover (p ∷ between) above depth f up (deep, deeper) = ground (
    arith,
    covered-hidden cover between above depth f up deeper,
    covered-hidden cover between above p.depth f deep deeper,
  )

  pub is_hidden_iff :
      (before : List SpanDetail) (depth : ℕ)
      → (is_hidden collapsed before depth ≡ true) ↔ IsCovered collapsed before depth
  is_hidden_iff before depth = (
    hidden-IsCovered before depth,
    λ c.
        ap (λ b. is_hidden collapsed b depth) c.split
        ∙ covered-hidden c.cover c.between c.above depth c.folded c.shallower c.deeper,
  )
