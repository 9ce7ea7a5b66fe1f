-- ===== src/TraceExplorer/Preorder.antt =====
-- Rows in tree pre-order: each row stands below its parent, one deeper, and its subtree follows it.
use tracium.Prelude.{ℕ, ◌≡◌, true, false, List, [], ◌∷◌, ◌++◌, length, String, Memᴰ, text_key}
use tracium.Prelude.Maps.{has}
use tracium.TraceExplorer.{Span, is_root}

-- A row under the open rows `path`, nearest first: the nearest is its parent.
abbrev pub IsUnder : Span → List Span → Type 0
IsUnder s [] = Unit
IsUnder s (p ∷ path) = s.parent_span_id ≡ p.span_id

-- `path` holds the rows whose subtrees are still open, nearest first.
pub data Preorder : List Span → List (Span × ℕ) → Type 0 where
  done : {path : List Span} → Preorder path []
  close :
      {p : Span} {path : List Span} {rows : List (Span × ℕ)}
      → Preorder path rows
      → Preorder (p ∷ path) rows
  row :
      {path : List Span} {rows : List (Span × ℕ)} (s : Span) (depth : ℕ)
      → depth ≡ length path
      → IsUnder s path
      → Preorder (s ∷ path) rows
      → Preorder path ((s, depth) ∷ rows)

-- The parents of a span lead up to a root: it is in no cycle, and below none.
pub data IsRooted (spans : List Span) : Span → Type 0 where
  root : {s : Span} → Memᴰ s spans → is_root spans s ≡ true → IsRooted spans s
  child :
      {p s : Span}
      → IsRooted spans p
      → Memᴰ s spans
      → is_root spans s ≡ false
      → s.parent_span_id ≡ p.span_id
      → IsRooted spans s

-- A row at depth 0 that is no root: no row above, of the ids `above`, is its parent, and its parents
-- lead to no root.
abbrev pub IsTop : List Span → List String → Span → Type 0
IsTop spans above s =
    is_root spans s ≡ false → (has s.parent_span_id above ≡ false) × ¬ IsRooted spans s

-- All the rows at depth 0
abbrev pub AreTops : List Span → List String → List (Span × ℕ) → Type 0
AreTops spans above [] = Unit
AreTops spans above ((s, depth) ∷ rows) =
    (depth ≡ 0 → IsTop spans above s) × AreTops spans (above ++ s.span_id ∷ []) rows
