-- ===== src/Workflows/Versions/Buckets.antt =====
-- The bucket of an instant, and the marks of releases on a chart.
use tracium.Prelude.{
  ℕ, zero, suc, ◌+◌, ◌≤◌, ◌<◌, ◌≡◌, refl, sym, ap, ◌∙◌, inl, inr, Bool, false, List, [], ◌∷◌, none,
  some, String, arith, All, All-map, Bool-cases, ◌-◌, ◌&&◌, map, ltb, leb, if◌then◌else◌, select,
}
use tracium.Prelude.Int.{ℤ}
use tracium.Common.{ChartMarker}
use tracium.Workflows.Versions.{
  WorkflowVersion, comparable, bucket_index_from, bucket_index, marker_at, release_markers,
}

-- The buckets that start at or before the instant, up to the first that does not.
abbrev pub started : List ℕ → ℕ → ℕ
started [] ms = 0
started (start ∷ starts) ms = if leb start ms then suc (started starts ms) else 0

-- One less than a count, as an index
abbrev pub index_before : ℕ → ℤ
index_before zero = ℤ.negsuc 0
index_before (suc n) = ℤ.pos n

bucket_index_from-started :
    (i : ℕ) (starts : List ℕ) (ms : ℕ)
    → bucket_index_from (index_before i) i starts ms ≡ index_before (i + started starts ms)
unfolding bucket_index_from
bucket_index_from-started i [] ms = ap index_before (omega arith)
bucket_index_from-started i (start ∷ starts) ms =
    let next = bucket_index_from-started (suc i) starts ms in
    elim (Bool-cases (leb start ms)) [
      | inl e ↦ rw e (next ∙ ap index_before (omega arith))
      | inr e ↦ rw e (ap index_before (omega arith))
    ]

-- Starts in ascending order
abbrev pub IsAscending : List ℕ → Type 0
IsAscending [] = Unit
IsAscending (start ∷ starts) = All (λ s. start < s) starts × IsAscending starts

-- The first `n` starts are at or before the instant, and the others after it.
abbrev pub Splits : ℕ → List ℕ → ℕ → Type 0
Splits zero starts ms = All (λ s. ms < s) starts
Splits (suc n) [] ms = ⊥
Splits (suc n) (start ∷ starts) ms = (start ≤ ms) × Splits n starts ms

started-Splits :
    (starts : List ℕ) (ms : ℕ) → IsAscending starts → Splits (started starts ms) starts ms
started-Splits [] ms a = tt
started-Splits (start ∷ starts) ms (above, a) = elim (Bool-cases (leb start ms)) [
  | inl e ↦ rw e (ground arith, started-Splits starts ms a)
  | inr e ↦ rw e (ground arith, All-map _ _ starts (λ s h. ground arith) above)
]

-- Given bucket starts in ascending order, `bucketIndex` is one less than the number of buckets that
-- start at or before the instant: they come first, and -1 means that there are none.
pub bucket_index-Splits :
    (starts : List ℕ) (ms : ℕ)
    → IsAscending starts
    → (n : ℕ) × (bucket_index starts ms ≡ index_before n) × Splits n starts ms
unfolding bucket_index
bucket_index-Splits starts ms a = (
  started starts ms,
  bucket_index_from-started 0 starts ms ∙ ap index_before (omega arith),
  started-Splits starts ms a,
)

-- Whether the second bucket starts at or before the instant
abbrev pub second_started : List ℕ → ℕ → Bool
second_started [] ms = false
second_started (start ∷ []) ms = false
second_started (start ∷ second ∷ starts) ms = leb second ms

two_started :
    (starts : List ℕ) (ms : ℕ)
    → IsAscending starts
    → second_started starts ms ≡ ltb 1 (started starts ms)
two_started [] ms a = refl
two_started (start ∷ []) ms a = ground arith
two_started (start ∷ second ∷ starts) ms a = ground arith

module _ (color : WorkflowVersion → String) (clickable : Bool) (starts : List ℕ) where
  -- The mark of a release
  pub release_mark : WorkflowVersion → ChartMarker WorkflowVersion
  release_mark v = record {
    index = started starts v.first_seen_ms - 1;
    color = color v;
    label = some v.version;
    on_click = if clickable then some v else none;
  }

  marker_at-index_before :
      (v : WorkflowVersion) (n : ℕ)
      → started starts v.first_seen_ms ≡ n
      → marker_at color clickable v (index_before n) ≡ (if ltb 1 n then release_mark v ∷ [] else [])
  unfolding release_mark
  marker_at-index_before v zero e = refl
  marker_at-index_before v (suc zero) e = refl
  marker_at-index_before v (suc (suc n)) e = ground arith

  marker_of :
      (v : WorkflowVersion)
      → IsAscending starts
      → marker_at color clickable v (bucket_index starts v.first_seen_ms)
        ≡ (if second_started starts v.first_seen_ms then release_mark v ∷ [] else [])
  unfolding bucket_index
  marker_of v a =
      ap (marker_at color clickable v)
        (bucket_index_from-started 0 starts v.first_seen_ms ∙ ap index_before (omega arith))
      ∙ marker_at-index_before v (started starts v.first_seen_ms) refl
      ∙ ap (λ (b : Bool). if b then release_mark v ∷ [] else [])
          (sym (two_started starts v.first_seen_ms a))

-- Given bucket starts in ascending order, `releaseMarkers` marks, in their order, just the released
-- versions that were first seen when the second bucket started or later, each in its bucket.
pub release_markers-map :
    (versions : List WorkflowVersion) (starts : List ℕ) (color : WorkflowVersion → String)
    (clickable : Bool)
    → IsAscending starts
    → release_markers versions starts color clickable
      ≡ map
          (release_mark color clickable starts)
          (select (λ v. comparable v && second_started starts v.first_seen_ms) versions)
unfolding release_markers
release_markers-map [] starts color clickable a = refl
release_markers-map (v ∷ versions) starts color clickable a = ground (
  arith,
  marker_of color clickable starts v a,
  release_markers-map versions starts color clickable a,
)
