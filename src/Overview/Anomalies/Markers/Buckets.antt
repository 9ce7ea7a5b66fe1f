-- ===== src/Overview/Anomalies/Markers/Buckets.antt =====
-- What `toChartMarkers` marks, in terms of the buckets of the chart.
use Prim.Native.Nat.{max}
use tracium.Prelude.{
  ℕ, suc, ◌+◌, ◌≤◌, ◌<◌, ◌≡◌, ◌⊎◌, refl, ap, ◌∙◌, inl, inr, true, false, List, [], ◌∷◌, none, some,
  Memᴰ, arith, ◌===◌, number_key, eq_of_same, Bool-cases, All, All-map, All_mem, All-of_mem, length,
  get_elem?,
}
use tracium.Prelude.Maps.{has, get, set, get-set, from_pairs, Distinct}
use tracium.Prelude.Sort.{before, sort, sort-IsSorted, All-sort, All-of_sort}
use tracium.Common.{ChartMarker}
use tracium.Overview.Anomalies.{
  Anomaly, MarkerOptions, max_of, marker, by_severity, indexed, index_of, to_chart_markers,
}
use tracium.Overview.Anomalies.Order.{by_severity-IsComparator}
use tracium.Overview.Anomalies.Markers.{indexes, Marks, mark_each-Ended}

from_pairs-indexed :
    (buckets : List ℕ) (i : ℕ) (m : List (ℕ × ℕ)) (ms j : ℕ)
    → get ms (from_pairs m (indexed i buckets)) ≡ some j
    → (get ms m ≡ some j) ⊎ ((k : ℕ) × (j ≡ i + k) × (get_elem? buckets k ≡ some ms))
unfolding indexed
from_pairs-indexed [] i m ms j e = inl e
from_pairs-indexed (b ∷ buckets) i m ms j e =
    elim (from_pairs-indexed buckets (suc i) (set b i m) ms j e) [
      | inr (k, place, found) ↦ inr (suc k, omega arith, found)
      | inl set_before ↦ elim (Bool-cases (b === ms)) [
        | inl same ↦
            inr (
              0,
              ground (arith, get-set b ms i m, set_before, same),
              ap some (eq_of_same b ms same),
            )
        | inr other ↦ inl (ground (arith, get-set b ms i m, set_before, other))
      ]
    ]

from_pairs-indexed-none :
    (buckets : List ℕ) (i : ℕ) (m : List (ℕ × ℕ)) (ms : ℕ)
    → get ms (from_pairs m (indexed i buckets)) ≡ none
    → (get ms m ≡ none) × (has ms buckets ≡ false)
unfolding indexed
from_pairs-indexed-none [] i m ms e = (e, refl)
from_pairs-indexed-none (b ∷ buckets) i m ms e =
    let (before_all, absent) = from_pairs-indexed-none buckets (suc i) (set b i m) ms e in
    ground (arith, get-set b ms i m, before_all, absent)

index_of-get_elem :
    (buckets : List ℕ) (ms i : ℕ)
    → get ms (index_of buckets) ≡ some i
    → get_elem? buckets i ≡ some ms
unfolding index_of
index_of-get_elem buckets ms i e = elim (from_pairs-indexed buckets 0 [] ms i e) [
  | inl bad ↦ absurd (ground arith)
  | inr (k, same, found) ↦ ap (get_elem? buckets) (omega arith) ∙ found
]

index_of-none :
    (buckets : List ℕ) (ms : ℕ) → get ms (index_of buckets) ≡ none → has ms buckets ≡ false
unfolding index_of
index_of-none buckets ms e = (from_pairs-indexed-none buckets 0 [] ms e).1

-- The marker of one of the anomalies, at the bucket of it, which no anomaly there precedes
pub record IsMarkerOf (anomalies : List Anomaly) (buckets : List ℕ) (opts : MarkerOptions)
    (m : ChartMarker Anomaly) : Type 0 where
  pub a : Anomaly
  pub from_list : Memᴰ a anomalies
  pub bucket : get_elem? buckets m.index ≡ some a.bucket_ms
  pub shown : m ≡ marker opts a m.index
  pub most_severe : All (λ b. b.bucket_ms ≡ a.bucket_ms → before by_severity a b ≡ true) anomalies

pub record IsMarking (anomalies : List Anomaly) (buckets : List ℕ) (opts : MarkerOptions)
    (markers : List (ChartMarker Anomaly)) : Type 0 where
  pub distinct : Distinct (indexes markers)
  pub each : All (IsMarkerOf anomalies buckets opts) markers
  pub bounded : length markers ≤ max 1 (max_of opts.max)
  pub complete :
      length markers < max_of opts.max
      → All
          (λ b.
            (has b.bucket_ms buckets ≡ false)
            ⊎ ((i : ℕ) × (get_elem? buckets i ≡ some b.bucket_ms)
                × (has i (indexes markers) ≡ true)))
          anomalies

IsMarkerOf-Marks :
    (anomalies : List Anomaly) (buckets : List ℕ) (opts : MarkerOptions) (m : ChartMarker Anomaly)
    → Marks (index_of buckets) opts (sort by_severity anomalies) m
    → IsMarkerOf anomalies buckets opts m
IsMarkerOf-Marks anomalies buckets opts m k = record {
  a = k.a;
  from_list =
      All_mem (λ b. Memᴰ b anomalies) _
        (All-sort by_severity _ anomalies (All-of_mem _ anomalies (λ b n. n))) k.from_list;
  bucket = index_of-get_elem buckets k.a.bucket_ms m.index k.found;
  shown = k.shown;
  most_severe =
      All-map _ _ anomalies
        (λ b first same. first (ap (λ ms. get ms (index_of buckets)) same ∙ k.found))
        (All-of_sort by_severity _ anomalies k.first);
}

-- `toChartMarkers` marks no bucket twice, and no more buckets than `max`, or one if `max` is 0. Each
-- marker is that of an anomaly in its bucket that comes first there by severity. While there are
-- fewer than `max`, no anomaly inside the chart is without a marker for its bucket.
pub to_chart_markers-IsMarking :
    (anomalies : List Anomaly) (buckets : List ℕ) (opts : MarkerOptions)
    → IsMarking anomalies buckets opts (to_chart_markers anomalies buckets opts)
unfolding to_chart_markers
to_chart_markers-IsMarking anomalies buckets opts =
    let l = sort by_severity anomalies in
    let in_list = All-of_mem (λ a. Memᴰ a l) l (λ a m. m) in
    let e =
      mark_each-Ended (index_of buckets) opts l l []
        (sort-IsSorted by_severity by_severity-IsComparator anomalies) in_list
        (record { distinct = tt; each = tt; settled = All-map _ _ l (λ a m. inl m) in_list })
        (inr refl) in
    record {
      distinct = e.distinct;
      each = All-map _ _ _ (IsMarkerOf-Marks anomalies buckets opts) e.each;
      bounded = e.bounded;
      complete = λ less. All-of_sort by_severity _ anomalies (
          All-map _ _ l
            (λ b s. elim s [
              | inl outside ↦ inl (index_of-none buckets b.bucket_ms outside)
              | inr (i, at, marked) ↦ inr (i, index_of-get_elem buckets b.bucket_ms i at, marked)
            ])
            (e.complete less));
    }
