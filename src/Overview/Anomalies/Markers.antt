-- ===== src/Overview/Anomalies/Markers.antt =====
-- What `toChartMarkers` marks.
pub mod Buckets
use Prim.Native.Nat.{max}
use mathlib.Core.List.{map-append}
use mathlib.Core.List.Memᴰ
use tracium.Prelude.{
  ℕ, zero, suc, ◌+◌, ◌≤◌, ◌<◌, ◌≡◌, ◌⊎◌, refl, sym, ap, ◌∙◌, subst, inl, inr, Bool, true, false,
  List, [], ◌∷◌, ◌++◌, map, Option, none, some, Memᴰ, arith, leb, if◌then◌else◌, ◌===◌, number_key,
  same_refl, eq_of_same, Bool-cases, Option-cases, All, All-append, All-map, All_mem, All-of_mem,
  length, length-append, get_elem?,
}
use tracium.Prelude.Maps.{
  has, add, has-append, get, set, get-set, from_pairs, Distinct, Distinct-concat,
}
use tracium.Prelude.Sort.{
  before, sort, IsComparator, IsSorted, sort-IsSorted, mem-sort, All-sort, All-of_sort,
}
use tracium.Common.{ChartMarker}
use tracium.Overview.Anomalies.{
  Anomaly, MarkerOptions, max_of, marker, mark_each, by_severity, indexed, index_of,
  to_chart_markers,
}
use tracium.Overview.Anomalies.Order.{by_severity-IsComparator}

abbrev pub indexes : List (ChartMarker Anomaly) → List ℕ
indexes markers = map (λ m. m.index) markers

by_severity_refl : (a : Anomaly) → before by_severity a a ≡ true
by_severity_refl a = elim (Bool-cases (before by_severity a a)) [
  | inl e ↦ e
  | inr e ↦ (let e' = by_severity-IsComparator.total a a e in cc)
]

module _ (index_of : List (ℕ × ℕ)) (opts : MarkerOptions) (listed : List Anomaly) where
  -- The marker of the anomaly that is first in its bucket
  pub record Marks (m : ChartMarker Anomaly) : Type 0 where
    pub a : Anomaly
    pub from_list : Memᴰ a listed
    pub found : get a.bucket_ms index_of ≡ some m.index
    pub shown : m ≡ marker opts a m.index
    pub first :
        All (λ b. get b.bucket_ms index_of ≡ some m.index → before by_severity a b ≡ true) listed

  -- An anomaly whose bucket is marked, or that is outside the chart
  abbrev Settled : List (ChartMarker Anomaly) → Anomaly → Type 0
  Settled markers b =
      (get b.bucket_ms index_of ≡ none)
      ⊎ ((i : ℕ) × (get b.bucket_ms index_of ≡ some i) × (has i (indexes markers) ≡ true))

  pub record IsMarked (markers : List (ChartMarker Anomaly)) (rest : List Anomaly) : Type 0 where
    pub distinct : Distinct (indexes markers)
    pub each : All Marks markers
    pub settled : All (λ b. Memᴰ b rest ⊎ Settled markers b) listed

  IsMarked-skip :
      (markers : List (ChartMarker Anomaly)) (a : Anomaly) (rest : List Anomaly)
      → Settled markers a
      → IsMarked markers (a ∷ rest)
      → IsMarked markers rest
  IsMarked-skip markers a rest s p = record {
    distinct = p.distinct;
    each = p.each;
    settled =
        All-map _ _ listed
          (λ b h. elim h [
            | inl m ↦ elim (Memᴰ.cases_cons m) [
              | inl here ↦ inr (subst (Settled markers) (sym here) s)
              | inr there ↦ inl there
            ]
            | inr k ↦ inr k
          ])
          p.settled;
  }

  -- The first anomaly in a bucket that is not marked yet
  Marks-first :
      (markers : List (ChartMarker Anomaly)) (a : Anomaly) (rest : List Anomaly) (index : ℕ)
      → Memᴰ a listed
      → get a.bucket_ms index_of ≡ some index
      → has index (indexes markers) ≡ false
      → All (λ b. before by_severity a b ≡ true) rest
      → IsMarked markers (a ∷ rest)
      → Marks (marker opts a index)
  unfolding marker
  Marks-first markers a rest index m found fresh low p = record {
    a = a;
    from_list = m;
    found = found;
    shown = refl;
    first =
        All-map _ _ listed
          (λ b h same. elim h [
            | inl n ↦ elim (Memᴰ.cases_cons n) [
              | inl here ↦
                  subst (λ c. before by_severity a c ≡ true) (sym here) (by_severity_refl a)
              | inr there ↦ All_mem _ rest low there
            ]
            | inr (inl outside) ↦ absurd (ground (arith, outside, same))
            | inr (inr (i, at, marked)) ↦ absurd (ground (arith, at, same, marked, fresh))
          ])
          p.settled;
  }

  Settled-pushed :
      (markers : List (ChartMarker Anomaly)) (m : ChartMarker Anomaly) (b : Anomaly)
      → Settled markers b
      → Settled (markers ++ m ∷ []) b
  Settled-pushed markers m b (inl outside) = inl outside
  Settled-pushed markers m b (inr (i, at, marked)) =
      inr (i, at, rw map-append (has-append i (indexes markers) _ ∙ rw marked refl))

  IsMarked-push :
      (markers : List (ChartMarker Anomaly)) (a : Anomaly) (rest : List Anomaly) (index : ℕ)
      → Memᴰ a listed
      → get a.bucket_ms index_of ≡ some index
      → has index (indexes markers) ≡ false
      → All (λ b. before by_severity a b ≡ true) rest
      → IsMarked markers (a ∷ rest)
      → IsMarked (markers ++ marker opts a index ∷ []) rest
  unfolding marker
  IsMarked-push markers a rest index m found fresh low p = record {
    distinct = rw map-append (Distinct-concat (indexes markers) index p.distinct fresh);
    each = All-append _ markers _ p.each (Marks-first markers a rest index m found fresh low p, tt);
    settled =
        All-map _ _ listed
          (λ b h. elim h [
            | inl n ↦ elim (Memᴰ.cases_cons n) [
              | inl here ↦
                  inr (subst (Settled (markers ++ marker opts a index ∷ [])) (sym here) settled)
              | inr there ↦ inl there
            ]
            | inr s ↦ inr (Settled-pushed markers (marker opts a index) b s)
          ])
          p.settled;
  }
    where
      settled : Settled (markers ++ marker opts a index ∷ []) a
      settled = inr (
        index,
        found,
        rw map-append (
            has-append index (indexes markers) (index ∷ []) ∙ rw fresh (rw (same_refl index) refl)),
      )

  -- What the loop ends with: it went through the list, or it stopped at `max`.
  pub record Ended (markers : List (ChartMarker Anomaly)) : Type 0 where
    pub distinct : Distinct (indexes markers)
    pub each : All Marks markers
    pub bounded : length markers ≤ max 1 (max_of opts.max)
    pub complete : length markers < max_of opts.max → All (Settled markers) listed

  mark_each-Ended_push :
      (a : Anomaly) (rest : List Anomaly) (markers : List (ChartMarker Anomaly)) (i : ℕ)
      → All (λ b. before by_severity a b ≡ true) rest × Memᴰ a listed
      → get a.bucket_ms index_of ≡ some i
      → has i (indexes markers) ≡ false
      → IsMarked markers (a ∷ rest)
      → (length markers < max_of opts.max) ⊎ (markers ≡ [])
      → (IsMarked (markers ++ marker opts a i ∷ []) rest
          → length (markers ++ marker opts a i ∷ []) < max_of opts.max
          → Ended (
              mark_each index_of opts
                (indexes (markers ++ marker opts a i ∷ []))
                (markers ++ marker opts a i ∷ [])
                rest))
      → Ended (mark_each index_of opts (indexes markers) markers (a ∷ rest))
  unfolding mark_each marker
  mark_each-Ended_push a rest markers i (low, m) found new p room later =
      let pushed = markers ++ marker opts a i ∷ [] in
      let q = IsMarked-push markers a rest i m found new low p in
      let longer : length pushed ≡ length markers + 1 = length-append markers _ in
      elim (Bool-cases (leb (max_of opts.max) (length pushed))) [
        | inl full ↦
            rw (found, mark_each)
              (rw new (
                rw full (record {
                  distinct = q.distinct;
                  each = q.each;
                  bounded = elim room [
                    | inl less ↦ omega arith
                    | inr e ↦ (let none_yet : length markers ≡ 0 = ap length e in omega arith)
                  ];
                  complete = λ less. absurd (ground (arith, less, full));
                })))
        | inr more ↦
            rw (found, mark_each)
              (rw new (
                rw more (
                  subst (λ seen. Ended (mark_each index_of opts seen pushed rest))
                    (map-append (λ (x : ChartMarker Anomaly). x.index) markers _)
                    (later q (ground (arith, more))))))
      ]

  pub mark_each-Ended :
      (rest : List Anomaly) (markers : List (ChartMarker Anomaly))
      → IsSorted by_severity rest
      → All (λ a. Memᴰ a listed) rest
      → IsMarked markers rest
      → (length markers < max_of opts.max) ⊎ (markers ≡ [])
      → Ended (mark_each index_of opts (indexes markers) markers rest)
  unfolding mark_each
  mark_each-Ended [] markers s ms p room = record {
    distinct = p.distinct;
    each = p.each;
    bounded = elim room [
      | inl less ↦ omega arith
      | inr e ↦ (let none_yet : length markers ≡ 0 = ap length e in omega arith)
    ];
    complete =
        λ less. All-map _ _ listed (λ b h. elim h [ inl m ↦ elim m [ ] | inr k ↦ k ]) p.settled;
  }
  mark_each-Ended (a ∷ rest) markers (low, s) (m, ms) p room =
      elim (Option-cases (get a.bucket_ms index_of)) [
        | inl outside ↦
            rw (outside, mark_each)
              (mark_each-Ended rest markers s ms (IsMarked-skip markers a rest (inl outside) p)
                room)
        | inr (i, found) ↦ elim (Bool-cases (has i (indexes markers))) [
          | inl old ↦
              rw (found, mark_each)
                (rw old (
                  mark_each-Ended rest markers s ms
                    (IsMarked-skip markers a rest (inr (i, found, old)) p) room))
          | inr new ↦
              mark_each-Ended_push a rest markers i (low, m) found new p room
                (λ q more. mark_each-Ended rest (markers ++ marker opts a i ∷ []) s ms q (inl more))
        ]
      ]
