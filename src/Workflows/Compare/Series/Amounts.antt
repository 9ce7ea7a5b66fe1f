-- ===== src/Workflows/Compare/Series/Amounts.antt =====
-- The amounts of a series.
use tracium.Prelude.{
  ℕ, ◌≤◌, ◌≡◌, refl, sym, subst, Bool, true, false, List, [], ◌∷◌, Option, none, some, arith, ◌===◌,
  number_key, Bool-cases, inl, inr, if_true, if_false,
}
use tracium.Workflows.Compare.{MetricId, runs, cost, cpr, p95, err, tpr}
use tracium.Workflows.Compare.Series.{
  Errors, Amount, whole, ratio, at_bucket, VersionSeries, amount_of, amount_with, series_for,
  runs_in, total_of, per_run, whole_of, latency_of,
}

-- Metrics that the series of errors carries itself
abbrev pub is_counted : MetricId → Bool
is_counted runs = true
is_counted err = true
is_counted _ = false

-- An amount that may stand for a bucket with so many runs
abbrev pub Fits : MetricId → ℕ → Option Amount → Type 0
Fits metric total none = is_counted metric ≡ true → total ≡ 0
Fits metric total (some (whole n)) = 1 ≤ total
Fits metric total (some (ratio x d)) = (1 ≤ total) × (d ≡ total)

-- As long as the list of the buckets, each with an amount that fits
abbrev pub IsSeries : MetricId → VersionSeries → List ℕ → List (Option Amount) → Type 0
IsSeries metric s [] [] = Unit
IsSeries metric s [] (o ∷ os) = ⊥
IsSeries metric s (ms ∷ buckets_ms) [] = ⊥
IsSeries metric s (ms ∷ buckets_ms) (o ∷ os) =
    Fits metric (runs_in ms s) o × IsSeries metric s buckets_ms os

whole_of-Fits :
    (metric : MetricId) (total : ℕ) (o : Option ℕ)
    → is_counted metric ≡ false
    → 1 ≤ total
    → Fits metric total (whole_of o)
whole_of-Fits metric total none other ran = λ counted. absurd (ground (arith, counted, other))
whole_of-Fits metric total (some n) other ran = ran

latency_of-Fits : (total : ℕ) (o : Option (Option ℕ)) → 1 ≤ total → Fits p95 total (latency_of o)
latency_of-Fits total none ran = λ counted. absurd (ground (arith, counted))
latency_of-Fits total (some ms) ran = whole_of-Fits p95 total ms refl ran

per_run-Fits :
    (metric : MetricId) (total : ℕ) (o : Option ℕ)
    → is_counted metric ≡ false
    → 1 ≤ total
    → Fits metric total (per_run total o)
per_run-Fits metric total none other ran = λ counted. absurd (ground (arith, counted, other))
per_run-Fits metric total (some n) other ran = (ran, refl)

amount_of-Fits :
    (metric : MetricId) (s : VersionSeries) (ms : ℕ) (e : Errors)
    → 1 ≤ e.total
    → Fits metric e.total (amount_of metric s ms e)
amount_of-Fits runs s ms e ran = ran
amount_of-Fits err s ms e ran = (ran, refl)
amount_of-Fits cost s ms e ran = whole_of-Fits cost e.total _ refl ran
amount_of-Fits cpr s ms e ran = per_run-Fits cpr e.total _ refl ran
amount_of-Fits p95 s ms e ran = latency_of-Fits e.total _ ran
amount_of-Fits tpr s ms e ran = per_run-Fits tpr e.total _ refl ran

amount_with-Fits :
    (metric : MetricId) (s : VersionSeries) (ms : ℕ) (o : Option Errors)
    → Fits metric (total_of o) (amount_with metric s ms o)
amount_with-Fits metric s ms none = λ _. refl
amount_with-Fits metric s ms (some e) = elim (Bool-cases (e.total === 0)) [
  | inl idle ↦ subst (Fits metric e.total) (sym (if_true _ idle)) (λ _. ground (arith, idle))
  | inr ran ↦
      subst (Fits metric e.total) (sym (if_false _ ran))
        (amount_of-Fits metric s ms e (ground (arith, ran)))
]

-- A series has an amount or a gap for each bucket, in their order. A bucket without runs is a gap,
-- and for the runs and the error rate every other one is an amount. A quotient is one by the number
-- of the runs, which is not 0.
pub series_for-IsSeries :
    (metric : MetricId) (s : VersionSeries) (buckets_ms : List ℕ)
    → IsSeries metric s buckets_ms (series_for metric s buckets_ms)
series_for-IsSeries metric s [] = tt
series_for-IsSeries metric s (ms ∷ buckets_ms) =
    (amount_with-Fits metric s ms (at_bucket ms s.errs), series_for-IsSeries metric s buckets_ms)
