-- ===== src/Workflows/Compare/Series.antt =====
-- The series that are compared: `byBucket`, `seriesFor` and `band` of
-- dashboard/src/modules/workflows/pages/VersionCompareLivePage.tsx. A series that is not there, for
-- its query has no data, is `none`. A quotient stays a pair.
pub mod Band
pub mod Amounts
use tracium.Prelude.{
  ℕ, zero, suc, ◌+◌, ◌≤◌, ◌<◌, ◌≡◌, refl, sym, Bool, true, false, ◌&&◌, ◌||◌, not, List, [], ◌∷◌,
  Option, none, some, arith, if◌then◌else◌, ◌===◌, number_key, ltb, map, Bool-cases, Option-cases,
  inl, inr,
}
use tracium.Workflows.Versions.{WorkflowVersion, overlap}
use tracium.Workflows.Compare.{MetricId, runs, cost, cpr, p95, err, tpr}

-- A bucket's start with what is counted in it
pub record At {ℓ} (A : Type ℓ) : Type ℓ where
  pub bucket_ms : ℕ
  pub item : A

pub record Errors : Type 0 where
  pub errors : ℕ
  pub total : ℕ

pub record Tokens : Type 0 where
  pub input_tokens : ℕ
  pub output_tokens : ℕ

pub data Amount : Type 0 where
  whole : ℕ → Amount
  ratio : ℕ → ℕ → Amount

module _ {ℓ} {A : Type ℓ} where
  abbrev pub or_else : A → Option A → Option A
  or_else a none = some a
  or_else a (some b) = some b

  -- `new Map(items.map(b => [b.bucket_ms, b])).get(ms)`: the last of a bucket counts.
  abbrev pub last_at : ℕ → List (At A) → Option A
  last_at ms [] = none
  last_at ms (b ∷ bs) = if b.bucket_ms === ms then or_else b.item (last_at ms bs) else last_at ms bs

  abbrev pub items_of : Option (List (At A)) → List (At A)
  items_of none = []
  items_of (some items) = items

  -- `byBucket(items).get(ms)`
  abbrev pub at_bucket : ℕ → Option (List (At A)) → Option A
  at_bucket ms items = last_at ms (items_of items)

-- The series of one version
pub record VersionSeries : Type 0 where
  pub errs : Option (List (At Errors))
  pub costs : Option (List (At ℕ))
  pub lats : Option (List (At (Option ℕ)))
  pub toks : Option (List (At Tokens))

abbrev pub whole_of : Option ℕ → Option Amount
whole_of none = none
whole_of (some n) = some (Amount.whole n)

-- `lats.get(ms)?.p95 ?? null`
abbrev pub latency_of : Option (Option ℕ) → Option Amount
latency_of none = none
latency_of (some ms) = whole_of ms

abbrev pub per_run : ℕ → Option ℕ → Option Amount
per_run total none = none
per_run total (some n) = some (Amount.ratio n total)

abbrev pub tokens_of : Option Tokens → Option ℕ
tokens_of none = none
tokens_of (some t) = some (t.input_tokens + t.output_tokens)

-- The `switch` of `seriesFor`
abbrev pub amount_of : MetricId → VersionSeries → ℕ → Errors → Option Amount
amount_of runs s ms e = some (Amount.whole e.total)
amount_of err s ms e = some (Amount.ratio e.errors e.total)
amount_of cost s ms e = whole_of (at_bucket ms s.costs)
amount_of cpr s ms e = per_run e.total (at_bucket ms s.costs)
amount_of p95 s ms e = latency_of (at_bucket ms s.lats)
amount_of tpr s ms e = per_run e.total (tokens_of (at_bucket ms s.toks))

abbrev pub amount_with : MetricId → VersionSeries → ℕ → Option Errors → Option Amount
amount_with metric s ms none = none
amount_with metric s ms (some e) = if e.total === 0 then none else amount_of metric s ms e

abbrev pub series_for : MetricId → VersionSeries → List ℕ → List (Option Amount)
series_for metric s buckets_ms =
    map (λ ms. amount_with metric s ms (at_bucket ms s.errs)) buckets_ms

abbrev pub total_of : Option Errors → ℕ
total_of none = 0
total_of (some e) = e.total

-- `errs.get(ms)?.total ?? 0`
abbrev pub runs_in : ℕ → VersionSeries → ℕ
runs_in ms s = total_of (at_bucket ms s.errs)

-- The buckets of `both`, with the index of the first bucket
abbrev pub both_from : ℕ → VersionSeries → VersionSeries → List ℕ → List ℕ
both_from i a b [] = []
both_from i a b (ms ∷ buckets_ms) =
    let rest = both_from (suc i) a b buckets_ms in
    if ltb 0 (runs_in ms a) && ltb 0 (runs_in ms b) then i ∷ rest else rest

abbrev pub last_of : ℕ → List ℕ → ℕ
last_of i [] = i
last_of i (j ∷ js) = last_of j js

abbrev pub ends_of : List ℕ → Option (ℕ × ℕ)
ends_of [] = none
ends_of (i ∷ is) = some (i, last_of i is)

abbrev pub when_overlap : Option (ℕ × ℕ) → List ℕ → Option (ℕ × ℕ)
when_overlap none both = none
when_overlap (some span) both = ends_of both

unfoldable pub band :
    WorkflowVersion → WorkflowVersion → VersionSeries → VersionSeries → List ℕ → Option (ℕ × ℕ)
band v w a b buckets_ms = when_overlap (overlap v w) (both_from 0 a b buckets_ms)
