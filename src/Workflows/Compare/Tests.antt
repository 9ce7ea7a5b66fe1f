-- ===== src/Workflows/Compare/Tests.antt =====
-- A choice of metrics, two series, and each property at a concrete input.
use tracium.Prelude.{ℕ, ◌≡◌, refl, List, [], ◌∷◌, none, some}
use tracium.Workflows.Versions.{WorkflowVersion, overlap}
use tracium.Workflows.Compare.{
  MetricId, runs, cost, cpr, p95, err, Event, click_row, choose_range, open_compare, charted,
  toggle, steps,
}
use tracium.Workflows.Compare.Selection.{IsChart, Answers, steps-open_compare}
use tracium.Workflows.Compare.Series.{At, Errors, ratio, VersionSeries, series_for, band}
use tracium.Workflows.Compare.Series.Band.{IsBand, band-IsBand}

abbrev session : List Event
session = click_row p95 ∷ click_row cost ∷ click_row cost ∷ click_row runs ∷ choose_range "90d" ∷ []

-- The latency is gone with the range.
left : charted "90d" (steps session (open_compare "7d")).picked ≡ runs ∷ []
unfolding toggle
left = refl

steps-open_compare_example :
    let page = steps session (open_compare "7d") in
    IsChart page.range (charted page.range page.picked) × ((id : MetricId) → Answers page id)
steps-open_compare_example = steps-open_compare "7d" session

abbrev version : ℕ → ℕ → WorkflowVersion
version first last = record {
  version = "v1";
  first_seen_ms = first;
  last_seen_ms = last;
  calls = 10;
  cost = 1;
  cost_per_run = 1;
  p95_latency_ms = none;
  error_rate = 0;
  tokens_per_run = 100;
}

abbrev ran : ℕ → ℕ → ℕ → At Errors
ran ms errors total = record { bucket_ms = ms; item = record { errors = errors; total = total } }

abbrev of_errors : List (At Errors) → VersionSeries
of_errors items = record {
  errs = some items;
  costs = some (record { bucket_ms = 20; item = 6 } ∷ []);
  lats = none;
  toks = none;
}

abbrev older : VersionSeries
older = of_errors (ran 0 1 4 ∷ ran 10 0 2 ∷ ran 20 1 3 ∷ [])

abbrev newer : VersionSeries
newer = of_errors (ran 10 0 1 ∷ ran 20 0 0 ∷ [])

abbrev starts : List ℕ
starts = 0 ∷ 10 ∷ 20 ∷ []

rates : series_for err newer starts ≡ none ∷ some (ratio 0 1) ∷ none ∷ []
rates = refl

costs_per_run : series_for cpr older starts ≡ none ∷ none ∷ some (ratio 6 3) ∷ []
costs_per_run = refl

shared : band (version 0 25) (version 12 15) older newer starts ≡ some (1, 1)
unfolding band overlap
shared = refl

band-IsBand_example :
    IsBand
      (overlap (version 0 25) (version 12 15))
      older
      newer
      starts
      (band (version 0 25) (version 12 15) older newer starts)
band-IsBand_example = band-IsBand (version 0 25) (version 12 15) older newer starts
