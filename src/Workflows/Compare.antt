-- ===== src/Workflows/Compare.antt =====
-- The comparison of two versions: dashboard/src/modules/workflows/pages/VersionCompareLivePage.tsx,
-- with `isLongRange` of common/utils/ranges.ts. This file has the choice of the metrics;
-- Compare/Series has what is drawn of them.
pub mod Selection
pub mod Series
mod Tests
use tracium.Prelude.{
  ℕ, ◌≡◌, refl, Bool, true, false, ◌&&◌, ◌||◌, not, List, [], ◌∷◌, ◌++◌, String, if◌then◌else◌,
  ◌===◌, text_key, Key, number_same, number_same_iff, any, select,
}

pub data MetricId : Type 0 where
  runs cost cpr p95 err tpr : MetricId

abbrev pub same_metric : MetricId → MetricId → Bool
same_metric runs runs = true
same_metric cost cost = true
same_metric cpr cpr = true
same_metric p95 p95 = true
same_metric err err = true
same_metric tpr tpr = true
same_metric _ _ = false

abbrev pub is_long_range : String → Bool
is_long_range range = range === "90d" || range === "1y"

-- Latency is not charted over long ranges.
abbrev pub chartable : String → MetricId → Bool
chartable range id = not (is_long_range range && same_metric id p95)

abbrev pub or_default : List MetricId → List MetricId
or_default [] = cpr ∷ []
or_default (id ∷ ids) = id ∷ ids

abbrev pub charted : String → List MetricId → List MetricId
charted range picked = or_default (select (chartable range) picked)

-- `slice(-2)`
abbrev pub last_two : List MetricId → List MetricId
last_two [] = []
last_two (a ∷ []) = a ∷ []
last_two (a ∷ b ∷ []) = a ∷ b ∷ []
last_two (a ∷ b ∷ c ∷ rest) = last_two (b ∷ c ∷ rest)

-- `charted.length > 1`
abbrev pub is_several : List MetricId → Bool
is_several [] = false
is_several (a ∷ []) = false
is_several (a ∷ b ∷ rest) = true

abbrev pub toggle_in : MetricId → List MetricId → List MetricId
toggle_in id shown =
    if any (same_metric id) shown
    then (if is_several shown then select (λ m. not (same_metric m id)) shown else shown)
    else last_two (shown ++ id ∷ [])

pub record Page : Type 0 where
  pub range : String
  pub picked : List MetricId

abbrev pub open_compare : String → Page
open_compare range = record { range = range; picked = cpr ∷ [] }

-- The row of a metric is a button, which is disabled where the metric is not charted.
unfoldable pub toggle : MetricId → Page → Page
toggle id page =
    if chartable page.range id
    then record page { picked = toggle_in id (charted page.range page.picked) }
    else page

pub data Event : Type 0 where
  click_row : MetricId → Event
  choose_range : String → Event

abbrev pub step : Event → Page → Page
step (click_row id) page = toggle id page
step (choose_range range) page = record page { range = range }

abbrev pub steps : List Event → Page → Page
steps [] page = page
steps (e ∷ es) page = steps es (step e page)
