-- ===== src/Overview/Anomalies.antt =====
-- Anomalies of the overview: dashboard/src/modules/overview/interfaces/metrics.ts and
-- utils/anomalies.ts. Values and scores are whole numbers of a fixed small unit, buckets whole
-- milliseconds from the epoch.
pub mod Order
pub mod Targets
pub mod Groups
pub mod Incidents
pub mod Markers
pub mod Chips
mod Tests
use tracium.Prelude.{
  ℕ, suc, ◌+◌, Bool, true, false, List, [], ◌∷◌, ◌++◌, map, Option, none, some, String, ltb, leb,
  if◌then◌else◌, Key, text_key, number_key, number_same, length, select,
}
use tracium.Prelude.Int.{ℤ, sub_ℕ, abs, is_nonzero}
use tracium.Prelude.Sort.{sort}
use tracium.Prelude.Maps.{has, add, get, set, from_pairs}
use tracium.Prelude.Numbers.{◌⧺◌, number_text}
use tracium.Common.{Severity, SeverityMeta, severity_meta, ChartMarker}

pub data AnomalyMetric : Type 0 where
  cost error_rate runs : AnomalyMetric

pub data AnomalyScope : Type 0 where
  workspace workflow : AnomalyScope

pub data AnomalyDirection : Type 0 where
  spike drop : AnomalyDirection

pub record VersionChange : Type 0 where
  pub workflow : String
  pub version : String
  pub first_seen_ms : ℕ

pub record Anomaly : Type 0 where
  pub metric : AnomalyMetric
  pub scope : AnomalyScope
  pub workflow : String
  pub bucket_ms : ℕ
  pub observed : ℕ
  pub expected : ℕ
  pub deviation : ℤ
  pub score : ℤ
  pub direction : AnomalyDirection
  pub severity : Severity
  pub summary : String
  pub version_change : Option VersionChange

-- A scope, and a metric, as the text that it is on the wire
abbrev pub scope_text : AnomalyScope → String
scope_text AnomalyScope.workspace = "workspace"
scope_text AnomalyScope.workflow = "workflow"

abbrev pub metric_text : AnomalyMetric → String
metric_text AnomalyMetric.cost = "cost"
metric_text AnomalyMetric.error_rate = "error_rate"
metric_text AnomalyMetric.runs = "runs"

abbrev pub change_label : AnomalyScope → Option VersionChange → String
change_label scope none = ""
change_label AnomalyScope.workflow (some v) = "after " ⧺ v.version
change_label AnomalyScope.workspace (some v) = "after " ⧺ (v.workflow ⧺ (" " ⧺ v.version))

unfoldable pub version_change_label : Anomaly → String
version_change_label a = change_label a.scope a.version_change

-- `${scope}:${workflow}:${bucket_ms}`
unfoldable pub target_key : AnomalyScope → String → ℕ → String
target_key scope name bucket_ms = (scope_text scope ⧺ (":" ⧺ name)) ⧺ (":" ⧺ number_text bucket_ms)

abbrev pub incident_key : Anomaly → String
incident_key a = target_key a.scope a.workflow a.bucket_ms

unfoldable pub anomaly_key : Anomaly → String
anomaly_key a = metric_text a.metric ⧺ (":" ⧺ incident_key a)

-- `SEVERITY_META[severity].rank`
unfoldable pub rank : Severity → ℕ
rank severity = (severity_meta severity).rank

-- The three comparisons that both orders make, the greater first: rank, then |score|, then bucket.
abbrev pub greater_first : ℕ × ℕ × ℕ → ℕ × ℕ × ℕ → ℤ
greater_first (rank_a, score_a, bucket_a) (rank_b, score_b, bucket_b) =
    let s = sub_ℕ rank_b rank_a in
    let z = sub_ℕ score_b score_a in
    if is_nonzero s then s else if is_nonzero z then z else sub_ℕ bucket_b bucket_a

unfoldable pub by_severity : Anomaly → Anomaly → ℤ
by_severity a b =
    greater_first (rank a.severity, abs a.score, a.bucket_ms)
      (rank b.severity, abs b.score, b.bucket_ms)

pub record Incident : Type 0 where
  pub key : String
  pub scope : AnomalyScope
  pub workflow : String
  pub bucket_ms : ℕ
  pub severity : Severity
  pub anomalies : List Anomaly

-- The incident that an anomaly starts
abbrev pub start : Anomaly → Incident
start a = record {
  key = incident_key a;
  scope = a.scope;
  workflow = a.workflow;
  bucket_ms = a.bucket_ms;
  severity = a.severity;
  anomalies = a ∷ [];
}

-- `existing.anomalies.push(a)`, and the severity where it is worse
abbrev pub push : Anomaly → Incident → Incident
push a existing = record {
  key = existing.key;
  scope = existing.scope;
  workflow = existing.workflow;
  bucket_ms = existing.bucket_ms;
  severity =
      if ltb (rank existing.severity) (rank a.severity) then a.severity else existing.severity;
  anomalies = existing.anomalies ++ a ∷ [];
}

-- One turn of the first loop, given what the map has at the key
abbrev pub place_in :
    Anomaly → Option Incident → List (String × Incident) → List (String × Incident)
place_in a none by_key = set (incident_key a) (start a) by_key
place_in a (some existing) by_key = set (incident_key a) (push a existing) by_key

unfoldable pub place_each : List (String × Incident) → List Anomaly → List (String × Incident)
place_each by_key [] = by_key
place_each by_key (a ∷ anomalies) =
    place_each (place_in a (get (incident_key a) by_key) by_key) anomalies

-- `inc.anomalies.sort(bySeverity)`
abbrev pub sort_anomalies : Incident → Incident
sort_anomalies inc = record {
  key = inc.key;
  scope = inc.scope;
  workflow = inc.workflow;
  bucket_ms = inc.bucket_ms;
  severity = inc.severity;
  anomalies = sort by_severity inc.anomalies;
}

-- `Math.abs(inc.anomalies[0].score)`: no incident is empty.
abbrev pub lead_score : List Anomaly → ℕ
lead_score [] = 0
lead_score (a ∷ anomalies) = abs a.score

unfoldable pub by_incident : Incident → Incident → ℤ
by_incident x y =
    greater_first (rank x.severity, lead_score x.anomalies, x.bucket_ms)
      (rank y.severity, lead_score y.anomalies, y.bucket_ms)

unfoldable pub group_incidents : List Anomaly → List Incident
group_incidents anomalies =
    sort by_incident (map sort_anomalies (map (λ kv. kv.1) (place_each [] anomalies)))

-- `bucketMs.map((ms, i) => [ms, i])`, from index i on
indexed : ℕ → List ℕ → List (ℕ × ℕ)
indexed i [] = []
indexed i (ms ∷ buckets) = (ms, i) ∷ indexed (suc i) buckets

unfoldable pub index_of : List ℕ → List (ℕ × ℕ)
unfolding indexed
index_of buckets = from_pairs [] (indexed 0 buckets)

-- `opts`: a label, whether a click selects, and the most markers
pub record MarkerOptions : Type 0 where
  pub label : Option (Anomaly → String)
  pub on_select : Bool
  pub max : Option ℕ

abbrev pub max_of : Option ℕ → ℕ
max_of none = 4
max_of (some max) = max

abbrev pub call_label : Option (Anomaly → String) → Anomaly → Option String
call_label none a = none
call_label (some label) a = some (label a)

unfoldable pub marker : MarkerOptions → Anomaly → ℕ → ChartMarker Anomaly
marker opts a index = record {
  index = index;
  color = (severity_meta a.severity).color;
  label = call_label opts.label a;
  on_click = if opts.on_select then some a else none;
}

-- The loop. The test on `max` comes after the push, so a `max` of 0 lets one marker through.
unfoldable pub mark_each :
    List (ℕ × ℕ)
    → MarkerOptions
    → List ℕ
    → List (ChartMarker Anomaly)
    → List Anomaly
    → List (ChartMarker Anomaly)
mark_each index_of opts seen markers [] = markers
mark_each index_of opts seen markers (a ∷ anomalies) = elim (get a.bucket_ms index_of) [
  | none ↦ mark_each index_of opts seen markers anomalies
  | some index ↦
      let skipped = mark_each index_of opts seen markers anomalies in
      let pushed = markers ++ marker opts a index ∷ [] in
      let later = mark_each index_of opts (add index seen) pushed anomalies in
      if has index seen
      then skipped
      else if leb (max_of opts.max) (length pushed)
      then pushed
      else later
]

unfoldable pub to_chart_markers : List Anomaly → List ℕ → MarkerOptions → List (ChartMarker Anomaly)
to_chart_markers anomalies buckets opts =
    mark_each (index_of buckets) opts [] [] (sort by_severity anomalies)
