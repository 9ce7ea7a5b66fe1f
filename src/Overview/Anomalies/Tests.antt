-- ===== src/Overview/Anomalies/Tests.antt =====
-- Runs over anomalies, and each property at a concrete input.
use tracium.Prelude.{ℕ, ◌≡◌, refl, true, List, [], ◌∷◌, map, none, some, String}
use tracium.Prelude.Int.{ℤ}
use tracium.Prelude.Sort.{sort}
use tracium.Prelude.Numbers.{number_text}
use tracium.Common.{Severity}
use tracium.Overview.Anomalies.{
  Anomaly, AnomalyMetric, AnomalyScope, AnomalyDirection, Incident, MarkerOptions, group_incidents,
  to_chart_markers, index_of, mark_each, marker, by_severity, by_incident, rank, place_each,
  target_key, version_change_label, anomaly_key,
}
use tracium.Overview.Anomalies.Incidents.{IsGrouping, group_incidents-IsGrouping}
use tracium.Overview.Anomalies.Markers.Buckets.{IsMarking, to_chart_markers-IsMarking}

abbrev anomaly : AnomalyMetric → String → ℕ → ℤ → Severity → Anomaly
anomaly metric name bucket score severity = record {
  metric = metric;
  scope = AnomalyScope.workflow;
  workflow = name;
  bucket_ms = bucket;
  observed = 90;
  expected = 30;
  deviation = ℤ.pos 60;
  score = score;
  direction = AnomalyDirection.spike;
  severity = severity;
  summary = "";
  version_change = some (record { workflow = name; version = "v2"; first_seen_ms = bucket });
}

abbrev anomalies : List Anomaly
anomalies =
    anomaly AnomalyMetric.runs "sync" 100 (ℤ.negsuc 40) Severity.warning
    ∷ anomaly AnomalyMetric.cost "chat" 200 (ℤ.pos 35) Severity.critical
    ∷ anomaly AnomalyMetric.cost "sync" 100 (ℤ.pos 55) Severity.critical
    ∷ []

abbrev outline : Incident → String × ℕ
outline i = (i.key, rank i.severity)

grouped :
    map outline (group_incidents anomalies)
    ≡ ("workflow:sync:100", 3) ∷ ("workflow:chat:200", 3) ∷ []
unfolding group_incidents sort by_severity by_incident rank place_each target_key number_text
grouped = refl

abbrev options : MarkerOptions
options = record { label = none; on_select = true; max = some 1 }

marked : map (λ m. m.index) (to_chart_markers anomalies (50 ∷ 100 ∷ []) options) ≡ 1 ∷ []
unfolding to_chart_markers mark_each index_of marker sort by_severity rank
marked = refl

labelled :
    version_change_label (anomaly AnomalyMetric.runs "sync" 100 (ℤ.pos 1) Severity.info)
    ≡ "after v2"
unfolding version_change_label
labelled = refl

keyed :
    anomaly_key (anomaly AnomalyMetric.runs "sync" 100 (ℤ.pos 1) Severity.info)
    ≡ "runs:workflow:sync:100"
unfolding anomaly_key target_key number_text
keyed = refl

group_incidents-IsGrouping_example : IsGrouping anomalies (group_incidents anomalies)
group_incidents-IsGrouping_example = group_incidents-IsGrouping anomalies

to_chart_markers-IsMarking_example :
    IsMarking anomalies (50 ∷ 100 ∷ []) options (to_chart_markers anomalies (50 ∷ 100 ∷ []) options)
to_chart_markers-IsMarking_example = to_chart_markers-IsMarking anomalies (50 ∷ 100 ∷ []) options
