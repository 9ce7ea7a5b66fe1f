-- ===== src/Overview/Anomalies/Incidents.antt =====
-- What `groupIncidents` returns: the anomalies by target, worst first.
use mathlib.Core.List.{Perm}
use mathlib.Core.List.Perm
use tracium.Prelude.{
  ◌≤◌, ◌≡◌, refl, sym, ap, ◌∙◌, subst, List, [], ◌∷◌, map, String, Memᴰ, arith, text_key, All,
  All-map, All_mem, All-of_mem,
}
use tracium.Prelude.Sort.{sort, sort-perm, All-sort, mem-sort, IsSorted, sort-IsSorted}
use tracium.Prelude.Keyed.{mem_of_mem-map, eq_of_key}
use tracium.Prelude.Gather.{gathered, gathered-perm, gathered-map, gathered-values}
use tracium.Common.{Severity}
use tracium.Overview.Anomalies.{
  Anomaly, Incident, target_key, rank, by_severity, by_incident, sort_anomalies, place_each,
  group_incidents,
}
use tracium.Overview.Anomalies.Order.{
  by_severity-IsComparator, by_incident-IsComparator, rank_of_before,
}
use tracium.Overview.Anomalies.Targets.{target_key-injective}
use tracium.Overview.Anomalies.Groups.{IsGroup, place_each-IsPlaced}

-- An incident: anomalies of one target, in the order of the API, with the severity of the first.
pub record IsIncident (i : Incident) : Type 0 where
  pub target :
      All
        (λ a. (a.scope ≡ i.scope) × (a.workflow ≡ i.workflow) × (a.bucket_ms ≡ i.bucket_ms))
        i.anomalies
  pub sorted : IsSorted by_severity i.anomalies
  pub leads :
      (a : Anomaly) × (rest : List Anomaly) × (i.anomalies ≡ a ∷ rest) × (a.severity ≡ i.severity)

rank-injective : (s t : Severity) → rank s ≡ rank t → s ≡ t
unfolding rank
rank-injective Severity.info Severity.info e = refl
rank-injective Severity.warning Severity.warning e = refl
rank-injective Severity.critical Severity.critical e = refl
rank-injective Severity.info Severity.warning e = absurd (omega arith)
rank-injective Severity.info Severity.critical e = absurd (omega arith)
rank-injective Severity.warning Severity.info e = absurd (omega arith)
rank-injective Severity.warning Severity.critical e = absurd (omega arith)
rank-injective Severity.critical Severity.info e = absurd (omega arith)
rank-injective Severity.critical Severity.warning e = absurd (omega arith)

-- In a sorted list that is not empty the first has the severity that is worst in it.
lead_of :
    (l : List Anomaly) (worst : Severity)
    → IsSorted by_severity l
    → All (λ a. rank a.severity ≤ rank worst) l
    → (b : Anomaly) → Memᴰ b l
    → b.severity ≡ worst
    → (a : Anomaly) × (rest : List Anomaly) × (l ≡ a ∷ rest) × (a.severity ≡ worst)
lead_of [] worst _ _ b m e = elim m [ ]
lead_of (a ∷ rest) worst _ _ b (Memᴰ.head same) e =
    (a, rest, refl, ap (λ (x : Anomaly). x.severity) (sym same) ∙ e)
lead_of (a ∷ rest) worst (low, _) (bound, _) b (Memᴰ.tail m) e =
    let over = rank_of_before a b (All_mem _ rest low m) in
    let as_bad = ap rank e in (a, rest, refl, rank-injective a.severity worst (omega arith))

IsIncident-of_group :
    (entry : String × Incident) → IsGroup entry → IsIncident (sort_anomalies entry.1)
IsIncident-of_group (k, i) g = record {
  target = All-sort by_severity _ i.anomalies (
      All-map _ _ i.anomalies
        (λ a e.
          target_key-injective a.scope i.scope a.workflow i.workflow a.bucket_ms i.bucket_ms
            (e ∙ g.named))
        g.same_target);
  sorted = sort-IsSorted by_severity by_severity-IsComparator i.anomalies;
  leads =
      let (b, m, e) = g.attained in
      lead_of (sort by_severity i.anomalies) i.severity
        (sort-IsSorted by_severity by_severity-IsComparator i.anomalies)
        (All-sort by_severity _ i.anomalies g.worst) b (mem-sort by_severity i.anomalies m) e;
}

-- The incidents of some anomalies: they part them by target, each target has one, and they are
-- sorted.
pub record IsGrouping (anomalies : List Anomaly) (incidents : List Incident) : Type 0 where
  pub partition : Perm (gathered (λ (i : Incident). i.anomalies) incidents) anomalies
  pub each : All IsIncident incidents
  pub one_per_target :
      (x y : Incident)
      → Memᴰ x incidents
      → Memᴰ y incidents
      → x.scope ≡ y.scope
      → x.workflow ≡ y.workflow
      → x.bucket_ms ≡ y.bucket_ms
      → x ≡ y
  pub sorted : IsSorted by_incident incidents

abbrev values : List (String × Incident) → List Incident
values by_key = map (λ kv. kv.1) by_key

entry_of :
    {i : Incident} (by_key : List (String × Incident))
    → Memᴰ i (sort by_incident (map sort_anomalies (values by_key)))
    → (entry : String × Incident) × Memᴰ entry by_key × (i ≡ sort_anomalies entry.1)
entry_of by_key m =
    let l = map sort_anomalies (values by_key) in
    let n = All_mem (λ i. Memᴰ i l) _ (All-sort by_incident _ l (All-of_mem _ l (λ i k. k))) m in
    let (j, o, e) = mem_of_mem-map sort_anomalies (values by_key) n in
    let (entry, q, e') = mem_of_mem-map (λ (kv : String × Incident). kv.1) by_key o in
    (entry, q, e ∙ ap sort_anomalies e')

abbrev target_of : Incident → String
target_of i = target_key i.scope i.workflow i.bucket_ms

one_key :
    {entry entry' : String × Incident} {x y : Incident}
    → IsGroup entry
    → IsGroup entry'
    → x ≡ sort_anomalies entry.1
    → y ≡ sort_anomalies entry'.1
    → x.scope ≡ y.scope
    → x.workflow ≡ y.workflow
    → x.bucket_ms ≡ y.bucket_ms
    → entry.0 ≡ entry'.0
one_key {entry} {entry'} {x} {y} g g' e e' scopes names buckets =
    let same_target : target_of x ≡ target_of y = rw scopes (rw names (rw buckets refl)) in
    g.named ∙ sym (ap target_of e) ∙ same_target ∙ ap target_of e' ∙ sym g'.named

-- `groupIncidents` parts the anomalies by scope, workflow and bucket: every anomaly is in exactly
-- one incident, every incident holds anomalies of one target, most severe first, and has the
-- severity of the first, no two incidents have the same target, and they come most severe first.
pub group_incidents-IsGrouping :
    (anomalies : List Anomaly) → IsGrouping anomalies (group_incidents anomalies)
unfolding group_incidents
group_incidents-IsGrouping anomalies =
    let by_key = place_each [] anomalies in
    let p = place_each-IsPlaced anomalies in
    let l = map sort_anomalies (values by_key) in
    let held_by : Incident → List Anomaly = λ i. i.anomalies in
    record {
      partition = Perm.trans (gathered-perm held_by (sort-perm by_incident l)) (
          Perm.trans
            (gathered-map held_by sort_anomalies (λ i. sort-perm by_severity i.anomalies)
              (values by_key))
            (subst (λ k. Perm k anomalies) (sym (gathered-values held_by by_key)) p.partition));
      each = All-of_mem _ _ λ i m.
          let (entry, q, e) = entry_of by_key m in
          subst IsIncident (sym e) (IsIncident-of_group entry (All_mem IsGroup by_key p.groups q));
      one_per_target = λ x y m n scopes names buckets.
          let (entry, q, e) = entry_of by_key m in
          let (entry', q', e') = entry_of by_key n in
          let g = All_mem IsGroup by_key p.groups q in
          let g' = All_mem IsGroup by_key p.groups q' in
          let same : entry ≡ entry' =
            eq_of_key (λ (kv : String × Incident). kv.0) by_key p.distinct q q'
              (one_key g g' e e' scopes names buckets) in
          e ∙ ap (λ (kv : String × Incident). sort_anomalies kv.1) same ∙ sym e';
      sorted = sort-IsSorted by_incident by_incident-IsComparator l;
    }
