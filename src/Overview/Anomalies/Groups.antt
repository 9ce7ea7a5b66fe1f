-- ===== src/Overview/Anomalies/Groups.antt =====
-- The first loop of `groupIncidents` puts each anomaly in the group of its target.
use mathlib.Core.List.{Perm, perm_middle, append-nil}
use mathlib.Core.List.Perm
use tracium.Prelude.{
  ◌≤◌, ◌≡◌, refl, sym, subst, inl, inr, List, [], ◌∷◌, ◌++◌, String, Memᴰ, arith, ltb, text_key,
  Bool-cases, Option-cases, All, All-append, All-map, All_mem,
}
use tracium.Prelude.Maps.{Distinct, get}
use tracium.Prelude.Gather.{
  gathered, keys, held, held-set_new, held-set_pushed, Distinct-set, All-set, get→Memᴰ,
}
use tracium.Overview.Anomalies.{
  Anomaly, Incident, incident_key, target_key, rank, start, push, place_in, place_each,
}

-- An entry of the map: a group under the key of its target.
pub record IsGroup (entry : String × Incident) : Type 0 where
  pub keyed : entry.1.key ≡ entry.0
  pub named : entry.0 ≡ target_key entry.1.scope entry.1.workflow entry.1.bucket_ms
  pub same_target : All (λ a. incident_key a ≡ entry.0) entry.1.anomalies
  pub worst : All (λ a. rank a.severity ≤ rank entry.1.severity) entry.1.anomalies
  pub attained : (a : Anomaly) × Memᴰ a entry.1.anomalies × (a.severity ≡ entry.1.severity)

IsGroup-start : (a : Anomaly) → IsGroup (incident_key a, start a)
IsGroup-start a = record {
  keyed = refl;
  named = refl;
  same_target = (refl, tt);
  worst = (omega arith, tt);
  attained = (a, Memᴰ.head refl, refl);
}

mem-append_left : {a : Anomaly} (l m : List Anomaly) → Memᴰ a l → Memᴰ a (l ++ m)
mem-append_left [] m n = elim n [ ]
mem-append_left (x ∷ l) m (Memᴰ.head e) = Memᴰ.head e
mem-append_left (x ∷ l) m (Memᴰ.tail n) = Memᴰ.tail (mem-append_left l m n)

mem-append_last : (l : List Anomaly) (a : Anomaly) → Memᴰ a (l ++ a ∷ [])
mem-append_last [] a = Memᴰ.head refl
mem-append_last (x ∷ l) a = Memᴰ.tail (mem-append_last l a)

IsGroup-push :
    (a : Anomaly) (inc : Incident)
    → IsGroup (incident_key a, inc)
    → IsGroup (incident_key a, push a inc)
IsGroup-push a inc g = elim (Bool-cases (ltb (rank inc.severity) (rank a.severity))) [
  | inl worse ↦ record {
    keyed = g.keyed;
    named = g.named;
    same_target = All-append _ inc.anomalies _ g.same_target (refl, tt);
    worst = rw worse (
        All-append _ inc.anomalies _
          (All-map _ _ inc.anomalies (λ b h. ground (arith, worse)) g.worst) (omega arith, tt));
    attained = (a, mem-append_last inc.anomalies a, rw worse refl);
  }
  | inr not_worse ↦ record {
    keyed = g.keyed;
    named = g.named;
    same_target = All-append _ inc.anomalies _ g.same_target (refl, tt);
    worst = rw not_worse (All-append _ inc.anomalies _ g.worst (ground (arith, not_worse), tt));
    attained = let (b, m, e) = g.attained in (b, mem-append_left inc.anomalies _ m, rw not_worse e);
  }
]

-- The map so far, and the anomalies that it holds
pub record IsPlaced (by_key : List (String × Incident)) (placed : List Anomaly) : Type 0 where
  pub distinct : Distinct (keys by_key)
  pub groups : All IsGroup by_key
  pub partition : Perm (held (λ (i : Incident). i.anomalies) by_key) placed

IsPlaced-place_in :
    (a : Anomaly) (by_key : List (String × Incident)) (placed : List Anomaly)
    → IsPlaced by_key placed
    → IsPlaced (place_in a (get (incident_key a) by_key) by_key) (a ∷ placed)
IsPlaced-place_in a by_key placed p = elim (Option-cases (get (incident_key a) by_key)) [
  | inl new ↦ rw new (record {
    distinct = Distinct-set (incident_key a) (start a) by_key p.distinct;
    groups = All-set IsGroup (incident_key a) (start a) by_key (IsGroup-start a) p.groups;
    partition =
        Perm.trans
          (subst (λ l. Perm l (a ∷ held (λ (i : Incident). i.anomalies) by_key))
            (sym
              (held-set_new (λ (i : Incident). i.anomalies) (incident_key a) (start a) by_key new))
            (appended (held (λ (i : Incident). i.anomalies) by_key)))
          (Perm.cons a p.partition);
  })
  | inr (inc, old) ↦ rw old (record {
    distinct = Distinct-set (incident_key a) (push a inc) by_key p.distinct;
    groups =
        All-set IsGroup (incident_key a) (push a inc) by_key
          (IsGroup-push a inc
            (All_mem IsGroup by_key p.groups (get→Memᴰ (incident_key a) by_key old)))
          p.groups;
    partition =
        Perm.trans
          (held-set_pushed (λ (i : Incident). i.anomalies) (incident_key a) inc (push a inc) a
            by_key old refl)
          (Perm.cons a p.partition);
  })
]
  where
    appended : (l : List Anomaly) → Perm (l ++ a ∷ []) (a ∷ l)
    appended l = subst (λ k. Perm (l ++ a ∷ []) (a ∷ k)) (append-nil l) (perm_middle l [])

IsPlaced-place_each :
    (anomalies : List Anomaly) (by_key : List (String × Incident)) (placed : List Anomaly)
    → IsPlaced by_key placed
    → IsPlaced (place_each by_key anomalies) (anomalies ++ placed)
unfolding place_each
IsPlaced-place_each [] by_key placed p = p
IsPlaced-place_each (a ∷ anomalies) by_key placed p =
    let q =
      IsPlaced-place_each anomalies (place_in a (get (incident_key a) by_key) by_key) (a ∷ placed)
        (IsPlaced-place_in a by_key placed p) in
    record {
      distinct = q.distinct;
      groups = q.groups;
      partition = Perm.trans q.partition (perm_middle anomalies placed);
    }

pub place_each-IsPlaced : (anomalies : List Anomaly) → IsPlaced (place_each [] anomalies) anomalies
unfolding gathered
place_each-IsPlaced anomalies = subst (IsPlaced (place_each [] anomalies)) (append-nil anomalies) (
    IsPlaced-place_each anomalies [] []
      (record { distinct = tt; groups = tt; partition = Perm.rfl }))
