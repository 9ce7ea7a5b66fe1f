-- ===== src/Overview/Anomalies/Chips.antt =====
-- The chips over the anomalies: `anomalyChips` of dashboard/src/modules/overview/utils/anomalies.ts.
use tracium.Prelude.{
  ℕ, zero, suc, ◌+◌, ◌≡◌, ◌⊎◌, ◌↔◌, refl, ap, ◌∙◌, inl, inr, Bool, true, false, List, [], ◌∷◌, map,
  Option, none, some, String, arith, ltb, if◌then◌else◌, Key, ◌===◌, text_key, number_key,
  number_same, Bool-cases, eq_of_same, length, select,
}
use mathlib.Core.Path.{fun_ext}
use tracium.Prelude.Maps.{get, set, get-set}
use tracium.Prelude.Numbers.{◌⧺◌, number_text}
use tracium.Common.{Severity, severity_meta}
use tracium.Overview.Anomalies.{Anomaly, AnomalyMetric}

abbrev pub metric_same : AnomalyMetric → AnomalyMetric → Bool
metric_same AnomalyMetric.cost AnomalyMetric.cost = true
metric_same AnomalyMetric.error_rate AnomalyMetric.error_rate = true
metric_same AnomalyMetric.runs AnomalyMetric.runs = true
metric_same j k = false

pub metric_same_iff : (j k : AnomalyMetric) → (metric_same j k ≡ true) ↔ (j ≡ k)
metric_same_iff j k = ground arith

instance abbrev pub metric_key : Key AnomalyMetric
metric_key = record { same = metric_same; same_iff = metric_same_iff }

pub record AnomalyChip : Type 0 where
  pub metric : AnomalyMetric
  pub label : String
  pub color : String
  pub tint : String
  pub border : String

pub record ChipDef : Type 0 where
  pub metric : AnomalyMetric
  pub noun : String
  pub sev : Severity

-- CHIP_DEFS
abbrev pub chip_defs : List ChipDef
chip_defs =
    record { metric = AnomalyMetric.cost; noun = "cost spike"; sev = Severity.critical }
    ∷ record { metric = AnomalyMetric.error_rate; noun = "error spike"; sev = Severity.critical }
    ∷ record { metric = AnomalyMetric.runs; noun = "volume shift"; sev = Severity.warning }
    ∷ []

abbrev pub or_zero : Option ℕ → ℕ
or_zero none = 0
or_zero (some n) = n

abbrev pub is_some : Option ℕ → Bool
is_some none = false
is_some (some n) = true

unfoldable count_each : List (AnomalyMetric × ℕ) → List Anomaly → List (AnomalyMetric × ℕ)
count_each counts [] = counts
count_each counts (a ∷ anomalies) =
    count_each (set a.metric (or_zero (get a.metric counts) + 1) counts) anomalies

unfoldable pub chip : ChipDef → ℕ → AnomalyChip
chip d n = record {
  metric = d.metric;
  label = number_text n ⧺ (" " ⧺ (d.noun ⧺ (if number_same n 1 then "" else "s")));
  color = (severity_meta d.sev).color;
  tint = (severity_meta d.sev).tint;
  border = (severity_meta d.sev).border;
}

unfoldable pub anomaly_chips : List Anomaly → List AnomalyChip
unfolding count_each
anomaly_chips anomalies =
    let counts = count_each [] anomalies in
    map (λ d. chip d (or_zero (get d.metric counts)))
      (select (λ d. is_some (get d.metric counts)) chip_defs)

-- How many of the anomalies are of a metric
abbrev pub count_of : AnomalyMetric → List Anomaly → ℕ
count_of k anomalies = length (select (λ a. a.metric === k) anomalies)

-- A count so far, and as many more
abbrev raised : Option ℕ → ℕ → Option ℕ
raised o zero = o
raised o (suc n) = some (or_zero o + suc n)

raised-suc : (z n : ℕ) → raised (some (z + 1)) n ≡ some (z + suc n)
raised-suc z zero = refl
raised-suc z (suc n) = ap some (omega arith)

get-count_each :
    (k : AnomalyMetric) (anomalies : List Anomaly) (counts : List (AnomalyMetric × ℕ))
    → get k (count_each counts anomalies) ≡ raised (get k counts) (count_of k anomalies)
unfolding count_each
get-count_each k [] counts = refl
get-count_each k (a ∷ anomalies) counts =
    get-count_each k anomalies (set a.metric (or_zero (get a.metric counts) + 1) counts)
    ∙ ap (λ o. raised o (count_of k anomalies))
        (get-set a.metric k (or_zero (get a.metric counts) + 1) counts)
    ∙ after (Bool-cases (a.metric === k))
  where
    after :
        ((a.metric === k) ≡ true) ⊎ ((a.metric === k) ≡ false)
        → raised
            (if a.metric === k then some (or_zero (get a.metric counts) + 1) else get k counts)
            (count_of k anomalies)
          ≡ raised (get k counts) (count_of k (a ∷ anomalies))
    after (inl same) = rw same (
        ap (λ m. raised (some (or_zero (get m counts) + 1)) (count_of k anomalies))
          (eq_of_same a.metric k same)
        ∙ raised-suc (or_zero (get k counts)) (count_of k anomalies))
    after (inr other) = rw other refl

is_some-raised : (n : ℕ) → is_some (raised none n) ≡ ltb 0 n
is_some-raised n = ground arith

or_zero-raised : (n : ℕ) → or_zero (raised none n) ≡ n
or_zero-raised zero = refl
or_zero-raised (suc n) = omega arith

-- `anomalyChips` shows, in the order of CHIP_DEFS, a chip for just the metrics that some anomaly is
-- of, with how many are.
pub anomaly_chips-map :
    (anomalies : List Anomaly)
    → anomaly_chips anomalies
      ≡ map
          (λ d. chip d (count_of d.metric anomalies))
          (select (λ d. ltb 0 (count_of d.metric anomalies)) chip_defs)
unfolding anomaly_chips
anomaly_chips-map anomalies =
    let counts = count_each [] anomalies in
    let counted : (k : AnomalyMetric) → get k counts ≡ raised none (count_of k anomalies) =
      λ k. get-count_each k anomalies [] in
    let shown : (λ (d : ChipDef). is_some (get d.metric counts))
        ≡ (λ d. ltb 0 (count_of d.metric anomalies)) =
      fun_ext (λ d. ap is_some (counted d.metric) ∙ is_some-raised (count_of d.metric anomalies)) in
    let drawn : (λ (d : ChipDef). chip d (or_zero (get d.metric counts)))
        ≡ (λ d. chip d (count_of d.metric anomalies)) =
      fun_ext (λ d.
        ap (chip d)
          (ap or_zero (counted d.metric) ∙ or_zero-raised (count_of d.metric anomalies))) in
    ap (λ p. map (λ d. chip d (or_zero (get d.metric counts))) (select p chip_defs)) shown
    ∙ ap (λ f. map f (select (λ d. ltb 0 (count_of d.metric anomalies)) chip_defs)) drawn
