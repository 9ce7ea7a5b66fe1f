-- ===== src/Workflows/Compare/Series/Band.antt =====
-- What is drawn of the series.
use tracium.Prelude.{
  ℕ, zero, suc, ◌+◌, ◌≤◌, ◌≡◌, refl, sym, subst, ◌&&◌, List, [], ◌∷◌, Option, none, some, arith,
  number_key, ltb, Bool-cases, inl, inr, if_true, if_false,
}
use tracium.Workflows.Versions.{WorkflowVersion, overlap}
use tracium.Workflows.Compare.Series.{
  VersionSeries, runs_in, both_from, ends_of, when_overlap, band,
}

-- A bucket in which both versions ran, at that index from a first one
abbrev pub RanBoth : VersionSeries → VersionSeries → List ℕ → ℕ → Type 0
RanBoth a b [] k = ⊥
RanBoth a b (ms ∷ buckets_ms) zero = (1 ≤ runs_in ms a) × (1 ≤ runs_in ms b)
RanBoth a b (ms ∷ buckets_ms) (suc k) = RanBoth a b buckets_ms k

abbrev IsEnd : VersionSeries → VersionSeries → List ℕ → ℕ → ℕ → Type 0
IsEnd a b buckets_ms i j = (k : ℕ) × (j ≡ i + k) × RanBoth a b buckets_ms k

-- The indices from an index on, first and last, between which all lie
abbrev Spans : VersionSeries → VersionSeries → List ℕ → ℕ → Option (ℕ × ℕ) → Type 0
Spans a b buckets_ms i none = (k : ℕ) → RanBoth a b buckets_ms k → ⊥
Spans a b buckets_ms i (some (l, r)) =
    IsEnd a b buckets_ms i l
    × IsEnd a b buckets_ms i r
    × ((k : ℕ) → RanBoth a b buckets_ms k → (l ≤ i + k) × (i + k ≤ r))

-- A first index before the others
abbrev before : ℕ → Option (ℕ × ℕ) → Option (ℕ × ℕ)
before i none = some (i, i)
before i (some (l, r)) = some (i, r)

ends_of-cons : (i : ℕ) (js : List ℕ) → ends_of (i ∷ js) ≡ before i (ends_of js)
ends_of-cons i [] = refl
ends_of-cons i (j ∷ js) = refl

IsEnd-suc :
    (a b : VersionSeries) (ms : ℕ) (buckets_ms : List ℕ) (i j : ℕ)
    → IsEnd a b buckets_ms (suc i) j
    → IsEnd a b (ms ∷ buckets_ms) i j
IsEnd-suc a b ms buckets_ms i j (k, e, ran) = (suc k, omega (arith, e), ran)

Spans-skip :
    (a b : VersionSeries) (ms : ℕ) (buckets_ms : List ℕ) (i : ℕ) (o : Option (ℕ × ℕ))
    → ((1 ≤ runs_in ms a) × (1 ≤ runs_in ms b) → ⊥)
    → Spans a b buckets_ms (suc i) o
    → Spans a b (ms ∷ buckets_ms) i o
Spans-skip a b ms buckets_ms i none idle h =
    λ k. elim k as (λ k. RanBoth a b (ms ∷ buckets_ms) k → ⊥) [ zero ↦ idle | suc k ↦ h k ]
Spans-skip a b ms buckets_ms i (some (l, r)) idle (el, er, h) = (
  IsEnd-suc a b ms buckets_ms i l el,
  IsEnd-suc a b ms buckets_ms i r er,
  λ k. elim k as (λ k. RanBoth a b (ms ∷ buckets_ms) k → (l ≤ i + k) × (i + k ≤ r)) [
    | zero ↦ λ ran. absurd (idle ran)
    | suc k ↦ λ ran. (let (x, y) = h k ran in (omega (arith, x), omega (arith, y)))
  ],
)

Spans-here :
    (a b : VersionSeries) (ms : ℕ) (buckets_ms : List ℕ) (i : ℕ) (o : Option (ℕ × ℕ))
    → (1 ≤ runs_in ms a) × (1 ≤ runs_in ms b)
    → Spans a b buckets_ms (suc i) o
    → Spans a b (ms ∷ buckets_ms) i (before i o)
Spans-here a b ms buckets_ms i none ran h = (
  (0, omega arith, ran),
  (0, omega arith, ran),
  λ k. elim k as (λ k. RanBoth a b (ms ∷ buckets_ms) k → (i ≤ i + k) × (i + k ≤ i)) [
    | zero ↦ λ _. (omega arith, omega arith)
    | suc k ↦ λ later. absurd (h k later)
  ],
)
Spans-here a b ms buckets_ms i (some (l, r)) ran (el, (k, e, at), h) = (
  (0, omega arith, ran),
  IsEnd-suc a b ms buckets_ms i r (k, e, at),
  λ k. elim k as (λ k. RanBoth a b (ms ∷ buckets_ms) k → (i ≤ i + k) × (i + k ≤ r)) [
    | zero ↦ λ _. (omega arith, omega (arith, e))
    | suc k ↦ λ later. (let (x, y) = h k later in (omega arith, omega (arith, y)))
  ],
)

both_from-Spans :
    (a b : VersionSeries) (i : ℕ) (buckets_ms : List ℕ)
    → Spans a b buckets_ms i (ends_of (both_from i a b buckets_ms))
both_from-Spans a b i [] = λ k ran. ran
both_from-Spans a b i (ms ∷ buckets_ms) =
    let rest = both_from (suc i) a b buckets_ms in
    let h = both_from-Spans a b (suc i) buckets_ms in
    elim (Bool-cases (ltb 0 (runs_in ms a) && ltb 0 (runs_in ms b))) [
      | inl e ↦
          subst (λ js. Spans a b (ms ∷ buckets_ms) i (ends_of js)) (sym (if_true _ e))
            (subst (Spans a b (ms ∷ buckets_ms) i) (sym (ends_of-cons i rest))
              (Spans-here a b ms buckets_ms i (ends_of rest) (ground (arith, e)) h))
      | inr e ↦
          subst (λ js. Spans a b (ms ∷ buckets_ms) i (ends_of js)) (sym (if_false _ e))
            (Spans-skip a b ms buckets_ms i (ends_of rest) (λ ran. ground (arith, e, ran)) h)
    ]

-- A band for the span in which the versions overlap
abbrev pub IsBand :
    Option (ℕ × ℕ) → VersionSeries → VersionSeries → List ℕ → Option (ℕ × ℕ) → Type 0
IsBand none a b buckets_ms o = o ≡ none
IsBand (some span) a b buckets_ms o = Spans a b buckets_ms 0 o

when_overlap-IsBand :
    (span : Option (ℕ × ℕ)) (a b : VersionSeries) (buckets_ms : List ℕ)
    → IsBand span a b buckets_ms (when_overlap span (both_from 0 a b buckets_ms))
when_overlap-IsBand none a b buckets_ms = refl
when_overlap-IsBand (some span) a b buckets_ms = both_from-Spans a b 0 buckets_ms

-- The band is drawn exactly if the times of the versions overlap and both ran in some bucket; it
-- begins and ends with a bucket in which both ran, and holds all of these.
pub band-IsBand :
    (v w : WorkflowVersion) (a b : VersionSeries) (buckets_ms : List ℕ)
    → IsBand (overlap v w) a b buckets_ms (band v w a b buckets_ms)
unfolding band
band-IsBand v w a b buckets_ms = when_overlap-IsBand (overlap v w) a b buckets_ms
