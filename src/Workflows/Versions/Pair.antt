-- ===== src/Workflows/Versions/Pair.antt =====
-- The current version, the one that it replaced, and the span that two versions share.
use Prim.Native.Nat.{max, min}
use tracium.Prelude.{
  ℕ, ◌+◌, ◌≤◌, ◌≡◌, ◌≢◌, ◌↔◌, ◌⊎◌, refl, inl, inr, true, false, List, [], ◌∷◌, Option, none, some,
  String, Memᴰ, arith, All, All-map, All_mem, All-of_mem, Bool-cases, Option-cases, leb, text_key,
  ne_of_differs, select, select-eq-nil, select_holds, mem-select, mem_of_mem-select,
}
use tracium.Workflows.Versions.{
  WorkflowVersion, comparable, day_ms, newest, is_earlier, previous_version, latest_seen,
  is_running, current_version, default_pair, overlap,
}
use tracium.Workflows.Versions.Newest.{IsNewest-of_newest, newest_of_mem, newest-eq-none}

-- `o` has run within a day of the last run of every released version.
abbrev pub StillRuns : List WorkflowVersion → WorkflowVersion → Type 0
StillRuns versions o =
    (p : WorkflowVersion)
    → Memᴰ p versions
    → comparable p ≡ true
    → p.last_seen_ms ≤ o.last_seen_ms + day_ms

-- The newest release that still runs.
pub record IsCurrent (versions : List WorkflowVersion) (v : WorkflowVersion) : Type 0 where
  pub member : Memᴰ v versions
  pub released : comparable v ≡ true
  pub running : StillRuns versions v
  pub latest :
      (o : WorkflowVersion)
      → Memᴰ o versions
      → comparable o ≡ true
      → StillRuns versions o
      → o.first_seen_ms ≤ v.first_seen_ms

latest_seen-le :
    (l : List WorkflowVersion) (n : ℕ) → All (λ o. o.last_seen_ms ≤ n) l → latest_seen l ≤ n
unfolding latest_seen
latest_seen-le [] n h = omega arith
latest_seen-le (v ∷ l) n (h, hs) = omega (arith, latest_seen-le l n hs)

le-latest_seen : (l : List WorkflowVersion) → All (λ o. o.last_seen_ms ≤ latest_seen l) l
unfolding latest_seen
le-latest_seen [] = tt
le-latest_seen (v ∷ l) = (omega arith, All-map _ _ l (λ o h. omega arith) (le-latest_seen l))

latest_seen_attained :
    (v : WorkflowVersion) (l : List WorkflowVersion)
    → (o : WorkflowVersion) × Memᴰ o (v ∷ l) × (latest_seen (v ∷ l) ≤ o.last_seen_ms)
unfolding latest_seen
latest_seen_attained v [] = (v, Memᴰ.head refl, omega arith)
latest_seen_attained v (w ∷ l) =
    let (o, m, h) = latest_seen_attained w l in
    elim (Bool-cases (leb (latest_seen (w ∷ l)) v.last_seen_ms)) [
      | inl first ↦ (v, Memᴰ.head refl, ground arith)
      | inr later ↦ (o, Memᴰ.tail m, ground arith)
    ]

module _ (versions : List WorkflowVersion) where
  live : List WorkflowVersion
  live = select comparable versions

  is_running_iff :
      (o : WorkflowVersion) → (is_running (latest_seen live) o ≡ true) ↔ StillRuns versions o
  unfolding live
  is_running_iff o = (
    λ r p m c.
        let below = All_mem _ live (le-latest_seen live) (mem-select comparable versions c m) in
        ground arith,
    λ s.
        let bound = latest_seen-le live (o.last_seen_ms + day_ms) (
          All-of_mem _ live λ p m.
            s p (mem_of_mem-select comparable versions m)
              (All_mem _ live (select_holds comparable versions) m)) in
        ground arith,
  )

  IsCurrent-current_version :
      (v : WorkflowVersion) → current_version versions ≡ some v → IsCurrent versions v
  unfolding current_version live
  IsCurrent-current_version v e =
      let runs = is_running (latest_seen live) in
      let best = IsNewest-of_newest (select runs live) v e in
      let kept = mem_of_mem-select runs live best.member in
      record {
        member = mem_of_mem-select comparable versions kept;
        released = All_mem _ live (select_holds comparable versions) kept;
        running =
            (is_running_iff v).0
              (All_mem _ (select runs live) (select_holds runs live) best.member);
        latest = λ o m c s.
            All_mem _ (select runs live) best.latest
              (mem-select runs live ((is_running_iff o).1 s) (mem-select comparable versions c m));
      }

current_of_live :
    (versions l : List WorkflowVersion)
    → select comparable versions ≡ l
    → ((current_version versions ≡ none) × All (λ v. comparable v ≡ false) versions)
      ⊎ ((v : WorkflowVersion) × (current_version versions ≡ some v))
unfolding current_version newest
current_of_live versions [] e = inl (rw e, select-eq-nil comparable versions e)
current_of_live versions (v ∷ l) e =
    let (o, m, last) = latest_seen_attained v l in
    let runs : is_running (latest_seen (v ∷ l)) o ≡ true = ground (arith, last) in
    let (w, ran) =
      newest_of_mem (select (is_running (latest_seen (v ∷ l))) (v ∷ l))
        (mem-select (is_running (latest_seen (v ∷ l))) (v ∷ l) runs m) in
    inr (w, rw e ran)

-- `currentVersion` finds nothing exactly if no version is released; else it finds the release that
-- was first seen last among those that ran within a day of the last run of any release.
pub current_version_cases :
    (versions : List WorkflowVersion)
    → ((current_version versions ≡ none) × All (λ v. comparable v ≡ false) versions)
      ⊎ ((v : WorkflowVersion) × (current_version versions ≡ some v) × IsCurrent versions v)
current_version_cases versions = elim (current_of_live versions (select comparable versions) refl) [
  | inl nothing ↦ inl nothing
  | inr (v, ran) ↦ inr (v, ran, IsCurrent-current_version versions v ran)
]

-- `base` is the release that was first seen last among the others first seen no later than the
-- current one, `candidate`.
pub record IsReplacement (versions : List WorkflowVersion) (base candidate : String) : Type 0 where
  pub current : WorkflowVersion
  pub previous : WorkflowVersion
  pub named : (base ≡ previous.version) × (candidate ≡ current.version)
  pub is_current : IsCurrent versions current
  pub member : Memᴰ previous versions
  pub released : comparable previous ≡ true
  pub other : previous.version ≢ current.version
  pub earlier : previous.first_seen_ms ≤ current.first_seen_ms
  pub latest :
      (o : WorkflowVersion)
      → Memᴰ o versions
      → is_earlier current o ≡ true
      → o.first_seen_ms ≤ previous.first_seen_ms

previous-IsReplacement :
    (versions : List WorkflowVersion) (current previous : WorkflowVersion)
    → IsCurrent versions current
    → previous_version versions current ≡ some previous
    → IsReplacement versions previous.version current.version
unfolding previous_version
previous-IsReplacement versions current previous c e =
    let earlier = is_earlier current in
    let best = IsNewest-of_newest (select earlier versions) previous e in
    let holds = All_mem _ (select earlier versions) (select_holds earlier versions) best.member in
    record {
      current = current;
      previous = previous;
      named = (refl, refl);
      is_current = c;
      member = mem_of_mem-select earlier versions best.member;
      released = ground arith;
      other = ne_of_differs previous.version current.version (ground arith);
      earlier = ground arith;
      latest = λ o m k.
          All_mem _ (select earlier versions) best.latest (mem-select earlier versions k m);
    }

no_earlier :
    (versions : List WorkflowVersion) (v : WorkflowVersion)
    → previous_version versions v ≡ none
    → All (λ o. is_earlier v o ≡ false) versions
unfolding previous_version
no_earlier versions v p = select-eq-nil (is_earlier v) versions (newest-eq-none _ p)

-- The pair that `defaultPair` offers to compare: the current release and the other release that
-- was first seen last before it or with it. Without a current release, or without such another,
-- there is no pair.
pub default_pair_cases :
    (versions : List WorkflowVersion)
    → ((default_pair versions ≡ none)
        × ((current_version versions ≡ none)
            ⊎ ((v : WorkflowVersion) × (current_version versions ≡ some v)
                × All (λ o. is_earlier v o ≡ false) versions)))
      ⊎ ((base candidate : String) × (default_pair versions ≡ some (base, candidate))
          × IsReplacement versions base candidate)
unfolding default_pair
default_pair_cases versions = elim (Option-cases (current_version versions)) [
  | inl e ↦ inl (rw e, inl e)
  | inr (v, e) ↦ elim (Option-cases (previous_version versions v)) [
    | inl p ↦ inl (rw e (rw p), inr (v, e, no_earlier versions v p))
    | inr (w, p) ↦ inr (
      w.version,
      v.version,
      rw e (rw p),
      previous-IsReplacement versions v w (IsCurrent-current_version versions v e) p,
    )
  ]
]

-- The instants that a span holds
abbrev pub Within : Option (ℕ × ℕ) → ℕ → Type 0
Within none ms = ⊥
Within (some (start, end)) ms = (start ≤ ms) × (ms ≤ end)

-- `overlap` is the common part: an instant lies in it exactly if both versions had been seen by
-- then and both were seen then or later. Where there is no such instant it is null.
pub overlap_iff :
    (a b : WorkflowVersion) (ms : ℕ)
    → Within (overlap a b) ms ↔ (
        ((a.first_seen_ms ≤ ms) × (ms ≤ a.last_seen_ms))
        × ((b.first_seen_ms ≤ ms) × (ms ≤ b.last_seen_ms)))
unfolding overlap
overlap_iff a b ms =
    elim (Bool-cases
      (leb (max a.first_seen_ms b.first_seen_ms) (min a.last_seen_ms b.last_seen_ms))) [
        | inl e ↦ rw e (λ h. omega arith, λ h. omega arith)
        | inr e ↦ rw e (λ h. absurd h, λ h. ground arith)
      ]
