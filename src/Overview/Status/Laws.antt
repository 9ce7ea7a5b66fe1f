-- ===== src/Overview/Status/Laws.antt =====
-- What the masthead and the failures block of the overview show.
use Prim.Native.Nat.{min}
use tracium.Prelude.{
  ℕ, ◌+◌, ◌≤◌, ◌<◌, ◌≡◌, ◌⊎◌, refl, sym, ap, ◌∙◌, subst, inl, inr, true, false, List, [], ◌∷◌, ◌++◌,
  map, some, Memᴰ, arith, ltb, if◌then◌else◌, Bool-cases, any, All, All_mem, All-of_mem, select,
  mem-select, select_holds, mem_of_mem-select, select-eq-nil,
}
use tracium.Prelude.Keyed.{mem-map, mem_of_mem-map}
use tracium.Prelude.Numbers.{◌⧺◌}
use tracium.Overview.Status.{
  relative_time, FailureRow, worst_from, failures_summary, SyncTone, SyncStatus, QueryState,
  oldest_from, stale_after_ms, sync_status,
}

-- The first row of those with the greatest count
pub record IsWorst (rows : List FailureRow) (r : FailureRow) : Type 0 where
  pub before : List FailureRow
  pub after : List FailureRow
  pub place : rows ≡ before ++ r ∷ after
  pub above : All (λ x. x.count < r.count) before
  pub not_below : All (λ x. x.count ≤ r.count) after

-- Of rows whose first is `x`, none below `x` is the worst.
first-le :
    (x r : FailureRow) (rows before after : List FailureRow)
    → x ∷ rows ≡ before ++ r ∷ after
    → All (λ y. y.count < r.count) before
    → x.count ≤ r.count
first-le x r rows [] after e _ = (let same : x ≡ r = ground arith in rw same (omega arith))
first-le x r rows (b ∷ before) after e (less, _) =
    let same : x ≡ b = ground arith in rw same (omega arith)

-- A row that is not above the first leaves the worst as it is.
IsWorst-insert :
    (m x r : FailureRow) (rows before after : List FailureRow)
    → m ∷ rows ≡ before ++ r ∷ after
    → All (λ y. y.count < r.count) before
    → All (λ y. y.count ≤ r.count) after
    → x.count ≤ m.count
    → IsWorst (m ∷ x ∷ rows) r
IsWorst-insert m x r rows [] after e _ low le =
    let same : m ≡ r = ground arith in
    let rest : rows ≡ after = ground arith in
    record {
      before = [];
      after = x ∷ after;
      place = rw same (rw rest refl);
      above = tt;
      not_below = (subst (λ (w : FailureRow). x.count ≤ w.count) same le, low);
    }
IsWorst-insert m x r rows (b ∷ before) after e (less, above) low le =
    let same : m ≡ b = ground arith in
    let rest : rows ≡ before ++ r ∷ after = ground arith in
    let m_below : m.count < r.count =
      subst (λ (w : FailureRow). w.count < r.count) (sym same) less in
    record {
      before = m ∷ x ∷ before;
      after = after;
      place = ap (λ l. m ∷ x ∷ l) rest;
      above = (m_below, (omega arith, above));
      not_below = low;
    }

worst_from-IsWorst :
    (m : FailureRow) (rows : List FailureRow)
    → (r : FailureRow) × (worst_from (some m) rows ≡ some r) × IsWorst (m ∷ rows) r
unfolding worst_from
worst_from-IsWorst m [] =
    (m, refl, record { before = []; after = []; place = refl; above = tt; not_below = tt })
worst_from-IsWorst m (x ∷ rows) = elim (Bool-cases (ltb m.count x.count)) [
  | inl less ↦
      let (r, ran, w) = worst_from-IsWorst x rows in
      (
        r,
        rw less ran,
        record {
          before = m ∷ w.before;
          after = w.after;
          place = ap (◌∷◌ m) w.place;
          above = (
            let le = first-le x r rows w.before w.after w.place w.above in ground (arith, le, less),
            w.above,
          );
          not_below = w.not_below;
        },
      )
  | inr not_less ↦
      let (r, ran, w) = worst_from-IsWorst m rows in
      (
        r,
        rw not_less ran,
        IsWorst-insert m x r rows w.before w.after w.place w.above w.not_below
            (ground (arith, not_less)),
      )
]

-- `failuresSummary` passes the total on and names the workflow of the first row of those with the
-- most failures, or a dash if there is no row.
pub failures_summary_cases :
    (rows : List FailureRow) (total : ℕ)
    → ((rows ≡ [])
        × (failures_summary rows total ≡ record { total_failed = total; worst_workflow = "—" }))
      ⊎ ((r : FailureRow) × IsWorst rows r
          × (failures_summary rows total
              ≡ record { total_failed = total; worst_workflow = r.workflow }))
unfolding failures_summary worst_from
failures_summary_cases [] total = inl (refl, refl)
failures_summary_cases (m ∷ rows) total =
    let (r, ran, w) = worst_from-IsWorst m rows in inr (r, w, rw ran refl)

oldest_from-least :
    (u : ℕ) (updates : List ℕ)
    → Memᴰ (oldest_from u updates) (u ∷ updates)
      × All (λ v. oldest_from u updates ≤ v) (u ∷ updates)
oldest_from-least u [] = (Memᴰ.head refl, (omega arith, tt))
oldest_from-least u (v ∷ updates) =
    let (m, (low, lows)) = oldest_from-least (min u v) updates in
    (among m, (omega arith, (omega arith, lows)))
  where
    among : {o : ℕ} → Memᴰ o (min u v ∷ updates) → Memᴰ o (u ∷ v ∷ updates)
    among (Memᴰ.tail m) = Memᴰ.tail (Memᴰ.tail m)
    among (Memᴰ.head e) = elim (Bool-cases (ltb u v)) [
      | inl less ↦ Memᴰ.head (e ∙ ground arith)
      | inr more ↦ Memᴰ.tail (Memᴰ.head (e ∙ ground arith))
    ]

-- The status when the oldest success was at `oldest`
abbrev pub status_at : ℕ → ℕ → SyncStatus
status_at now oldest = record {
  label = "Synced " ⧺ relative_time oldest now;
  tone = if ltb (oldest + stale_after_ms) now then SyncTone.stale else SyncTone.live;
}

-- `syncStatus`: if a query has failed, that; else, if none has succeeded, that they run; else how
-- long ago the oldest success was, stale once that is more than five minutes.
pub sync_status_cases :
    (queries : List QueryState) (now : ℕ)
    → ((any (λ q. q.is_error) queries ≡ true)
        × (sync_status queries now ≡ record { label = "Sync failed"; tone = SyncTone.error }))
      ⊎ ((any (λ q. q.is_error) queries ≡ false)
          × All (λ q. q.is_success ≡ false) queries
          × (sync_status queries now ≡ record { label = "Syncing…"; tone = SyncTone.syncing }))
      ⊎ ((any (λ q. q.is_error) queries ≡ false)
          × ((q : QueryState) × Memᴰ q queries
              × (q.is_success ≡ true)
              × All (λ p. p.is_success ≡ true → q.data_updated_at ≤ p.data_updated_at) queries
              × (sync_status queries now ≡ status_at now q.data_updated_at)))
unfolding sync_status
sync_status_cases queries now = elim (Bool-cases (any (λ q. q.is_error) queries)) [
  | inl failed ↦ inl (failed, rw failed refl)
  | inr fine ↦ inr (rest fine (select (λ q. q.is_success) queries) refl)
]
  where
    rest :
        any (λ q. q.is_error) queries ≡ false
        → (done : List QueryState) → select (λ q. q.is_success) queries ≡ done
        → ((any (λ q. q.is_error) queries ≡ false)
            × All (λ q. q.is_success ≡ false) queries
            × (sync_status queries now ≡ record { label = "Syncing…"; tone = SyncTone.syncing }))
          ⊎ ((any (λ q. q.is_error) queries ≡ false)
              × ((q : QueryState) × Memᴰ q queries
                  × (q.is_success ≡ true)
                  × All (λ p. p.is_success ≡ true → q.data_updated_at ≤ p.data_updated_at) queries
                  × (sync_status queries now ≡ status_at now q.data_updated_at)))
    rest fine [] e = inl (fine, select-eq-nil (λ q. q.is_success) queries e, rw fine (rw e refl))
    rest fine (u ∷ done) e =
        let updated : QueryState → ℕ = λ q. q.data_updated_at in
        let (m, low) = oldest_from-least (updated u) (map updated done) in
        let (q, n, at) = mem_of_mem-map updated (u ∷ done) m in
        let chosen : All (λ p. Memᴰ p queries × (p.is_success ≡ true)) (u ∷ done) =
          subst (All (λ p. Memᴰ p queries × (p.is_success ≡ true))) e (
            All-of_mem _ _ (λ p k. (
              mem_of_mem-select (λ q. q.is_success) queries k,
              All_mem _ _ (select_holds (λ q. q.is_success) queries) k,
            ))) in
        let (listed, ok) = All_mem _ (u ∷ done) chosen n in
        inr (
          fine,
          (
            q,
            listed,
            ok,
            All-of_mem _ queries (λ p k h.
                subst (λ o. o ≤ p.data_updated_at) at
                  (All_mem _ (map updated (u ∷ done)) low (
                    mem-map updated (u ∷ done)
                      (subst (Memᴰ p) e (mem-select (λ q. q.is_success) queries h k))))),
            rw fine (rw e (ap (status_at now) at)),
          ),
        )
