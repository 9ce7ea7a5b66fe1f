-- ===== src/Overview/Status.antt =====
-- dashboard/src/modules/overview/utils/status.ts, with `relativeTime` of
-- dashboard/src/common/utils/time.ts. Times are whole milliseconds from the epoch.
pub mod Laws
mod Tests
use tracium.Prelude.{
  ℕ, zero, suc, ◌+◌, ◌-◌, ◌*◌, ◌/◌, ◌≤◌, ◌<◌, ◌≡◌, ◌⊎◌, refl, sym, ap, ◌∙◌, inl, inr, Bool, true,
  false, List, [], ◌∷◌, map, Option, none, some, String, Memᴰ, arith, ltb, if◌then◌else◌,
  Bool-cases, any, any-eq-false_iff, All, All-map, select,
}
use Prim.Native.Nat.{min}
use tracium.Prelude.Numbers.{◌⧺◌, number_text}

-- `relativeTime`: a time in the future counts as now.
unfoldable pub relative_time : ℕ → ℕ → String
relative_time ms now =
    let s = (now - ms) / 1000 in
    let m = s / 60 in
    let h = m / 60 in
    if ltb s 10
    then "just now"
    else if ltb s 60
    then number_text s ⧺ "s ago"
    else if ltb m 60
    then number_text m ⧺ "m ago"
    else if ltb h 24
    then number_text h ⧺ "h ago"
    else number_text (h / 24) ⧺ "d ago"

-- `pct` is in a fixed small unit.
pub record FailureRow : Type 0 where
  pub workflow : String
  pub count : ℕ
  pub pct : ℕ

pub record FailuresSummary : Type 0 where
  pub total_failed : ℕ
  pub worst_workflow : String

-- `(m, r) => (!m || r.count > m.count ? r : m)`
abbrev pub worse : Option FailureRow → FailureRow → FailureRow
worse none r = r
worse (some m) r = if ltb m.count r.count then r else m

unfoldable pub worst_from : Option FailureRow → List FailureRow → Option FailureRow
worst_from m [] = m
worst_from m (r ∷ rows) = worst_from (some (worse m r)) rows

abbrev pub workflow_or_dash : Option FailureRow → String
workflow_or_dash none = "—"
workflow_or_dash (some worst) = worst.workflow

unfoldable pub failures_summary : List FailureRow → ℕ → FailuresSummary
unfolding worst_from
failures_summary rows total = record {
  total_failed = total;
  worst_workflow = workflow_or_dash (worst_from none rows);
}

pub data SyncTone : Type 0 where
  live stale error syncing : SyncTone

pub record SyncStatus : Type 0 where
  pub label : String
  pub tone : SyncTone

pub record QueryState : Type 0 where
  pub is_error : Bool
  pub is_success : Bool
  pub data_updated_at : ℕ

-- `Math.min(oldest, ...updates)`
abbrev pub oldest_from : ℕ → List ℕ → ℕ
oldest_from oldest [] = oldest
oldest_from oldest (u ∷ updates) = oldest_from (min oldest u) updates

abbrev pub stale_after_ms : ℕ
stale_after_ms = 5 * 60 * 1000

abbrev pub status_of_updates : ℕ → List ℕ → SyncStatus
status_of_updates now [] = record { label = "Syncing…"; tone = SyncTone.syncing }
status_of_updates now (u ∷ updates) =
    let oldest = oldest_from u updates in
    record {
      label = "Synced " ⧺ relative_time oldest now;
      tone = if ltb (oldest + stale_after_ms) now then SyncTone.stale else SyncTone.live;
    }

unfoldable pub sync_status : List QueryState → ℕ → SyncStatus
sync_status queries now =
    if any (λ q. q.is_error) queries
    then record { label = "Sync failed"; tone = SyncTone.error }
    else status_of_updates now (map (λ q. q.data_updated_at) (select (λ q. q.is_success) queries))
