-- ===== src/Overview/Status/Tests.antt =====
-- Runs of the overview's status, and each property at a concrete input.
use tracium.Prelude.{◌≡◌, refl, true, false, List, [], ◌∷◌}
use tracium.Prelude.Numbers.{number_text}
use tracium.Overview.Status.{
  relative_time, FailureRow, failures_summary, QueryState, SyncTone, sync_status, worst_from,
}

hours : relative_time 1_000 10_801_000 ≡ "3h ago"
unfolding relative_time number_text
hours = refl

from_the_future : relative_time 5_000 1_000 ≡ "just now"
unfolding relative_time number_text
from_the_future = refl

abbrev rows : List FailureRow
rows =
    record { workflow = "chat"; count = 2; pct = 10 }
    ∷ record { workflow = "sync"; count = 5; pct = 3 }
    ∷ record { workflow = "mail"; count = 5; pct = 4 }
    ∷ []

summary : failures_summary rows 14 ≡ record { total_failed = 14; worst_workflow = "sync" }
unfolding failures_summary worst_from
summary = refl

abbrev queries : List QueryState
queries =
    record { is_error = false; is_success = true; data_updated_at = 700_000 }
    ∷ record { is_error = false; is_success = false; data_updated_at = 0 }
    ∷ record { is_error = false; is_success = true; data_updated_at = 400_000 }
    ∷ []

stale : sync_status queries 800_000 ≡ record { label = "Synced 6m ago"; tone = SyncTone.stale }
unfolding sync_status relative_time number_text
stale = refl
