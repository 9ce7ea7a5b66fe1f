-- ===== src/Workflows/Versions.antt =====
-- Versions of a workflow: dashboard/src/modules/workflows/interfaces/WorkflowVersion.ts and
-- utils/versions.ts. Timestamps are whole milliseconds from the epoch; an index that may be -1 is
-- an integer. Texts with units (costs, points) are left out.
pub mod Newest
pub mod Pair
pub mod Buckets
mod Tests
use tracium.Prelude.{
  ℕ, zero, suc, ◌+◌, ◌-◌, ◌*◌, Bool, true, false, ◌&&◌, ◌||◌, not, List, [], ◌∷◌, ◌++◌, map, Option,
  none, some, String, ltb, leb, if◌then◌else◌, ◌===◌, text_key, select, or_text,
}
use Prim.Native.Nat.{max, min}
use tracium.Prelude.Int.{ℤ}
use tracium.Common.{ChartMarker}

pub record WorkflowVersion : Type 0 where
  pub version : String
  pub first_seen_ms : ℕ
  pub last_seen_ms : ℕ
  pub calls : ℕ
  pub cost : ℕ
  pub cost_per_run : ℕ
  pub p95_latency_ms : Option ℕ
  pub error_rate : ℕ
  pub tokens_per_run : ℕ

pub version_label : String → String
version_label version = or_text version "unversioned"

abbrev pub day_ms : ℕ
day_ms = 86_400_000

abbrev pub comparable : WorkflowVersion → Bool
comparable v = not (v.version === "")

-- `(best, o) => (!best || o.first_seen_ms > best.first_seen_ms ? o : best)`
abbrev pub later : Option WorkflowVersion → WorkflowVersion → WorkflowVersion
later none o = o
later (some best) o = if ltb best.first_seen_ms o.first_seen_ms then o else best

-- The `reduce` with that function
unfoldable pub newest : Option WorkflowVersion → List WorkflowVersion → Option WorkflowVersion
newest best [] = best
newest best (o ∷ os) = newest (some (later best o)) os

abbrev pub is_earlier : WorkflowVersion → WorkflowVersion → Bool
is_earlier v o =
    comparable o && (not (o.version === v.version) && leb o.first_seen_ms v.first_seen_ms)

unfoldable pub previous_version : List WorkflowVersion → WorkflowVersion → Option WorkflowVersion
unfolding newest
previous_version versions v = newest none (select (is_earlier v) versions)

-- `Math.max(...live.map((v) => v.last_seen_ms))`. Of no versions it is not read: none is filtered.
unfoldable pub latest_seen : List WorkflowVersion → ℕ
latest_seen [] = 0
latest_seen (v ∷ live) = max v.last_seen_ms (latest_seen live)

-- `v.last_seen_ms >= latest - DAY_MS`
abbrev pub is_running : ℕ → WorkflowVersion → Bool
is_running latest v = leb latest (v.last_seen_ms + day_ms)

unfoldable pub current_version : List WorkflowVersion → Option WorkflowVersion
unfolding newest latest_seen
current_version versions =
    let live = select comparable versions in
    newest none (select (is_running (latest_seen live)) live)

-- The pair, where there is a previous version
abbrev pub pair_with : Option WorkflowVersion → WorkflowVersion → Option (String × String)
pair_with none current = none
pair_with (some prev) current = some (prev.version, current.version)

abbrev pub pair_from : List WorkflowVersion → Option WorkflowVersion → Option (String × String)
pair_from versions none = none
pair_from versions (some current) = pair_with (previous_version versions current) current

unfoldable pub default_pair : List WorkflowVersion → Option (String × String)
default_pair versions = pair_from versions (current_version versions)

unfoldable pub overlap : WorkflowVersion → WorkflowVersion → Option (ℕ × ℕ)
overlap a b =
    let start = max a.first_seen_ms b.first_seen_ms in
    let end = min a.last_seen_ms b.last_seen_ms in if leb start end then some (start, end) else none

-- The loop of `bucketIndex`: `i` is the next index, `idx` the last that was assigned.
bucket_index_from : ℤ → ℕ → List ℕ → ℕ → ℤ
bucket_index_from idx i [] ms = idx
bucket_index_from idx i (start ∷ starts) ms =
    let next = bucket_index_from (ℤ.pos i) (suc i) starts ms in if leb start ms then next else idx

unfoldable pub bucket_index : List ℕ → ℕ → ℤ
unfolding bucket_index_from
bucket_index starts ms = bucket_index_from (ℤ.negsuc 0) 0 starts ms

-- The marker of a version with its bucket's index; no index that is 0 or less has one.
abbrev pub marker_at :
    (WorkflowVersion → String) → Bool → WorkflowVersion → ℤ → List (ChartMarker WorkflowVersion)
marker_at color clickable v (ℤ.pos (suc i)) =
    record {
      index = suc i;
      color = color v;
      label = some v.version;
      on_click = if clickable then some v else none;
    }
    ∷ []
marker_at color clickable v (ℤ.pos zero) = []
marker_at color clickable v (ℤ.negsuc n) = []

flat_markers :
    (WorkflowVersion → String)
    → Bool
    → List ℕ
    → List WorkflowVersion
    → List (ChartMarker WorkflowVersion)
flat_markers color clickable starts [] = []
flat_markers color clickable starts (v ∷ versions) =
    marker_at color clickable v (bucket_index starts v.first_seen_ms)
    ++ flat_markers color clickable starts versions

-- `clickable` says whether `onClick` was given.
unfoldable pub release_markers :
    List WorkflowVersion
    → List ℕ
    → (WorkflowVersion → String)
    → Bool
    → List (ChartMarker WorkflowVersion)
unfolding flat_markers
release_markers versions starts color clickable =
    flat_markers color clickable starts (select comparable versions)
