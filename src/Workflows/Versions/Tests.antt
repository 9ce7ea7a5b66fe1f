-- ===== src/Workflows/Versions/Tests.antt =====
-- Runs over versions as the API lists them, and each property at a concrete input.
use tracium.Prelude.{ℕ, ◌*◌, ◌≡◌, ◌⊎◌, ◌+◌, refl, false, List, [], ◌∷◌, none, some, String, All}
use tracium.Prelude.Int.{ℤ}
use tracium.Workflows.Versions.{
  WorkflowVersion, day_ms, is_earlier, current_version, previous_version, default_pair, overlap,
  bucket_index,
}
use tracium.Workflows.Versions.Pair.{IsReplacement, default_pair_cases}

abbrev seen : String → ℕ → ℕ → WorkflowVersion
seen version first last = record {
  version = version;
  first_seen_ms = first * day_ms;
  last_seen_ms = last * day_ms;
  calls = 10;
  cost = 1;
  cost_per_run = 1;
  p95_latency_ms = some 1000;
  error_rate = 0;
  tokens_per_run = 100;
}

abbrev versions : List WorkflowVersion
versions = seen "v3" 5 7 ∷ seen "" 0 6 ∷ seen "v2" 2 6 ∷ seen "v1" 0 3 ∷ []

abbrev starts : List ℕ
starts = 0 ∷ day_ms ∷ 2 * day_ms ∷ []

pair : default_pair versions ≡ some ("v2", "v3")
unfolding default_pair current_version previous_version
pair = refl

rolled_back : current_version (seen "v1" 0 9 ∷ seen "v2" 6 7 ∷ []) ≡ some (seen "v1" 0 9)
unfolding current_version
rolled_back = refl

apart : overlap (seen "v3" 5 7) (seen "v1" 0 3) ≡ none
unfolding overlap
apart = refl

in_second : bucket_index starts (day_ms + 5) ≡ ℤ.pos 1
unfolding bucket_index
in_second = refl

default_pair_cases_example :
    ((default_pair versions ≡ none)
      × ((current_version versions ≡ none)
          ⊎ ((v : WorkflowVersion) × (current_version versions ≡ some v)
              × All (λ o. is_earlier v o ≡ false) versions)))
    ⊎ ((base candidate : String) × (default_pair versions ≡ some (base, candidate))
        × IsReplacement versions base candidate)
default_pair_cases_example = default_pair_cases versions

abbrev plain : WorkflowVersion → String
plain v = "var(--info)"
