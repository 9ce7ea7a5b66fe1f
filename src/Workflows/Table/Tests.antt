-- ===== src/Workflows/Table/Tests.antt =====
-- A list of workflows, and each property at a concrete input.
use tracium.Prelude.{ℕ, ◌≡◌, refl, List, [], ◌∷◌, some, String}
use tracium.Prelude.Sort.{sort, insert}
use tracium.Uri.{Text, bytes}
use tracium.Texts.{includes}
use tracium.Tables.Samples.{by_length}
use tracium.Workflows.Table.{
  Workflow, calls, Page, open_workflows, filtered, top, top_volume, click_header, type_filter, step,
}

abbrev workflow : String → ℕ → ℕ → Workflow
workflow title count price = record {
  name = bytes title;
  calls = count;
  cost = price;
  avg_latency_ms = 1;
  error_rate = 0;
  trend = [];
  last_trace_id = [];
}

abbrev as_is : Text → Text
as_is t = t

abbrev listed : List Workflow
listed =
    workflow "chat" 3 9 ∷ workflow "search" 7 2 ∷ workflow "chat-2" 7 9 ∷ workflow "index" 1 1 ∷ []

abbrev ascending : Page
ascending = step (click_header calls) (step (type_filter (bytes "ch")) open_workflows)

-- One click on the header of the column that is chosen from the start
shown :
    filtered as_is by_length ascending listed
    ≡ workflow "chat" 3 9 ∷ workflow "search" 7 2 ∷ workflow "chat-2" 7 9 ∷ []
unfolding filtered sort includes insert
shown = refl

volume : top_volume listed ≡ some (workflow "search" 7 2)
unfolding top
volume = refl
