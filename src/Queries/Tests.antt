-- ===== src/Queries/Tests.antt =====
-- Runs of the queries, and each property at a concrete input.
use tracium.Prelude.{
  String, Option, ◌≡◌, ◌⊎◌, ◌↔◌, refl, true, false, [], ◌∷◌, none, some, text_key,
}
use tracium.Prelude.Numbers.{number_text}
use tracium.Api.Client.{ApiClientConfig, get_request, set_params}
use tracium.Api.Endpoints.{read_request}
use tracium.Queries.{Query, query_key, query_request, is_enabled, placeholder_data}
use tracium.Queries.Placeholder.{placeholder_data_iff}
use tracium.Queries.Keys.{query_key-injective}

abbrev config : ApiClientConfig
config = record {
  base_url = "http://localhost:8080";
  api_key = "key";
  timeout_ms = none;
  workspace_id = some "w1";
}

abbrev runs : Query
runs = Query.use_workflow_runs "sync" "7d" none

keyed :
    query_key (some "w1") runs
    ≡ some "workflows" ∷ some "runs" ∷ some "w1" ∷ some "sync" ∷ some "7d" ∷ none ∷ []
unfolding query_key
keyed = refl

sent :
    (query_request config runs).url.search_params
    ≡ ("workflow", "sync") ∷ ("range", "7d") ∷ ("page_size", "10") ∷ ("workspace_id", "w1") ∷ []
unfolding query_request read_request get_request set_params number_text
sent = refl

waits : is_enabled (Query.use_client_kpis "" "7d") ≡ false
unfolding is_enabled
waits = refl

enabled : is_enabled (Query.use_client_traces "ada" "7d") ≡ true
unfolding is_enabled
enabled = refl

abbrev workspace : Option String
workspace = some "w1"

query_key-injective_example : (workspace ≡ workspace) × (runs ≡ runs)
query_key-injective_example = query_key-injective workspace workspace runs runs refl

abbrev name : String
name = "sync"

placeholder_data_iff_example :
    let shown =
      placeholder_data {A = String} workspace name (some "figures") (query_key workspace runs) in
    ((shown ≡ some "figures") ⊎ (shown ≡ none))
    × ((shown ≡ some "figures") ↔ ((workspace ≡ workspace) × (name ≡ name)))
placeholder_data_iff_example =
    placeholder_data_iff workspace workspace runs name name "figures" refl
