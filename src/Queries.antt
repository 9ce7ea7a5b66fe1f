-- ===== src/Queries.antt =====
-- The queries that the pages share: useMetrics.ts, useUsage.ts, useWorkflows.ts, useWorkflowDetail.ts,
-- useClientDetail.ts and useTrace.ts under dashboard/src/modules. A part of a key that is undefined is
-- none. The cache is a library's; it keeps one result for a key.
pub mod Keys
pub mod Placeholder
pub mod Clients
mod Tests
use tracium.Prelude.{
  ℕ, zero, suc, Bool, true, false, not, ◌&&◌, if◌then◌else◌, List, [], ◌∷◌, Option, none, some,
  String, ◌===◌, text_key, is_truthy,
}
use tracium.Uri.{bytes}
use tracium.Api.Client.{ApiClientConfig, ParamValue, Request}
use tracium.Api.Endpoints.{MetricsCall, ReadCall, Params, text_of, metrics_request, read_request}

-- A hook with its arguments
pub data Query : Type 0 where
  use_kpis use_cost_series use_latency_series use_error_series use_top_workflows use_failures
        use_anomalies use_model_costs use_token_series use_user_usage use_workflow_usage
        use_attribute_keys use_workflows :
      (range : String) → Query
  use_setup_checks use_recent_activity : Query
  use_attribute_usage : (range key : String) → Query
  use_workflow_token_series use_workflow_cost_series use_workflow_latency_series
        use_workflow_error_series use_workflow_runs :
      (name range : String) (version : Option String) → Query
  use_workflow_detail use_workflow_versions : (name range : String) → Query
  use_client_kpis use_client_cost_series use_client_error_series use_client_model_costs
        use_client_workflow_usage use_client_traces :
      (user_id range : String) → Query
  use_trace : (id : String) → Query

abbrev pub page_of : ℕ → Params → Params
page_of size filter = ("page_size", some (ParamValue.number size)) ∷ filter

-- `queryKey`, with the workspace that the provider has
unfoldable pub query_key : Option String → Query → List (Option String)
query_key workspace (Query.use_kpis range) =
    some "overview" ∷ some "kpis" ∷ workspace ∷ some range ∷ []
query_key workspace (Query.use_cost_series range) =
    some "overview" ∷ some "cost-series" ∷ workspace ∷ some range ∷ []
query_key workspace (Query.use_latency_series range) =
    some "overview" ∷ some "latency-series" ∷ workspace ∷ some range ∷ []
query_key workspace (Query.use_error_series range) =
    some "overview" ∷ some "error-series" ∷ workspace ∷ some range ∷ []
query_key workspace (Query.use_top_workflows range) =
    some "overview" ∷ some "top-workflows" ∷ workspace ∷ some range ∷ []
query_key workspace (Query.use_failures range) =
    some "overview" ∷ some "failures" ∷ workspace ∷ some range ∷ []
query_key workspace (Query.use_anomalies range) =
    some "overview" ∷ some "anomalies" ∷ workspace ∷ some range ∷ []
query_key workspace Query.use_setup_checks = some "overview" ∷ some "setup-checks" ∷ workspace ∷ []
query_key workspace Query.use_recent_activity =
    some "overview" ∷ some "recent-activity" ∷ workspace ∷ []
query_key workspace (Query.use_model_costs range) =
    some "usage" ∷ some "model-costs" ∷ workspace ∷ some range ∷ []
query_key workspace (Query.use_token_series range) =
    some "usage" ∷ some "token-series" ∷ workspace ∷ some range ∷ []
query_key workspace (Query.use_user_usage range) =
    some "usage" ∷ some "users" ∷ workspace ∷ some range ∷ []
query_key workspace (Query.use_workflow_usage range) =
    some "usage" ∷ some "workflows" ∷ workspace ∷ some range ∷ []
query_key workspace (Query.use_attribute_keys range) =
    some "usage" ∷ some "attribute-keys" ∷ workspace ∷ some range ∷ []
query_key workspace (Query.use_attribute_usage range key) =
    some "usage" ∷ some "attribute-usage" ∷ workspace ∷ some range ∷ some key ∷ []
query_key workspace (Query.use_workflows range) =
    some "workflows" ∷ some "list" ∷ workspace ∷ some range ∷ []
query_key workspace (Query.use_workflow_token_series name range version) =
    some "workflows" ∷ some "token-series" ∷ workspace ∷ some name ∷ some range ∷ version ∷ []
query_key workspace (Query.use_workflow_cost_series name range version) =
    some "workflows" ∷ some "cost-series" ∷ workspace ∷ some name ∷ some range ∷ version ∷ []
query_key workspace (Query.use_workflow_latency_series name range version) =
    some "workflows" ∷ some "latency-series" ∷ workspace ∷ some name ∷ some range ∷ version ∷ []
query_key workspace (Query.use_workflow_error_series name range version) =
    some "workflows" ∷ some "error-series" ∷ workspace ∷ some name ∷ some range ∷ version ∷ []
query_key workspace (Query.use_workflow_runs name range version) =
    some "workflows" ∷ some "runs" ∷ workspace ∷ some name ∷ some range ∷ version ∷ []
query_key workspace (Query.use_workflow_detail name range) =
    some "workflows" ∷ some "detail" ∷ workspace ∷ some name ∷ some range ∷ []
query_key workspace (Query.use_workflow_versions name range) =
    some "workflows" ∷ some "versions" ∷ workspace ∷ some name ∷ some range ∷ []
query_key workspace (Query.use_client_kpis user_id range) =
    some "clients" ∷ some "kpis" ∷ workspace ∷ some user_id ∷ some range ∷ []
query_key workspace (Query.use_client_cost_series user_id range) =
    some "clients" ∷ some "cost-series" ∷ workspace ∷ some user_id ∷ some range ∷ []
query_key workspace (Query.use_client_error_series user_id range) =
    some "clients" ∷ some "error-series" ∷ workspace ∷ some user_id ∷ some range ∷ []
query_key workspace (Query.use_client_model_costs user_id range) =
    some "clients" ∷ some "model-costs" ∷ workspace ∷ some user_id ∷ some range ∷ []
query_key workspace (Query.use_client_workflow_usage user_id range) =
    some "clients" ∷ some "workflows" ∷ workspace ∷ some user_id ∷ some range ∷ []
query_key workspace (Query.use_client_traces user_id range) =
    some "clients" ∷ some "traces" ∷ workspace ∷ some user_id ∷ some range ∷ []
query_key workspace (Query.use_trace id) = some "trace" ∷ workspace ∷ some id ∷ []

-- The request that `queryFn` sends
unfoldable pub query_request : ApiClientConfig → Query → Request
query_request config (Query.use_kpis range) =
    metrics_request config (MetricsCall.get_kpis range none)
query_request config (Query.use_cost_series range) =
    metrics_request config (MetricsCall.get_cost_series range none none none)
query_request config (Query.use_latency_series range) =
    metrics_request config (MetricsCall.get_latency_series range none none)
query_request config (Query.use_error_series range) =
    metrics_request config (MetricsCall.get_error_series range none none none)
query_request config (Query.use_top_workflows range) =
    metrics_request config (MetricsCall.get_top_workflows range)
query_request config (Query.use_failures range) =
    metrics_request config (MetricsCall.get_failures range)
query_request config (Query.use_anomalies range) =
    metrics_request config (MetricsCall.get_anomalies range none none)
query_request config Query.use_setup_checks =
    metrics_request config (MetricsCall.get_setup_checks "24h")
query_request config Query.use_recent_activity =
    read_request config (ReadCall.list_traces (page_of 15 []))
query_request config (Query.use_model_costs range) =
    metrics_request config (MetricsCall.get_model_costs range none)
query_request config (Query.use_token_series range) =
    metrics_request config (MetricsCall.get_token_series range none none none)
query_request config (Query.use_user_usage range) =
    metrics_request config (MetricsCall.get_user_usage range none)
query_request config (Query.use_workflow_usage range) =
    metrics_request config (MetricsCall.get_workflow_usage range none)
query_request config (Query.use_attribute_keys range) =
    metrics_request config (MetricsCall.get_attribute_keys range)
query_request config (Query.use_attribute_usage range key) =
    metrics_request config (MetricsCall.get_usage_by_attribute range key)
query_request config (Query.use_workflows range) =
    metrics_request config (MetricsCall.get_workflows range)
query_request config (Query.use_workflow_token_series name range version) =
    metrics_request config (MetricsCall.get_token_series range none (some name) version)
query_request config (Query.use_workflow_cost_series name range version) =
    metrics_request config (MetricsCall.get_cost_series range (some name) none version)
query_request config (Query.use_workflow_latency_series name range version) =
    metrics_request config (MetricsCall.get_latency_series range (some name) version)
query_request config (Query.use_workflow_error_series name range version) =
    metrics_request config (MetricsCall.get_error_series range (some name) none version)
query_request config (Query.use_workflow_runs name range version) = read_request config (
    ReadCall.list_traces (
      ("workflow", some (ParamValue.text name))
      ∷ ("version", text_of version)
      ∷ ("range", some (ParamValue.text range))
      ∷ page_of 10 []))
query_request config (Query.use_workflow_detail name range) =
    metrics_request config (MetricsCall.get_workflow_detail (bytes name) range)
query_request config (Query.use_workflow_versions name range) =
    metrics_request config (MetricsCall.get_workflow_versions (bytes name) range)
query_request config (Query.use_client_kpis user_id range) =
    metrics_request config (MetricsCall.get_kpis range (some user_id))
query_request config (Query.use_client_cost_series user_id range) =
    metrics_request config (MetricsCall.get_cost_series range none (some user_id) none)
query_request config (Query.use_client_error_series user_id range) =
    metrics_request config (MetricsCall.get_error_series range none (some user_id) none)
query_request config (Query.use_client_model_costs user_id range) =
    metrics_request config (MetricsCall.get_model_costs range (some user_id))
query_request config (Query.use_client_workflow_usage user_id range) =
    metrics_request config (MetricsCall.get_workflow_usage range (some user_id))
query_request config (Query.use_client_traces user_id range) = read_request config (
    ReadCall.list_traces (
      ("user_id", some (ParamValue.text user_id))
      ∷ ("range", some (ParamValue.text range))
      ∷ page_of 15 []))
query_request config (Query.use_trace id) = read_request config (ReadCall.get_trace (bytes id))

-- The workflow that a query is about
abbrev pub workflow_of : Query → Option String
workflow_of (Query.use_workflow_token_series name range version) = some name
workflow_of (Query.use_workflow_cost_series name range version) = some name
workflow_of (Query.use_workflow_latency_series name range version) = some name
workflow_of (Query.use_workflow_error_series name range version) = some name
workflow_of (Query.use_workflow_runs name range version) = some name
workflow_of (Query.use_workflow_detail name range) = some name
workflow_of (Query.use_workflow_versions name range) = some name
workflow_of query = none

-- `query?.queryKey[i]`
abbrev pub key_part : ℕ → List (Option String) → Option String
key_part n [] = none
key_part zero (part ∷ key) = part
key_part (suc n) (part ∷ key) = key_part n key

abbrev pub same_part : Option String → Option String → Bool
same_part none none = true
same_part (some a) (some b) = a === b
same_part _ _ = false

-- `placeholderData` of the hooks of a workflow: what is shown while a new key loads. The previous
-- result comes with the key of its query.
unfoldable pub placeholder_data {ℓ} :
    {A : Type ℓ} → Option String → String → Option A → List (Option String) → Option A
placeholder_data workspace name previous key =
    if same_part (key_part 2 key) workspace && same_part (key_part 3 key) (some name)
    then previous
    else none

-- The client that a query is about
abbrev pub client_of : Query → Option String
client_of (Query.use_client_kpis user_id range) = some user_id
client_of (Query.use_client_cost_series user_id range) = some user_id
client_of (Query.use_client_error_series user_id range) = some user_id
client_of (Query.use_client_model_costs user_id range) = some user_id
client_of (Query.use_client_workflow_usage user_id range) = some user_id
client_of (Query.use_client_traces user_id range) = some user_id
client_of query = none

-- `enabled`, where the hook has it of its own
unfoldable pub is_enabled : Query → Bool
is_enabled (Query.use_anomalies range) = not (range === "24h")
is_enabled (Query.use_attribute_usage range key) = not (key === "")
is_enabled (Query.use_client_kpis user_id range) = is_truthy user_id
is_enabled (Query.use_client_cost_series user_id range) = is_truthy user_id
is_enabled (Query.use_client_error_series user_id range) = is_truthy user_id
is_enabled (Query.use_client_model_costs user_id range) = is_truthy user_id
is_enabled (Query.use_client_workflow_usage user_id range) = is_truthy user_id
is_enabled (Query.use_client_traces user_id range) = is_truthy user_id
is_enabled (Query.use_trace id) = is_truthy id
is_enabled query = true
