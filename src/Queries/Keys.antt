-- ===== src/Queries/Keys.antt =====
-- A key tells its query.
use tracium.Prelude.{
  ◌≡◌, refl, sym, ap, ◌∙◌, List, [], ◌∷◌, Option, none, some, String, arith, if◌then◌else◌, ◌===◌,
  text_key,
}
use tracium.Queries.{Query, query_key, same_part}

-- The query of a scope and a kind, by the arguments that its key has
abbrev overview_query : String → String → Option Query
overview_query kind range =
    if kind === "kpis"
    then some (Query.use_kpis range)
    else if kind === "cost-series"
    then some (Query.use_cost_series range)
    else if kind === "latency-series"
    then some (Query.use_latency_series range)
    else if kind === "error-series"
    then some (Query.use_error_series range)
    else if kind === "top-workflows"
    then some (Query.use_top_workflows range)
    else if kind === "failures"
    then some (Query.use_failures range)
    else if kind === "anomalies"
    then some (Query.use_anomalies range)
    else none

abbrev usage_query : String → String → Option Query
usage_query kind range =
    if kind === "model-costs"
    then some (Query.use_model_costs range)
    else if kind === "token-series"
    then some (Query.use_token_series range)
    else if kind === "users"
    then some (Query.use_user_usage range)
    else if kind === "workflows"
    then some (Query.use_workflow_usage range)
    else if kind === "attribute-keys"
    then some (Query.use_attribute_keys range)
    else none

abbrev workflow_query : String → String → String → Option String → Option Query
workflow_query kind name range version =
    if kind === "token-series"
    then some (Query.use_workflow_token_series name range version)
    else if kind === "cost-series"
    then some (Query.use_workflow_cost_series name range version)
    else if kind === "latency-series"
    then some (Query.use_workflow_latency_series name range version)
    else if kind === "error-series"
    then some (Query.use_workflow_error_series name range version)
    else if kind === "runs"
    then some (Query.use_workflow_runs name range version)
    else none

abbrev client_query : String → String → String → Option Query
client_query kind user_id range =
    if kind === "kpis"
    then some (Query.use_client_kpis user_id range)
    else if kind === "cost-series"
    then some (Query.use_client_cost_series user_id range)
    else if kind === "error-series"
    then some (Query.use_client_error_series user_id range)
    else if kind === "model-costs"
    then some (Query.use_client_model_costs user_id range)
    else if kind === "workflows"
    then some (Query.use_client_workflow_usage user_id range)
    else if kind === "traces"
    then some (Query.use_client_traces user_id range)
    else none

abbrev detail_query : String → String → String → Option Query
detail_query kind name range =
    if kind === "detail"
    then some (Query.use_workflow_detail name range)
    else if kind === "versions"
    then some (Query.use_workflow_versions name range)
    else none

abbrev trace_query : Option String → Option Query
trace_query none = none
trace_query (some id) = some (Query.use_trace id)

-- The query that has a key
abbrev query_of : List (Option String) → Option Query
query_of (some scope ∷ second ∷ third ∷ []) =
    if scope === "trace"
    then trace_query third
    else if same_part second (some "setup-checks")
    then some Query.use_setup_checks
    else some Query.use_recent_activity
query_of (some scope ∷ some kind ∷ workspace ∷ some a ∷ []) =
    if scope === "overview"
    then overview_query kind a
    else if scope === "usage"
    then usage_query kind a
    else some (Query.use_workflows a)
query_of (some scope ∷ some kind ∷ workspace ∷ some a ∷ some b ∷ []) =
    if scope === "usage"
    then some (Query.use_attribute_usage a b)
    else if scope === "workflows"
    then detail_query kind a b
    else client_query kind a b
query_of (some scope ∷ some kind ∷ workspace ∷ some a ∷ some b ∷ v ∷ []) = workflow_query kind a b v
query_of key = none

abbrev workspace_of : List (Option String) → Option String
workspace_of (scope ∷ second ∷ third ∷ rest) =
    if same_part scope (some "trace") then second else third
workspace_of key = none

query_of-query_key : (w : Option String) (q : Query) → query_of (query_key w q) ≡ some q
unfolding query_key
query_of-query_key w (Query.use_kpis range) = refl
query_of-query_key w (Query.use_cost_series range) = refl
query_of-query_key w (Query.use_latency_series range) = refl
query_of-query_key w (Query.use_error_series range) = refl
query_of-query_key w (Query.use_top_workflows range) = refl
query_of-query_key w (Query.use_failures range) = refl
query_of-query_key w (Query.use_anomalies range) = refl
query_of-query_key w Query.use_setup_checks = refl
query_of-query_key w Query.use_recent_activity = refl
query_of-query_key w (Query.use_model_costs range) = refl
query_of-query_key w (Query.use_token_series range) = refl
query_of-query_key w (Query.use_user_usage range) = refl
query_of-query_key w (Query.use_workflow_usage range) = refl
query_of-query_key w (Query.use_attribute_keys range) = refl
query_of-query_key w (Query.use_attribute_usage range key) = refl
query_of-query_key w (Query.use_workflows range) = refl
query_of-query_key w (Query.use_workflow_token_series name range version) = refl
query_of-query_key w (Query.use_workflow_cost_series name range version) = refl
query_of-query_key w (Query.use_workflow_latency_series name range version) = refl
query_of-query_key w (Query.use_workflow_error_series name range version) = refl
query_of-query_key w (Query.use_workflow_runs name range version) = refl
query_of-query_key w (Query.use_workflow_detail name range) = refl
query_of-query_key w (Query.use_workflow_versions name range) = refl
query_of-query_key w (Query.use_client_kpis user_id range) = refl
query_of-query_key w (Query.use_client_cost_series user_id range) = refl
query_of-query_key w (Query.use_client_error_series user_id range) = refl
query_of-query_key w (Query.use_client_model_costs user_id range) = refl
query_of-query_key w (Query.use_client_workflow_usage user_id range) = refl
query_of-query_key w (Query.use_client_traces user_id range) = refl
query_of-query_key w (Query.use_trace id) = refl

workspace_of-query_key : (w : Option String) (q : Query) → workspace_of (query_key w q) ≡ w
unfolding query_key
workspace_of-query_key w (Query.use_kpis range) = refl
workspace_of-query_key w (Query.use_cost_series range) = refl
workspace_of-query_key w (Query.use_latency_series range) = refl
workspace_of-query_key w (Query.use_error_series range) = refl
workspace_of-query_key w (Query.use_top_workflows range) = refl
workspace_of-query_key w (Query.use_failures range) = refl
workspace_of-query_key w (Query.use_anomalies range) = refl
workspace_of-query_key w Query.use_setup_checks = refl
workspace_of-query_key w Query.use_recent_activity = refl
workspace_of-query_key w (Query.use_model_costs range) = refl
workspace_of-query_key w (Query.use_token_series range) = refl
workspace_of-query_key w (Query.use_user_usage range) = refl
workspace_of-query_key w (Query.use_workflow_usage range) = refl
workspace_of-query_key w (Query.use_attribute_keys range) = refl
workspace_of-query_key w (Query.use_attribute_usage range key) = refl
workspace_of-query_key w (Query.use_workflows range) = refl
workspace_of-query_key w (Query.use_workflow_token_series name range version) = refl
workspace_of-query_key w (Query.use_workflow_cost_series name range version) = refl
workspace_of-query_key w (Query.use_workflow_latency_series name range version) = refl
workspace_of-query_key w (Query.use_workflow_error_series name range version) = refl
workspace_of-query_key w (Query.use_workflow_runs name range version) = refl
workspace_of-query_key w (Query.use_workflow_detail name range) = refl
workspace_of-query_key w (Query.use_workflow_versions name range) = refl
workspace_of-query_key w (Query.use_client_kpis user_id range) = refl
workspace_of-query_key w (Query.use_client_cost_series user_id range) = refl
workspace_of-query_key w (Query.use_client_error_series user_id range) = refl
workspace_of-query_key w (Query.use_client_model_costs user_id range) = refl
workspace_of-query_key w (Query.use_client_workflow_usage user_id range) = refl
workspace_of-query_key w (Query.use_client_traces user_id range) = refl
workspace_of-query_key w (Query.use_trace id) = refl

some-inj : {q r : Query} → some q ≡ some r → q ≡ r
some-inj e = ground arith

-- Two queries share a key only if they are the same query, with the same arguments, in the same
-- workspace.
pub query_key-injective :
    (w v : Option String) (q r : Query) → query_key w q ≡ query_key v r → (w ≡ v) × (q ≡ r)
query_key-injective w v q r e = (
  sym (workspace_of-query_key w q) ∙ ap workspace_of e ∙ workspace_of-query_key v r,
  some-inj (sym (query_of-query_key w q) ∙ ap query_of e ∙ query_of-query_key v r),
)
