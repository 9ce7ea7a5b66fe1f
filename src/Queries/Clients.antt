-- ===== src/Queries/Clients.antt =====
-- The queries about a client.
use tracium.Prelude.{
  ◌≡◌, refl, sym, ap, ◌∙◌, Bool, true, false, Option, none, some, String, arith, text_key,
  is_truthy,
}
use tracium.Prelude.Maps.{get}
use tracium.Api.Client.{ApiClientConfig, Request}
use tracium.Api.Client.Requests.{get_request-IsRead}
use tracium.Api.Endpoints.{metrics_request, metrics_params, read_request}
use tracium.Queries.{Query, client_of, query_request, is_enabled}

-- What is sent for a client of some id
abbrev Sends : Request → String → Type 0
Sends r id = get "user_id" r.url.search_params ≡ some id

truthy_at : (u id : String) → some u ≡ some id → is_truthy u ≡ true → is_truthy id ≡ true
truthy_at u id c e = ap (λ (o : Option String). of_option o) (sym c) ∙ e
  where
    of_option : Option String → Bool
    of_option none = false
    of_option (some s) = is_truthy s

-- A query about a client runs only with an id that is not empty, and its request names that client.
pub query_request-client :
    (config : ApiClientConfig) (q : Query) (id : String)
    → client_of q ≡ some id
    → is_enabled q ≡ true
    → (is_truthy id ≡ true) × Sends (query_request config q) id
unfolding query_request is_enabled metrics_request metrics_params read_request
query_request-client config (Query.use_kpis range) id c e = absurd (ground arith)
query_request-client config (Query.use_cost_series range) id c e = absurd (ground arith)
query_request-client config (Query.use_latency_series range) id c e = absurd (ground arith)
query_request-client config (Query.use_error_series range) id c e = absurd (ground arith)
query_request-client config (Query.use_top_workflows range) id c e = absurd (ground arith)
query_request-client config (Query.use_failures range) id c e = absurd (ground arith)
query_request-client config (Query.use_anomalies range) id c e = absurd (ground arith)
query_request-client config Query.use_setup_checks id c e = absurd (ground arith)
query_request-client config Query.use_recent_activity id c e = absurd (ground arith)
query_request-client config (Query.use_model_costs range) id c e = absurd (ground arith)
query_request-client config (Query.use_token_series range) id c e = absurd (ground arith)
query_request-client config (Query.use_user_usage range) id c e = absurd (ground arith)
query_request-client config (Query.use_workflow_usage range) id c e = absurd (ground arith)
query_request-client config (Query.use_attribute_keys range) id c e = absurd (ground arith)
query_request-client config (Query.use_attribute_usage range key) id c e = absurd (ground arith)
query_request-client config (Query.use_workflows range) id c e = absurd (ground arith)
query_request-client config (Query.use_workflow_token_series name range version) id c e =
    absurd (ground arith)
query_request-client config (Query.use_workflow_cost_series name range version) id c e =
    absurd (ground arith)
query_request-client config (Query.use_workflow_latency_series name range version) id c e =
    absurd (ground arith)
query_request-client config (Query.use_workflow_error_series name range version) id c e =
    absurd (ground arith)
query_request-client config (Query.use_workflow_runs name range version) id c e =
    absurd (ground arith)
query_request-client config (Query.use_workflow_detail name range) id c e = absurd (ground arith)
query_request-client config (Query.use_workflow_versions name range) id c e = absurd (ground arith)
query_request-client config (Query.use_trace t) id c e = absurd (ground arith)
query_request-client config (Query.use_client_kpis u range) id c e =
    (truthy_at u id c e, (get_request-IsRead config _ _ (refl, (refl, tt))).sent "user_id" ∙ c)
query_request-client config (Query.use_client_cost_series u range) id c e = (
  truthy_at u id c e,
  (get_request-IsRead config _ _ (refl, (refl, (refl, (refl, tt))))).sent "user_id" ∙ c,
)
query_request-client config (Query.use_client_error_series u range) id c e = (
  truthy_at u id c e,
  (get_request-IsRead config _ _ (refl, (refl, (refl, (refl, tt))))).sent "user_id" ∙ c,
)
query_request-client config (Query.use_client_model_costs u range) id c e =
    (truthy_at u id c e, (get_request-IsRead config _ _ (refl, (refl, tt))).sent "user_id" ∙ c)
query_request-client config (Query.use_client_workflow_usage u range) id c e =
    (truthy_at u id c e, (get_request-IsRead config _ _ (refl, (refl, tt))).sent "user_id" ∙ c)
query_request-client config (Query.use_client_traces u range) id c e = (
  truthy_at u id c e,
  (get_request-IsRead config _ _ (refl, (refl, (refl, tt)))).sent "user_id" ∙ c,
)
