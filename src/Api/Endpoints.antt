-- ===== src/Api/Endpoints.antt =====
-- The endpoints: metrics.ts, workspaces.ts, apikeys.ts, traces.ts and users.ts of
-- dashboard/src/common/api. A call is a method with its arguments; a name or an id that goes into the
-- path is held in bytes.
pub mod Scope
pub mod Paths
mod Tests
use tracium.Prelude.{ℕ, Bool, List, [], ◌∷◌, ◌++◌, Option, none, some, String}
use tracium.Uri.{Text, bytes, encode}
use tracium.Overview.Anomalies.{AnomalyMetric, metric_text}
use tracium.Common.{Severity}
use tracium.Api.Client.{
  ApiClientConfig, ParamValue, Request, get_request, post_request, delete_request,
}

-- The methods of MetricsAPI
pub data MetricsCall : Type 0 where
  get_kpis : (range : String) (user_id : Option String) → MetricsCall
  get_cost_series : (range : String) (workflow user_id version : Option String) → MetricsCall
  get_latency_series : (range : String) (workflow version : Option String) → MetricsCall
  get_error_series : (range : String) (workflow user_id version : Option String) → MetricsCall
  get_top_workflows : (range : String) → MetricsCall
  get_workflows : (range : String) → MetricsCall
  get_workflow_detail : (name : Text) (range : String) → MetricsCall
  get_workflow_versions : (name : Text) (range : String) → MetricsCall
  get_failures : (range : String) → MetricsCall
  get_anomalies :
      (range : String) (metric : Option AnomalyMetric) (min_severity : Option Severity)
      → MetricsCall
  get_setup_checks : (range : String) → MetricsCall
  get_token_series : (range : String) (user_id workflow version : Option String) → MetricsCall
  get_model_costs : (range : String) (user_id : Option String) → MetricsCall
  get_user_usage : (range : String) (user_id : Option String) → MetricsCall
  get_workflow_usage : (range : String) (user_id : Option String) → MetricsCall
  get_attribute_keys : (range : String) → MetricsCall
  get_usage_by_attribute : (range key : String) → MetricsCall

abbrev pub severity_text : Severity → String
severity_text Severity.info = "info"
severity_text Severity.warning = "warning"
severity_text Severity.critical = "critical"

abbrev pub map_text {ℓ} : {A : Type ℓ} → (A → String) → Option A → Option ParamValue
map_text f none = none
map_text f (some a) = some (ParamValue.text (f a))

abbrev pub text_of : Option String → Option ParamValue
text_of o = map_text (λ s. s) o

abbrev pub Params : Type 0
Params = List (String × Option ParamValue)

abbrev pub range_with : String → Params → Params
range_with range params = ("range", some (ParamValue.text range)) ∷ params

unfoldable pub metrics_path : MetricsCall → Text
metrics_path (MetricsCall.get_kpis range user_id) = bytes "/metrics/kpis"
metrics_path (MetricsCall.get_cost_series range w u v) = bytes "/metrics/cost-series"
metrics_path (MetricsCall.get_latency_series range w v) = bytes "/metrics/latency-series"
metrics_path (MetricsCall.get_error_series range w u v) = bytes "/metrics/error-series"
metrics_path (MetricsCall.get_top_workflows range) = bytes "/metrics/top-workflows"
metrics_path (MetricsCall.get_workflows range) = bytes "/metrics/workflows"
metrics_path (MetricsCall.get_workflow_detail name range) =
    bytes "/metrics/workflows/" ++ encode name
metrics_path (MetricsCall.get_workflow_versions name range) =
    bytes "/metrics/workflows/" ++ (encode name ++ bytes "/versions")
metrics_path (MetricsCall.get_failures range) = bytes "/metrics/failures"
metrics_path (MetricsCall.get_anomalies range m s) = bytes "/metrics/anomalies"
metrics_path (MetricsCall.get_setup_checks range) = bytes "/metrics/setup-checks"
metrics_path (MetricsCall.get_token_series range u w v) = bytes "/metrics/token-series"
metrics_path (MetricsCall.get_model_costs range u) = bytes "/metrics/model-costs"
metrics_path (MetricsCall.get_user_usage range u) = bytes "/metrics/usage-users"
metrics_path (MetricsCall.get_workflow_usage range u) = bytes "/metrics/usage-workflows"
metrics_path (MetricsCall.get_attribute_keys range) = bytes "/metrics/attribute-keys"
metrics_path (MetricsCall.get_usage_by_attribute range key) = bytes "/metrics/usage-by-attribute"

unfoldable pub metrics_params : MetricsCall → Params
metrics_params (MetricsCall.get_kpis range u) = range_with range (("user_id", text_of u) ∷ [])
metrics_params (MetricsCall.get_cost_series range w u v) =
    range_with range
      (("workflow", text_of w) ∷ ("user_id", text_of u) ∷ ("version", text_of v) ∷ [])
metrics_params (MetricsCall.get_latency_series range w v) =
    range_with range (("workflow", text_of w) ∷ ("version", text_of v) ∷ [])
metrics_params (MetricsCall.get_error_series range w u v) =
    range_with range
      (("workflow", text_of w) ∷ ("user_id", text_of u) ∷ ("version", text_of v) ∷ [])
metrics_params (MetricsCall.get_top_workflows range) = range_with range []
metrics_params (MetricsCall.get_workflows range) = range_with range []
metrics_params (MetricsCall.get_workflow_detail name range) = range_with range []
metrics_params (MetricsCall.get_workflow_versions name range) = range_with range []
metrics_params (MetricsCall.get_failures range) = range_with range []
metrics_params (MetricsCall.get_anomalies range m s) =
    range_with range
      (("metric", map_text metric_text m) ∷ ("min_severity", map_text severity_text s) ∷ [])
metrics_params (MetricsCall.get_setup_checks range) = range_with range []
metrics_params (MetricsCall.get_token_series range u w v) =
    range_with range
      (("user_id", text_of u) ∷ ("workflow", text_of w) ∷ ("version", text_of v) ∷ [])
metrics_params (MetricsCall.get_model_costs range u) =
    range_with range (("user_id", text_of u) ∷ [])
metrics_params (MetricsCall.get_user_usage range u) = range_with range (("user_id", text_of u) ∷ [])
metrics_params (MetricsCall.get_workflow_usage range u) =
    range_with range (("user_id", text_of u) ∷ [])
metrics_params (MetricsCall.get_attribute_keys range) = range_with range []
metrics_params (MetricsCall.get_usage_by_attribute range key) =
    range_with range (("key", some (ParamValue.text key)) ∷ [])

unfoldable pub metrics_request : ApiClientConfig → MetricsCall → Request
metrics_request config call = get_request config (metrics_path call) (metrics_params call)

-- `/workspaces/${encodeURIComponent(id)}`, and what follows it
abbrev pub workspace_path : Text → Text → Text
workspace_path id rest = bytes "/workspaces/" ++ (encode id ++ rest)

-- The methods of WorkspacesAPI, ApiKeysAPI, TracesAPI and UsersAPI that read. The filter of
-- `listTraces` is passed on as it is.
pub data ReadCall : Type 0 where
  list_workspaces list_users : ReadCall
  list_members list_invites list_keys : (workspace_id : Text) → ReadCall
  get_trace : (id : Text) → ReadCall
  list_traces : (filter : Params) → ReadCall

unfoldable pub read_request : ApiClientConfig → ReadCall → Request
read_request config ReadCall.list_workspaces = get_request config (bytes "/workspaces") []
read_request config ReadCall.list_users = get_request config (bytes "/users") []
read_request config (ReadCall.list_members id) =
    get_request config (workspace_path id (bytes "/members")) []
read_request config (ReadCall.list_invites id) =
    get_request config (workspace_path id (bytes "/invites")) []
read_request config (ReadCall.list_keys id) =
    get_request config (workspace_path id (bytes "/api-keys")) []
read_request config (ReadCall.get_trace id) = get_request config (bytes "/traces/" ++ encode id) []
read_request config (ReadCall.list_traces filter) = get_request config (bytes "/traces") filter

-- Those that post, with the JSON of the body
pub data PostCall : Type 0 where
  create_workspace : PostCall
  create_invite create_key : (workspace_id : Text) → PostCall
  accept_invite : (token : Text) → PostCall
  change_password : PostCall

unfoldable pub post_path : PostCall → Text
post_path PostCall.create_workspace = bytes "/workspaces"
post_path (PostCall.create_invite id) = workspace_path id (bytes "/invites")
post_path (PostCall.create_key id) = workspace_path id (bytes "/api-keys")
post_path (PostCall.accept_invite token) = bytes "/invites/" ++ (encode token ++ bytes "/accept")
post_path PostCall.change_password = bytes "/auth/password"

unfoldable pub post_call : ApiClientConfig → PostCall → String → Request
post_call config call body = post_request config (post_path call) body

-- Those that delete
pub data DeleteCall : Type 0 where
  remove_workspace : (id : Text) → DeleteCall
  remove_member revoke_invite revoke_key : (workspace_id id : Text) → DeleteCall

unfoldable pub delete_path : DeleteCall → Text
delete_path (DeleteCall.remove_workspace id) = workspace_path id []
delete_path (DeleteCall.remove_member workspace_id id) =
    workspace_path workspace_id (bytes "/members/" ++ encode id)
delete_path (DeleteCall.revoke_invite workspace_id id) =
    workspace_path workspace_id (bytes "/invites/" ++ encode id)
delete_path (DeleteCall.revoke_key workspace_id id) =
    workspace_path workspace_id (bytes "/api-keys/" ++ encode id)

unfoldable pub delete_call : ApiClientConfig → DeleteCall → Request
delete_call config call = delete_request config (delete_path call)
