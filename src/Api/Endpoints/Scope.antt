-- ===== src/Api/Endpoints/Scope.antt =====
-- Every read of metrics is scoped.
use tracium.Prelude.{◌≡◌, refl, ◌∙◌, none, some, String, text_key}
use tracium.Prelude.Maps.{get, Distinct}
use tracium.Prelude.Gather.{keys}
use tracium.Api.Client.{ApiClientConfig}
use tracium.Api.Client.Requests.{param_of, nonempty, get_request-IsRead}
use tracium.Api.Endpoints.{MetricsCall, metrics_path, metrics_params, metrics_request}

-- The range of a call
abbrev pub range_of : MetricsCall → String
range_of (MetricsCall.get_kpis range u) = range
range_of (MetricsCall.get_cost_series range w u v) = range
range_of (MetricsCall.get_latency_series range w v) = range
range_of (MetricsCall.get_error_series range w u v) = range
range_of (MetricsCall.get_top_workflows range) = range
range_of (MetricsCall.get_workflows range) = range
range_of (MetricsCall.get_workflow_detail name range) = range
range_of (MetricsCall.get_workflow_versions name range) = range
range_of (MetricsCall.get_failures range) = range
range_of (MetricsCall.get_anomalies range m s) = range
range_of (MetricsCall.get_setup_checks range) = range
range_of (MetricsCall.get_token_series range u w v) = range
range_of (MetricsCall.get_model_costs range u) = range
range_of (MetricsCall.get_user_usage range u) = range
range_of (MetricsCall.get_workflow_usage range u) = range
range_of (MetricsCall.get_attribute_keys range) = range
range_of (MetricsCall.get_usage_by_attribute range key) = range

-- What the parameters of a call are: the range, and no workspace
record IsScopable (call : MetricsCall) : Type 0 where
  distinct : Distinct (keys (metrics_params call))
  ranged : param_of "range" (metrics_params call) ≡ some (range_of call)
  unscoped : param_of "workspace_id" (metrics_params call) ≡ none

IsScopable-MetricsCall : (call : MetricsCall) → IsScopable call
unfolding metrics_params
IsScopable-MetricsCall (MetricsCall.get_kpis range u) = record {
  distinct = (refl, (refl, tt));
  ranged = refl;
  unscoped = refl;
}
IsScopable-MetricsCall (MetricsCall.get_cost_series range w u v) = record {
  distinct = (refl, (refl, (refl, (refl, tt))));
  ranged = refl;
  unscoped = refl;
}
IsScopable-MetricsCall (MetricsCall.get_latency_series range w v) = record {
  distinct = (refl, (refl, (refl, tt)));
  ranged = refl;
  unscoped = refl;
}
IsScopable-MetricsCall (MetricsCall.get_error_series range w u v) = record {
  distinct = (refl, (refl, (refl, (refl, tt))));
  ranged = refl;
  unscoped = refl;
}
IsScopable-MetricsCall (MetricsCall.get_anomalies range m s) = record {
  distinct = (refl, (refl, (refl, tt)));
  ranged = refl;
  unscoped = refl;
}
IsScopable-MetricsCall (MetricsCall.get_token_series range u w v) = record {
  distinct = (refl, (refl, (refl, (refl, tt))));
  ranged = refl;
  unscoped = refl;
}
IsScopable-MetricsCall (MetricsCall.get_model_costs range u) = record {
  distinct = (refl, (refl, tt));
  ranged = refl;
  unscoped = refl;
}
IsScopable-MetricsCall (MetricsCall.get_user_usage range u) = record {
  distinct = (refl, (refl, tt));
  ranged = refl;
  unscoped = refl;
}
IsScopable-MetricsCall (MetricsCall.get_workflow_usage range u) = record {
  distinct = (refl, (refl, tt));
  ranged = refl;
  unscoped = refl;
}
IsScopable-MetricsCall (MetricsCall.get_usage_by_attribute range key) = record {
  distinct = (refl, (refl, tt));
  ranged = refl;
  unscoped = refl;
}
IsScopable-MetricsCall (MetricsCall.get_top_workflows range) = record {
  distinct = (refl, tt);
  ranged = refl;
  unscoped = refl;
}
IsScopable-MetricsCall (MetricsCall.get_workflows range) = record {
  distinct = (refl, tt);
  ranged = refl;
  unscoped = refl;
}
IsScopable-MetricsCall (MetricsCall.get_workflow_detail name range) = record {
  distinct = (refl, tt);
  ranged = refl;
  unscoped = refl;
}
IsScopable-MetricsCall (MetricsCall.get_workflow_versions name range) = record {
  distinct = (refl, tt);
  ranged = refl;
  unscoped = refl;
}
IsScopable-MetricsCall (MetricsCall.get_failures range) = record {
  distinct = (refl, tt);
  ranged = refl;
  unscoped = refl;
}
IsScopable-MetricsCall (MetricsCall.get_setup_checks range) = record {
  distinct = (refl, tt);
  ranged = refl;
  unscoped = refl;
}
IsScopable-MetricsCall (MetricsCall.get_attribute_keys range) = record {
  distinct = (refl, tt);
  ranged = refl;
  unscoped = refl;
}

-- Whatever metrics are read: the request names the workspace of the client, and none if the client
-- has none, it names the range, and no parameter comes twice.
pub metrics_request-scoped :
    (config : ApiClientConfig) (call : MetricsCall)
    → (get "workspace_id" (metrics_request config call).url.search_params
        ≡ nonempty config.workspace_id)
      × (get "range" (metrics_request config call).url.search_params ≡ some (range_of call))
      × Distinct (keys (metrics_request config call).url.search_params)
unfolding metrics_request
metrics_request-scoped config call =
    let c = IsScopable-MetricsCall call in
    let r = get_request-IsRead config (metrics_path call) (metrics_params call) c.distinct in
    (r.sent "workspace_id" ∙ rw c.unscoped refl, r.sent "range" ∙ c.ranged, r.once)
