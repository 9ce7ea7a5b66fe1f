-- ===== src/Api/Endpoints/Tests.antt =====
-- Runs of the endpoints, and each property at a concrete input.
use tracium.Prelude.{◌≡◌, refl, [], ◌∷◌, none, some, text_key}
use tracium.Prelude.Maps.{get, Distinct}
use tracium.Prelude.Gather.{keys}
use tracium.Uri.{bytes, encode, encode_byte, is_plain, is_utf8_from, behind_first}
use tracium.Api.Client.{ApiClientConfig, get_request, set_params, delete_request}
use tracium.Api.Client.Requests.{nonempty}
use tracium.Api.Endpoints.{
  MetricsCall, metrics_params, metrics_request, DeleteCall, delete_path, delete_call,
}
use tracium.Api.Endpoints.Scope.{range_of, metrics_request-scoped}
use tracium.Api.Endpoints.Paths.{AreParts}

abbrev client : ApiClientConfig
client = record {
  base_url = "http://localhost:8080";
  api_key = "key";
  timeout_ms = none;
  workspace_id = some "w1";
}

abbrev series : MetricsCall
series = MetricsCall.get_cost_series "30d" (some "sync") none (some "v2")

queried :
    (metrics_request client series).url.search_params
    ≡ ("range", "30d") ∷ ("workflow", "sync") ∷ ("version", "v2") ∷ ("workspace_id", "w1") ∷ []
unfolding metrics_request metrics_params get_request set_params
queried = refl

abbrev key : DeleteCall
key = DeleteCall.revoke_key (bytes "w1") (bytes "k/1")

revoked : (delete_call client key).url.path ≡ bytes "/v1/workspaces/w1/api-keys/k%2F1"
unfolding delete_call delete_request delete_path encode encode_byte is_plain
revoked = refl

metrics_request-scoped_example :
    (get "workspace_id" (metrics_request client series).url.search_params ≡ nonempty (some "w1"))
    × (get "range" (metrics_request client series).url.search_params ≡ some (range_of series))
    × Distinct (keys (metrics_request client series).url.search_params)
metrics_request-scoped_example = metrics_request-scoped client series

key-AreParts : AreParts key
unfolding is_utf8_from behind_first
key-AreParts = ((refl, refl), (refl, refl))
