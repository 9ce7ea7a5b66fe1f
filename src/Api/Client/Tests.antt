-- ===== src/Api/Client/Tests.antt =====
-- Runs of the client, and each property at a concrete input.
use tracium.Prelude.{ℕ, ◌<◌, ◌≡◌, ◌↔◌, refl, true, false, List, [], ◌∷◌, Option, none, some, String}
use tracium.Uri.{bytes}
use tracium.Prelude.Numbers.{number_text}
use tracium.Api.Client.{
  ApiClientConfig, Failure, Outcome, Response, Arrival, ParamValue, new_client, get_request,
  set_params, request, timeout_of, handle_error, retry,
}
use tracium.Api.Client.Requests.{IsRead, get_request-IsRead}
use tracium.Api.Client.Outcomes.{Reads, request_done_iff, unauthorized_iff}

abbrev client : ApiClientConfig
client = record {
  base_url = "http://localhost:8080";
  api_key = "key";
  timeout_ms = none;
  workspace_id = some "w1";
}

abbrev params : List (String × Option ParamValue)
params =
    ("range", some (ParamValue.text "7d"))
    ∷ ("user_id", none)
    ∷ ("limit", some (ParamValue.number 50))
    ∷ []

refused :
    new_client (record { base_url = "x"; api_key = ""; timeout_ms = none; workspace_id = none })
    ≡ Outcome.thrown (Failure.config_error "apiKey is required")
unfolding new_client
refused = refl

sent :
    (get_request client (bytes "/traces") params).url.search_params
    ≡ ("range", "7d") ∷ ("limit", "50") ∷ ("workspace_id", "w1") ∷ []
unfolding get_request set_params number_text
sent = refl

abbrev expired : Arrival ℕ
expired = Arrival.responded (record {
  status = 401;
  json = none;
  error_json = some (record { code = some "TOKEN_EXPIRED"; message = none });
})

abbrev expired_error : Failure
expired_error =
    Failure.api_error
      (record { message = "Request failed with status 401"; status = 401; code = "TOKEN_EXPIRED" })

expires : request client "aborted" 20 expired ≡ Outcome.thrown expired_error
unfolding request number_text
expires = refl

too_late :
    request client "aborted" 10_000 expired ≡ Outcome.thrown (Failure.network_error "aborted")
unfolding request
too_late = refl

get_request-IsRead_example : IsRead client params (get_request client (bytes "/traces") params)
get_request-IsRead_example =
    get_request-IsRead client (bytes "/traces") params (refl, (refl, (refl, tt)))

abbrev answer : Arrival ℕ
answer = Arrival.responded (record { status = 200; json = some 5; error_json = none })

request_done_iff_example : (request client "aborted" 20 answer ≡ Outcome.done (some 5)) ↔ (
    (20 < timeout_of client.timeout_ms)
    × ((r : Response ℕ) × (answer ≡ Arrival.responded r) × Reads r (some 5)))
request_done_iff_example = request_done_iff client "aborted" 20 answer (some 5)

unauthorized_iff_example :
    ((handle_error expired_error ≡ true) ↔ (
      (20 < timeout_of client.timeout_ms)
      × ((r : Response ℕ) × (expired ≡ Arrival.responded r) × (r.status ≡ 401))))
    × ((n : ℕ) → (retry n expired_error ≡ true) ↔ ((n ≡ 0) × (handle_error expired_error ≡ false)))
unauthorized_iff_example = unauthorized_iff client "aborted" 20 expired expired_error expires
