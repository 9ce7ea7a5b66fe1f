-- ===== src/Api/Client.antt =====
-- The base client: dashboard/src/common/api/client.ts and common/interfaces/APIClientConfig.ts.
-- A URL is held as its origin, its path in bytes and its search parameters. What `fetch` brings
-- back, and after how long, is an argument: it is the host's and the server's.
pub mod Requests
pub mod Outcomes
mod Tests
use tracium.Prelude.{
  ℕ, Bool, true, false, ◌&&◌, ◌||◌, not, List, [], ◌∷◌, ◌++◌, Option, none, some, String, ltb, leb,
  if◌then◌else◌, ◌===◌, text_key, number_key, is_truthy,
}
use tracium.Prelude.Maps.{get, set, from_pairs}
use tracium.Uri.{Text, bytes}
use tracium.Prelude.Numbers.{◌⧺◌, number_text}

pub record ApiClientConfig : Type 0 where
  pub base_url : String
  pub api_key : String
  pub timeout_ms : Option ℕ
  pub workspace_id : Option String

-- The errors that a client throws: APIError, NetworkError and ConfigError, and the host's own for a
-- body that is no JSON
pub record ApiError : Type 0 where
  pub message : String
  pub status : ℕ
  pub code : String

pub data Failure : Type 0 where
  api_error : ApiError → Failure
  network_error : String → Failure
  config_error : String → Failure
  malformed : Failure

pub data Outcome {ℓ} (A : Type ℓ) : Type ℓ where
  done : A → Outcome A
  thrown : Failure → Outcome A

unfoldable pub is_not_found : ApiError → Bool
is_not_found e = e.status === 404

unfoldable pub is_unauthorized : ApiError → Bool
is_unauthorized e = e.status === 401

unfoldable pub is_server_error : ApiError → Bool
is_server_error e = leb 500 e.status

unfoldable pub is_retryable : ApiError → Bool
is_retryable e = (e.status === 429) || leb 500 e.status

-- The constructor: a client is its configuration.
unfoldable pub new_client : ApiClientConfig → Outcome ApiClientConfig
new_client config =
    if not (is_truthy config.base_url)
    then Outcome.thrown (Failure.config_error "baseUrl is required")
    else if not (is_truthy config.api_key)
    then Outcome.thrown (Failure.config_error "apiKey is required")
    else Outcome.done config

pub data Method : Type 0 where
  get_method post_method delete_method : Method

pub record Url : Type 0 where
  pub base : String
  pub path : Text
  pub search_params : List (String × String)

-- A request as it is given to `fetch`
pub record Request : Type 0 where
  pub method : Method
  pub url : Url
  pub headers : List (String × String)
  pub body : Option String

-- A value in `params`
pub data ParamValue : Type 0 where
  text : String → ParamValue
  number : ℕ → ParamValue
  flag : Bool → ParamValue

-- `String(value)`
abbrev pub param_text : ParamValue → String
param_text (ParamValue.text s) = s
param_text (ParamValue.number n) = number_text n
param_text (ParamValue.flag b) = if b then "true" else "false"

-- `if (value !== undefined) url.searchParams.set(key, String(value))`
abbrev pub set_param : String → Option ParamValue → List (String × String) → List (String × String)
set_param key none search_params = search_params
set_param key (some value) search_params = set key (param_text value) search_params

-- The loop over `Object.entries(params)`
unfoldable pub set_params :
    List (String × Option ParamValue) → List (String × String) → List (String × String)
set_params [] search_params = search_params
set_params ((key, value) ∷ params) search_params =
    set_params params (set_param key value search_params)

-- The scope to the workspace, given what the parameters have already
abbrev pub set_scope :
    Option String → Option String → List (String × String) → List (String × String)
set_scope none explicit search_params = search_params
set_scope (some id) none search_params =
    if is_truthy id then set "workspace_id" id search_params else search_params
set_scope (some id) (some explicit) search_params = search_params

-- The headers that `request` sends: those of `init` overwrite.
unfoldable pub with_headers : ApiClientConfig → List (String × String) → List (String × String)
with_headers config headers =
    from_pairs (("Authorization", "Bearer " ⧺ config.api_key) ∷ []) headers

-- `get`. Without `params` the list of them is empty.
unfoldable pub get_request : ApiClientConfig → Text → List (String × Option ParamValue) → Request
get_request config path params =
    let search_params = set_params params [] in
    record {
      method = Method.get_method;
      url = record {
        base = config.base_url;
        path = bytes "/v1" ++ path;
        search_params =
            set_scope config.workspace_id (get "workspace_id" search_params) search_params;
      };
      headers = with_headers config [];
      body = none;
    }

-- `post`, with the body as the text that `JSON.stringify` makes of it
unfoldable pub post_request : ApiClientConfig → Text → String → Request
post_request config path body = record {
  method = Method.post_method;
  url = record { base = config.base_url; path = bytes "/v1" ++ path; search_params = [] };
  headers = with_headers config (("Content-Type", "application/json") ∷ []);
  body = some body;
}

unfoldable pub delete_request : ApiClientConfig → Text → Request
delete_request config path = record {
  method = Method.delete_method;
  url = record { base = config.base_url; path = bytes "/v1" ++ path; search_params = [] };
  headers = with_headers config [];
  body = none;
}

-- The body of an error: the fields that are texts
pub record ErrorBody : Type 0 where
  pub code : Option String
  pub message : Option String

-- A response: its status, its body as JSON, if it is JSON, and as the body of an error
pub record Response {ℓ} (A : Type ℓ) : Type ℓ where
  pub status : ℕ
  pub json : Option A
  pub error_json : Option ErrorBody

-- What `fetch` comes to, if it is not aborted: a rejection, with the message if it is an Error, or a
-- response
pub data Arrival {ℓ} (A : Type ℓ) : Type ℓ where
  rejected : Option String → Arrival A
  responded : Response A → Arrival A

-- `response.ok`
abbrev pub is_ok : ℕ → Bool
is_ok status = leb 200 status && ltb status 300

abbrev pub message_or : Option String → String → String
message_or none fallback = fallback
message_or (some message) fallback = message

-- `if (json.code) code = json.code`
abbrev pub code_or : Option String → String → String
code_or none fallback = fallback
code_or (some code) fallback = if is_truthy code then code else fallback

abbrev pub error_of : ℕ → Option ErrorBody → ApiError
error_of status none = record {
  message = "Request failed with status " ⧺ number_text status;
  status = status;
  code = "UNKNOWN_ERROR";
}
error_of status (some json) = record {
  message = message_or json.message ("Request failed with status " ⧺ number_text status);
  status = status;
  code = code_or json.code "UNKNOWN_ERROR";
}

abbrev pub body_of {ℓ} : {A : Type ℓ} → Option A → Outcome (Option A)
body_of none = Outcome.thrown Failure.malformed
body_of (some a) = Outcome.done (some a)

abbrev pub settle {ℓ} : {A : Type ℓ} → Arrival A → Outcome (Option A)
settle (Arrival.rejected message) =
    Outcome.thrown (Failure.network_error (message_or message "Network request failed"))
settle (Arrival.responded response) =
    if not (is_ok response.status)
    then Outcome.thrown (Failure.api_error (error_of response.status response.error_json))
    else if response.status === 204
    then Outcome.done none
    else body_of response.json

abbrev pub timeout_of : Option ℕ → ℕ
timeout_of none = 10_000
timeout_of (some timeout_ms) = timeout_ms

-- `request`, from what `fetch` comes to after `after_ms`. The timer aborts it first if that is later;
-- `aborted` is the host's message then.
unfoldable pub request {ℓ} :
    {A : Type ℓ} → ApiClientConfig → String → ℕ → Arrival A → Outcome (Option A)
request config aborted after_ms arrival =
    if ltb after_ms (timeout_of config.timeout_ms)
    then settle arrival
    else settle (Arrival.rejected (some aborted))

-- QueryProvider, of dashboard/src/common/providers/QueryProvider.tsx: whether an error calls
-- `onUnauthorized`, and whether a query is tried again
unfoldable pub handle_error : Failure → Bool
unfolding is_unauthorized
handle_error (Failure.api_error e) = is_unauthorized e
handle_error (Failure.network_error message) = false
handle_error (Failure.config_error message) = false
handle_error Failure.malformed = false

unfoldable pub retry : ℕ → Failure → Bool
unfolding handle_error
retry failure_count error = if handle_error error then false else ltb failure_count 1
