-- ===== src/Api/Client/Requests.antt =====
-- The requests that a client sends: their search parameters and their headers.
use tracium.Prelude.{
  ◌≡◌, refl, sym, ap, ◌∙◌, inl, inr, false, List, [], ◌∷◌, Option, none, some, String, arith,
  if◌then◌else◌, ◌===◌, text_key, is_truthy, Bool-cases, eq_of_same,
}
use tracium.Prelude.Maps.{has, get, set, get-set, Distinct}
use tracium.Prelude.Gather.{keys, Distinct-set}
use tracium.Uri.{Text}
use tracium.Prelude.Numbers.{◌⧺◌}
use tracium.Api.Client.{
  ApiClientConfig, ParamValue, param_text, set_param, set_params, set_scope, with_headers, Request,
  get_request,
}

-- The text of a parameter that is there and is not undefined
abbrev pub defined : Option (Option ParamValue) → Option String
defined none = none
defined (some none) = none
defined (some (some value)) = some (param_text value)

abbrev pub param_of : String → List (String × Option ParamValue) → Option String
param_of k params = defined (get k params)

-- A text, or another if there is none
abbrev pub first_of : Option String → Option String → Option String
first_of none b = b
first_of (some a) b = some a

abbrev pub nonempty : Option String → Option String
nonempty none = none
nonempty (some s) = if is_truthy s then some s else none

get-eq-none :
    (k : String) (params : List (String × Option ParamValue))
    → has k (keys params) ≡ false
    → get k params ≡ none
get-eq-none k [] h = refl
get-eq-none k ((j, v) ∷ params) h = ground (arith, get-eq-none k params)

get-set_param :
    (k key : String) (value : Option ParamValue) (m : List (String × String))
    → get k (set_param key value m)
      ≡ (if key === k then first_of (defined (some value)) (get k m) else get k m)
get-set_param k key none m = ground arith
get-set_param k key (some value) m = get-set key k (param_text value) m

get-set_params :
    (k : String) (params : List (String × Option ParamValue)) (m : List (String × String))
    → Distinct (keys params)
    → get k (set_params params m) ≡ first_of (param_of k params) (get k m)
unfolding set_params
get-set_params k [] m d = refl
get-set_params k ((key, value) ∷ params) m (new, d) = elim (Bool-cases (key === k)) [
  | inl same ↦
      get-set_params k params (set_param key value m) d
      ∙ rw
          (get-eq-none k params (ap (λ j. has j (keys params)) (sym (eq_of_same key k same)) ∙ new))
          (get-set_param k key value m ∙ rw same refl)
  | inr other ↦
      get-set_params k params (set_param key value m) d
      ∙ rw other (ap (first_of (param_of k params)) (get-set_param k key value m ∙ rw other refl))
]

Distinct-set_params :
    (params : List (String × Option ParamValue)) (m : List (String × String))
    → Distinct (keys m)
    → Distinct (keys (set_params params m))
unfolding set_params
Distinct-set_params [] m d = d
Distinct-set_params ((key, none) ∷ params) m d = Distinct-set_params params m d
Distinct-set_params ((key, some value) ∷ params) m d =
    Distinct-set_params params (set key (param_text value) m)
      (Distinct-set key (param_text value) m d)

get_at :
    (j k : String) (m : List (String × String)) (o : Option String)
    → get j m ≡ o
    → get k m ≡ (if j === k then o else get k m)
get_at j k m o e = elim (Bool-cases (j === k)) [
  | inl same ↦ rw same (ap (λ i. get i m) (sym (eq_of_same j k same)) ∙ e)
  | inr other ↦ rw other refl
]

first_of-none : (o : Option String) → first_of o none ≡ o
first_of-none none = refl
first_of-none (some a) = refl

Distinct-set_scope :
    (workspace explicit : Option String) (m : List (String × String))
    → Distinct (keys m)
    → Distinct (keys (set_scope workspace explicit m))
Distinct-set_scope none explicit m d = d
Distinct-set_scope (some id) (some x) m d = d
Distinct-set_scope (some id) none m d = elim (Bool-cases (is_truthy id)) [
  | inl named ↦ rw named (Distinct-set "workspace_id" id m d)
  | inr empty ↦ rw empty d
]

get-set_scope :
    (k : String) (workspace explicit : Option String) (m : List (String × String))
    → get "workspace_id" m ≡ explicit
    → get k (set_scope workspace explicit m)
      ≡ (if "workspace_id" === k then first_of explicit (nonempty workspace) else get k m)
get-set_scope k none none m e = get_at "workspace_id" k m none e
get-set_scope k none (some x) m e = get_at "workspace_id" k m (some x) e
get-set_scope k (some id) (some x) m e = get_at "workspace_id" k m (some x) e
get-set_scope k (some id) none m e = elim (Bool-cases (is_truthy id)) [
  | inl named ↦ rw named (get-set "workspace_id" k id m)
  | inr empty ↦ rw empty (get_at "workspace_id" k m none e)
]

-- What the parameters of a request to be read hold, and how it is authorised
pub record IsRead (config : ApiClientConfig) (params : List (String × Option ParamValue))
    (r : Request) : Type 0 where
  pub once : Distinct (keys r.url.search_params)
  pub sent :
      (k : String)
      → get k r.url.search_params ≡ (
          if "workspace_id" === k
          then first_of (param_of k params) (nonempty config.workspace_id)
          else param_of k params)
  pub authorised : get "Authorization" r.headers ≡ some ("Bearer " ⧺ config.api_key)

-- The request of `get` holds each defined parameter, once, and no other, save that a client with a
-- workspace adds its id as `workspace_id` where the parameters define none. It carries the key.
pub get_request-IsRead :
    (config : ApiClientConfig) (path : Text) (params : List (String × Option ParamValue))
    → Distinct (keys params)
    → IsRead config params (get_request config path params)
unfolding get_request with_headers
get_request-IsRead config path params d =
    let m = set_params params [] in
    let found : (k : String) → get k m ≡ param_of k params =
      λ k. get-set_params k params [] d ∙ first_of-none (param_of k params) in
    record {
      once =
          Distinct-set_scope config.workspace_id (get "workspace_id" m) m
            (Distinct-set_params params [] tt);
      sent = λ k.
          get-set_scope k config.workspace_id (get "workspace_id" m) m refl
          ∙ scoped k (found k) (found "workspace_id");
      authorised = refl;
    }
  where
    scoped :
        (k : String)
        → get k (set_params params []) ≡ param_of k params
        → get "workspace_id" (set_params params []) ≡ param_of "workspace_id" params
        → (if "workspace_id" === k
            then first_of (get "workspace_id" (set_params params [])) (nonempty config.workspace_id)
            else get k (set_params params []))
          ≡ (if "workspace_id" === k
              then first_of (param_of k params) (nonempty config.workspace_id)
              else param_of k params)
    scoped k e e' = elim (Bool-cases ("workspace_id" === k)) [
      | inl same ↦ rw same (
          ap (λ o. first_of o (nonempty config.workspace_id))
            (e' ∙ ap (λ j. param_of j params) (eq_of_same "workspace_id" k same)))
      | inr other ↦ rw other e
    ]
