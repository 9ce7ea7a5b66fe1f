-- ===== src/Shell/Routing.antt =====
-- Views as paths, and back: dashboard/src/modules/shell/routing.ts and ids/ViewId.ts.
pub mod Segments
pub mod Core
pub mod RoundTrip
pub mod Resolve
mod Tests
use tracium.Prelude.{
  ℕ, zero, suc, Bool, true, false, ◌&&◌, not, List, [], ◌∷◌, ◌++◌, Option, none, some,
  if◌then◌else◌, ◌===◌, number_key, number_same, ◌||◌, ◌>>=◌, any, find, select, get_elem?,
}
use tracium.Uri.{Text, bytes, encode, decode}
use tracium.Extensions.{bytes_key, ExtensionPage, slice_from}

-- `extension` holds a whole id, `extension:` included.
pub data ViewId : Type 0 where
  overview workflows compare trace usage keys settings users user : ViewId
  extension : Text → ViewId

abbrev pub view_text : ViewId → Text
view_text ViewId.overview = bytes "overview"
view_text ViewId.workflows = bytes "workflows"
view_text ViewId.compare = bytes "compare"
view_text ViewId.trace = bytes "trace"
view_text ViewId.usage = bytes "usage"
view_text ViewId.keys = bytes "keys"
view_text ViewId.settings = bytes "settings"
view_text ViewId.users = bytes "users"
view_text ViewId.user = bytes "user"
view_text (ViewId.extension id) = id

-- The entries of `selected` that the routes read
pub record Selected : Type 0 where
  pub workflow : Option Text
  pub base : Option Text
  pub candidate : Option Text
  pub trace_id : Option Text
  pub user : Option Text

pub record NavState : Type 0 where
  pub view : ViewId
  pub selected : Selected

abbrev pub nothing : Selected
nothing = record { workflow = none; base = none; candidate = none; trace_id = none; user = none }

abbrev pub of_workflow : Text → Selected
of_workflow w = record {
  workflow = some w;
  base = none;
  candidate = none;
  trace_id = none;
  user = none;
}

-- A text that is there and not empty, and the path that it leads to, or else another
abbrev pub if_there {ℓ} : {A : Type ℓ} → Option Text → (Text → A) → A → A
if_there none f other = other
if_there (some []) f other = other
if_there (some (b ∷ t)) f other = f (b ∷ t)

abbrev pub workflow_path : Option Text → Text
workflow_path workflow =
    if_there workflow (λ w. bytes "/workflows/" ++ encode w) (bytes "/workflows")

abbrev pub compare_path : Text → Text → Text → Text
compare_path w b c =
    bytes "/workflows/"
    ++ (encode w ++ (bytes "/compare/" ++ (encode b ++ (bytes "/" ++ encode c))))

-- The `switch` of `stateToPath`
unfoldable pub core_path : ViewId → Selected → Text
core_path ViewId.overview selected = bytes "/"
core_path ViewId.workflows selected = workflow_path selected.workflow
core_path ViewId.compare selected =
    if_there selected.workflow
      (λ w.
        if_there selected.base
          (λ b. if_there selected.candidate (compare_path w b) (workflow_path selected.workflow))
          (workflow_path selected.workflow))
      (workflow_path selected.workflow)
core_path ViewId.trace selected =
    if_there selected.trace_id (λ t. bytes "/traces/" ++ encode t) (bytes "/traces")
core_path ViewId.usage selected = bytes "/usage"
core_path ViewId.users selected = bytes "/clients"
core_path ViewId.user selected =
    if_there selected.user (λ u. bytes "/clients/" ++ encode u) (bytes "/clients")
core_path ViewId.keys selected = bytes "/api-keys"
core_path ViewId.settings selected = bytes "/settings"
core_path (ViewId.extension id) selected = bytes "/"

-- `/extensions/${id.slice(10)}`
abbrev pub page_path : Text → Text
page_path id = bytes "/extensions/" ++ slice_from 10 id

unfoldable pub state_to_path : ViewId → Selected → List ExtensionPage → Text
state_to_path view selected pages =
    if any (λ page. page.id === view_text view) pages
    then page_path (view_text view)
    else core_path view selected

abbrev pub push_byte : ℕ → List Text → List Text
push_byte c [] = (c ∷ []) ∷ []
push_byte c (s ∷ segments) = (c ∷ s) ∷ segments

-- `pathname.split('/')`
unfoldable pub split : Text → List Text
split [] = [] ∷ []
split (c ∷ t) = let rest = split t in if c === 47 then [] ∷ rest else push_byte c rest

abbrev pub is_full : Text → Bool
is_full [] = false
is_full (c ∷ t) = true

-- `.map(decodeURIComponent)`; `none` if one throws
unfoldable pub decode_each : List Text → Option (List Text)
decode_each [] = some []
decode_each (s ∷ segments) = do t ← decode s; ts ← decode_each segments; some (t ∷ ts)

unfoldable pub segments : Text → Option (List Text)
segments pathname = decode_each (select is_full (split pathname))

abbrev pub at_view : ViewId → Selected → NavState
at_view view selected = record { view = view; selected = selected }

abbrev pub of_compare : Option Text → Text → Text → Selected
of_compare w b c = record {
  workflow = w;
  base = some b;
  candidate = some c;
  trace_id = none;
  user = none;
}

-- The case 'workflows', given seg[1] to seg[4]
abbrev pub workflow_route : Option Text → Option Text → Option Text → Option Text → NavState
workflow_route seg₁ seg₂ seg₃ seg₄ =
    let single =
      if_there seg₁ (λ w. at_view ViewId.workflows (of_workflow w))
        (at_view ViewId.workflows nothing) in
    if_there seg₂
      (λ s.
        if s === bytes "compare"
        then if_there seg₃
            (λ b. if_there seg₄ (λ c. at_view ViewId.compare (of_compare seg₁ b c)) single) single
        else single)
      single

-- The `switch` of `pathToState`, on seg[0] and with the segments behind it
unfoldable pub route : Text → List Text → Option NavState
route head rest =
    if head === bytes "workflows"
    then some
        (workflow_route (get_elem? rest 0) (get_elem? rest 1) (get_elem? rest 2) (get_elem? rest 3))
    else if head === bytes "traces"
    then some (
        if_there (get_elem? rest 0)
          (λ t. at_view ViewId.trace (record {
            workflow = none;
            base = none;
            candidate = none;
            trace_id = some t;
            user = none;
          }))
          (at_view ViewId.trace nothing))
    else if head === bytes "usage"
    then some (at_view ViewId.usage nothing)
    else if (head === bytes "clients") || (head === bytes "users")
    then some (
        if_there (get_elem? rest 0)
          (λ u. at_view ViewId.user (record {
            workflow = none;
            base = none;
            candidate = none;
            trace_id = none;
            user = some u;
          }))
          (at_view ViewId.users nothing))
    else if head === bytes "api-keys"
    then some (at_view ViewId.keys nothing)
    else if head === bytes "settings"
    then some (at_view ViewId.settings nothing)
    else none

abbrev pub route_of : List Text → Option NavState
route_of [] = some (at_view ViewId.overview nothing)
route_of (head ∷ rest) = route head rest

-- With the page that has the path, if one has
abbrev pub state_of : Option ExtensionPage → Text → Option NavState
state_of none pathname = segments pathname >>= route_of
state_of (some page) pathname = some (at_view (ViewId.extension page.id) nothing)

unfoldable pub path_to_state : Text → List ExtensionPage → Option NavState
path_to_state pathname pages =
    state_of (find (λ page. pathname === page_path page.id) pages) pathname
