-- ===== src/Auth.antt =====
-- Signing in and up: dashboard/src/modules/auth/api.ts, and the submissions of pages/LoginPage.tsx and
-- pages/SignupPage.tsx. What the server answers, the messages of the host's own errors and the fields
-- that an extension adds are arguments.
pub mod Submit
mod Tests
use tracium.Prelude.{
  ℕ, Bool, true, false, ◌&&◌, ◌||◌, not, List, [], ◌∷◌, Option, none, some, String, if◌then◌else◌,
  ◌===◌, number_key, is_truthy, ◌+◌,
}
use tracium.Prelude.Maps.{get}
use tracium.Prelude.Numbers.{◌⧺◌, number_text}
use tracium.Api.Client.{is_ok}
use tracium.Session.{App, handle_login}

-- What a `catch` may get: an `AuthError`, an `APIError`, or another `Error`
pub data RequestFailure : Type 0 where
  auth_error : (message : String) (status : ℕ) → RequestFailure
  api_error : (message : String) (status : ℕ) (code : String) → RequestFailure
  other_error : (message : String) → RequestFailure

pub data Result {ℓ} (A : Type ℓ) : Type ℓ where
  ok : A → Result A
  fail : RequestFailure → Result A

abbrev pub status_of : RequestFailure → ℕ
status_of (auth_error message status) = status
status_of (api_error message status code) = status
status_of (other_error message) = 0

abbrev pub message_of : RequestFailure → String
message_of (auth_error message status) = message
message_of (api_error message status code) = message
message_of (other_error message) = message

abbrev pub or_message : Option String → String → String
or_message none other = other
or_message (some message) other = message

-- `requestErrorMessage`
unfoldable pub request_error_message : RequestFailure → List (ℕ × String) → Option String → String
request_error_message err by_status fallback =
    or_message (get (status_of err) by_status) (or_message fallback (message_of err))

-- A response: its status, the `message` of its JSON where it is read as an error, if it has one and
-- parses, and its JSON where it is read as a result, or else the message of the parser
pub record Response {ℓ} (A : Type ℓ) : Type ℓ where
  pub status : ℕ
  pub error_body : Option String
  pub body : Result A

-- What `fetch` comes to: a response, or the message of its error
pub data Fetched {ℓ} (A : Type ℓ) : Type ℓ where
  response : Response A → Fetched A
  unreachable : String → Fetched A

abbrev pub error_text : Option String → String → String
error_text none label = label
error_text (some message) label = if is_truthy message then message else label

-- `publicRequest`
unfoldable pub public_request {ℓ} : {A : Type ℓ} → String → Fetched A → Result (Response A)
public_request failure_label (unreachable message) = fail (other_error message)
public_request failure_label (response r) =
    if is_ok r.status
    then ok r
    else fail (
        auth_error (error_text r.error_body (failure_label ⧺ (" (" ⧺ (number_text r.status ⧺ ")"))))
          r.status)

abbrev pub body_of {ℓ} : {A : Type ℓ} → Result (Response A) → Result A
body_of (fail f) = fail f
body_of (ok r) = r.body

-- `loginUser`, with the token of a `LoginResponse`
unfoldable pub login_user : Fetched String → Result String
login_user fetched = body_of (public_request "Login failed" fetched)

pub record RegisterResult : Type 0 where
  pub token : Option String
  pub confirmation_required : Bool

abbrev pub registered : Result String → Result RegisterResult
registered (fail f) = fail f
registered (ok token) = ok (record { token = some token; confirmation_required = false })

abbrev pub register_from : Result (Response String) → Result RegisterResult
register_from (fail f) = fail f
register_from (ok r) =
    if r.status === 202
    then ok (record { token = none; confirmation_required = true })
    else registered r.body

-- `registerUser`
unfoldable pub register_user : Fetched String → Result RegisterResult
register_user fetched = register_from (public_request "Sign up failed" fetched)

-- The state of the two pages; `pending_email` and `attempt` are those of the sign-up page.
pub record Form : Type 0 where
  pub submitting : Bool
  pub form_error : Option String
  pub pending_email : Option String
  pub attempt : ℕ

-- A page after a submission, and the application if `onLogin` changed it
pub record Submission : Type 0 where
  pub form : Form
  pub signed_in : Option App

abbrev pub shows : Form → String → Submission
shows form message = record { form = record form { form_error = some message }; signed_in = none }

abbrev pub missing_fields : String
missing_fields = "Please provide both your email and password to continue."

abbrev pub invalid_credentials : String
invalid_credentials = "We couldn't verify those credentials. Check your details and try again."

abbrev pub account_exists : String
account_exists = "An account with that email already exists. Try signing in instead."

-- `setSubmitting(true)` and `setFormError(null)`, and `setSubmitting(false)` in the end
abbrev pub started : Form → Form
started form = record form { submitting = true; form_error = none }

abbrev pub ended : Submission → Submission
ended s = record s { form = record s.form { submitting = false } }

-- `onLogin` throws if the storage does, with a message of the host.
abbrev pub enter : (RequestFailure → Submission) → String → Form → Option App → Submission
enter caught storage_error form none = caught (other_error storage_error)
enter caught storage_error form (some app) = record { form = form; signed_in = some app }

abbrev pub login_caught : Form → RequestFailure → Submission
login_caught form err =
    shows form (request_error_message err ((401, invalid_credentials) ∷ []) none)

abbrev pub login_result : String → String → App → Form → Result String → Submission
login_result storage_error email app form (fail f) = login_caught form f
login_result storage_error email app form (ok token) =
    enter (login_caught form) storage_error form (handle_login token email app)

-- `handleSubmit` of the login page
unfoldable pub submit_login : String → String → String → Fetched String → App → Form → Submission
submit_login storage_error email password fetched app form =
    if not (is_truthy email) || not (is_truthy password)
    then shows form missing_fields
    else ended (login_result storage_error email app (started form) (login_user fetched))

abbrev pub signup_caught : Form → RequestFailure → Submission
signup_caught form err =
    shows (record form { attempt = form.attempt + 1 })
      (request_error_message err ((409, account_exists) ∷ []) none)

abbrev pub confirms : String → Form → Submission
confirms email form = record { form = record form { pending_email = some email }; signed_in = none }

abbrev pub signup_token : String → String → App → Form → Option String → Submission
signup_token storage_error email app form none = confirms email form
signup_token storage_error email app form (some token) =
    if is_truthy token
    then enter (signup_caught form) storage_error form (handle_login token email app)
    else confirms email form

abbrev pub signup_result : String → String → App → Form → Result RegisterResult → Submission
signup_result storage_error email app form (fail f) = signup_caught form f
signup_result storage_error email app form (ok r) =
    if r.confirmation_required
    then confirms email form
    else signup_token storage_error email app form r.token

-- `handleSubmit` of the sign-up page
unfoldable pub submit_signup : String → String → String → Fetched String → App → Form → Submission
submit_signup storage_error email password fetched app form =
    if not (is_truthy email) || not (is_truthy password)
    then shows form missing_fields
    else ended (signup_result storage_error email app (started form) (register_user fetched))
