-- ===== src/Auth/Submit.antt =====
-- What comes of a submission of the login page and of the sign-up page.
use tracium.Prelude.{
  ◌≡◌, refl, sym, ap, ◌∙◌, subst, Bool, true, false, ◌&&◌, ◌||◌, not, Option, none, some, String,
  arith, if◌then◌else◌, ◌===◌, number_key, is_truthy, ◌>>=◌, Bool-cases, inl, inr, if_true,
  if_false,
}
use tracium.Api.Client.{is_ok}
use tracium.Session.{App, handle_login}
use tracium.Auth.{
  RequestFailure, Result, ok, fail, Response, Fetched, response, unreachable, Form, Submission,
  login_user, register_user, registered, request_error_message, public_request, login_result,
  signup_result, enter, started, ended, submit_login, submit_signup, invalid_credentials,
  login_caught, signup_caught, shows, missing_fields,
}

abbrev pub is_filled : String → String → Bool
is_filled email password = is_truthy email && is_truthy password

abbrev pub result_token : Result String → Option String
result_token (ok token) = some token
result_token (fail f) = none

-- The token of an answer that lets in: both fields were filled, and the status says success.
abbrev pub login_token : String → String → Fetched String → Option String
login_token email password (unreachable message) = none
login_token email password (response r) =
    if is_filled email password && is_ok r.status then result_token r.body else none

-- The token of an answer that signs up and in, and whether the address must be confirmed first
abbrev pub entry_token : Result String → Option String
entry_token (ok token) = if is_truthy token then some token else none
entry_token (fail f) = none

abbrev pub signup_entry : String → String → Fetched String → Option String
signup_entry email password (unreachable message) = none
signup_entry email password (response r) =
    if is_filled email password && is_ok r.status && not (r.status === 202)
    then entry_token r.body
    else none

abbrev pub lacks_token : Result String → Bool
lacks_token (ok token) = not (is_truthy token)
lacks_token (fail f) = false

abbrev pub is_pending : String → String → Fetched String → Bool
is_pending email password (unreachable message) = false
is_pending email password (response r) =
    is_filled email password && is_ok r.status && (r.status === 202 || lacks_token r.body)

-- In, and without a message; or not in, and with one
abbrev pub Ends : Option App → Submission → Type 0
Ends none s = (s.signed_in ≡ none) × (message : String) × (s.form.form_error ≡ some message)
Ends (some app) s = (s.signed_in ≡ some app) × (s.form.form_error ≡ none)

filled_or_missing :
    (email password : String)
    → (not (is_truthy email) || not (is_truthy password)) ≡ not (is_filled email password)
filled_or_missing email password = ground arith

module _ (storage_error email password : String) (app : App) (form : Form) where
  abbrev pub token_in : Option String → Option App
  token_in token = token >>= (λ t. handle_login t email app)

  enter-Ends :
      (caught : RequestFailure → Submission) (o : Option App)
      → ((f : RequestFailure) → Ends none (caught f))
      → Ends o (ended (enter caught storage_error (started form) o))
  enter-Ends caught none h = h _
  enter-Ends caught (some a) h = (refl, refl)

  login_result-Ends :
      (r : Result String)
      → Ends
          (token_in (result_token r))
          (ended (login_result storage_error email app (started form) r))
  login_result-Ends (fail f) = (refl, _, refl)
  login_result-Ends (ok token) =
      enter-Ends (login_caught (started form)) (handle_login token email app) (λ f. (refl, _, refl))

  login-Ends :
      (fetched : Fetched String)
      → is_filled email password ≡ true
      → Ends
          (token_in (login_token email password fetched))
          (ended (login_result storage_error email app (started form) (login_user fetched)))
  unfolding login_user public_request
  login-Ends (unreachable message) full = (refl, _, refl)
  login-Ends (response r) full = elim (Bool-cases (is_ok r.status)) [
    | inl e ↦ rw full (rw e (login_result-Ends r.body))
    | inr e ↦ rw full (rw e (refl, _, refl))
  ]

  unauthorized :
      (r : Response String)
      → r.status ≡ 401
      → (login_result storage_error email app
          (started form)
          (login_user (response r))).form.form_error
        ≡ some invalid_credentials
  unfolding login_user public_request request_error_message
  unauthorized r e = rw e refl

  login_missing :
      (fetched : Fetched String)
      → is_filled email password ≡ false
      → login_token email password fetched ≡ none
  login_missing (unreachable message) empty = refl
  login_missing (response r) empty = rw empty refl

  -- A submission of the login page, by a form that is not being submitted, leaves one that is not. It
  -- signs in exactly if both fields are filled, the server answers with a status of success and a
  -- token, and the storage takes it; then the application is the one after that login and no message
  -- is shown. Else nothing changes but the message, and there is one: for the status 401 it is about
  -- the credentials.
  pub submit_login-Ends :
      (fetched : Fetched String)
      → form.submitting ≡ false
      → let s = submit_login storage_error email password fetched app form in
        Ends (token_in (login_token email password fetched)) s
        × (s.form.submitting ≡ false)
        × ((r : Response String)
            → fetched ≡ response r
            → r.status ≡ 401
            → is_filled email password ≡ true
            → s.form.form_error ≡ some invalid_credentials)
  unfolding submit_login
  submit_login-Ends fetched idle = elim (Bool-cases (is_filled email password)) [
    | inl full ↦
        (let goes =
            if_false (shows form missing_fields) (filled_or_missing email password ∙ ap not full) in
          (
            subst (Ends (token_in (login_token email password fetched))) (sym goes)
                (login-Ends fetched full),
            ap (λ (s : Submission). s.form.submitting) goes,
            λ r e status _.
                ap (λ (s : Submission). s.form.form_error) goes
                ∙ ap
                    (λ f.
                      (login_result storage_error email app (started form)
                        (login_user f)).form.form_error)
                    e
                ∙ unauthorized r status,
          ))
    | inr empty ↦
        (let stops =
            if_true
              (ended (login_result storage_error email app (started form) (login_user fetched)))
              (filled_or_missing email password ∙ ap not empty) in
          (
            subst (Ends (token_in (login_token email password fetched))) (sym stops) (
                subst (λ o. Ends (token_in o) (shows form missing_fields))
                  (sym (login_missing fetched empty)) (refl, _, refl)),
            ap (λ (s : Submission). s.form.submitting) stops ∙ idle,
            λ r e status full. absurd (ground (arith, full, empty)),
          ))
  ]

  -- The page of a sign-up: asking to confirm the address, in, or with a message
  abbrev pub SignsUp : Bool → Option App → Submission → Type 0
  SignsUp true entered s =
      (s.signed_in ≡ none) × (s.form.form_error ≡ none) × (s.form.pending_email ≡ some email)
  SignsUp false entered s = Ends entered s × (s.form.pending_email ≡ form.pending_email)

  enter-SignsUp :
      (o : Option App)
      → SignsUp false o
          (ended (enter (signup_caught (started form)) storage_error (started form) o))
  enter-SignsUp none = ((refl, _, refl), refl)
  enter-SignsUp (some a) = ((refl, refl), refl)

  register-SignsUp :
      (r : Result String)
      → SignsUp
          (lacks_token r)
          (token_in (entry_token r))
          (ended (signup_result storage_error email app (started form) (registered r)))
  register-SignsUp (fail f) = ((refl, _, refl), refl)
  register-SignsUp (ok token) = elim (Bool-cases (is_truthy token)) [
    | inl e ↦ rw e (enter-SignsUp (handle_login token email app))
    | inr e ↦ rw e (refl, refl, refl)
  ]

  signup-SignsUp :
      (fetched : Fetched String)
      → is_filled email password ≡ true
      → SignsUp
          (is_pending email password fetched)
          (token_in (signup_entry email password fetched))
          (ended (signup_result storage_error email app (started form) (register_user fetched)))
  unfolding register_user public_request
  signup-SignsUp (unreachable message) full = ((refl, _, refl), refl)
  signup-SignsUp (response r) full = elim (Bool-cases (is_ok r.status)) [
    | inl e ↦ elim (Bool-cases (r.status === 202)) [
      | inl accepted ↦ rw full (rw e (rw accepted (refl, refl, refl)))
      | inr made ↦ rw full (rw e (rw made (register-SignsUp r.body)))
    ]
    | inr e ↦ rw full (rw e ((refl, _, refl), refl))
  ]

  signup_missing :
      (fetched : Fetched String)
      → is_filled email password ≡ false
      → (is_pending email password fetched ≡ false) × (signup_entry email password fetched ≡ none)
  signup_missing (unreachable message) empty = (refl, refl)
  signup_missing (response r) empty = (rw empty refl, rw empty refl)

  -- A submission of the sign-up page, by a form that is not being submitted, leaves one that is not.
  -- If both fields are filled and the server answers with success, but with the status 202 or an
  -- empty token, the page asks to confirm the address, and does not sign in. If it answers with
  -- success and a token, and the storage takes it, the application is the one after that login. Else
  -- there is a message, and nobody is signed in.
  pub submit_signup-SignsUp :
      (fetched : Fetched String)
      → form.submitting ≡ false
      → let s = submit_signup storage_error email password fetched app form in
        SignsUp
          (is_pending email password fetched)
          (token_in (signup_entry email password fetched))
          s
        × (s.form.submitting ≡ false)
  unfolding submit_signup
  submit_signup-SignsUp fetched idle =
      let P =
        SignsUp (is_pending email password fetched)
          (token_in (signup_entry email password fetched)) in
      elim (Bool-cases (is_filled email password)) [
        | inl full ↦
            (let goes =
                if_false (shows form missing_fields)
                  (filled_or_missing email password ∙ ap not full) in
              (
                subst P (sym goes) (signup-SignsUp fetched full),
                ap (λ (s : Submission). s.form.submitting) goes,
              ))
        | inr empty ↦
            (let stops =
                if_true
                  (ended
                    (signup_result storage_error email app (started form) (register_user fetched)))
                  (filled_or_missing email password ∙ ap not empty) in
              let (calm, absent) = signup_missing fetched empty in
              (
                subst P (sym stops) (
                    subst
                      (λ b.
                        SignsUp b (token_in (signup_entry email password fetched))
                          (shows form missing_fields))
                      (sym calm)
                      (subst (λ o. SignsUp false (token_in o) (shows form missing_fields))
                        (sym absent) ((refl, _, refl), refl))),
                ap (λ (s : Submission). s.form.submitting) stops ∙ idle,
              ))
      ]
