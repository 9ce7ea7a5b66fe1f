-- ===== src/Auth/Tests.antt =====
-- Submissions of the two forms, and their theorems at concrete answers.
use tracium.Prelude.{◌≡◌, refl, true, false, [], none, some, String}
use tracium.Session.{App, Access}
use tracium.Auth.{
  Form, Response, Fetched, response, ok, submit_login, submit_signup, invalid_credentials,
}
use tracium.Auth.Submit.{
  Ends, SignsUp, is_filled, login_token, is_pending, signup_entry, token_in, submit_login-Ends,
  submit_signup-SignsUp,
}

abbrev app : App
app = record {
  token = none;
  invite_token = none;
  local_storage = record { access = Access.open_access; items = [] };
  session_storage = record { access = Access.open_access; items = [] };
}

abbrev empty_form : Form
empty_form = record { submitting = false; form_error = none; pending_email = none; attempt = 0 }

abbrev let_in : Fetched String
let_in = response (record { status = 200; error_body = none; body = ok "t" })

abbrev held_back : Fetched String
held_back = response (record { status = 202; error_body = none; body = ok "" })

submit_login-Ends_example :
    let s = submit_login "full" "a@b.c" "pw" let_in app empty_form in
    Ends (token_in "full" "a@b.c" "pw" app empty_form (login_token "a@b.c" "pw" let_in)) s
    × (s.form.submitting ≡ false)
    × ((r : Response String)
        → let_in ≡ response r
        → r.status ≡ 401
        → is_filled "a@b.c" "pw" ≡ true
        → s.form.form_error ≡ some invalid_credentials)
submit_login-Ends_example = submit_login-Ends "full" "a@b.c" "pw" app empty_form let_in refl

submit_signup-SignsUp_example :
    let s = submit_signup "full" "a@b.c" "pw" held_back app empty_form in
    SignsUp "full" "a@b.c" "pw" app empty_form
      (is_pending "a@b.c" "pw" held_back)
      (token_in "full" "a@b.c" "pw" app empty_form (signup_entry "a@b.c" "pw" held_back))
      s
    × (s.form.submitting ≡ false)
submit_signup-SignsUp_example =
    submit_signup-SignsUp "full" "a@b.c" "pw" app empty_form held_back refl
