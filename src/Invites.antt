-- ===== src/Invites.antt =====
-- Invites: the token in the path, dashboard/src/modules/invites/pending.ts and `inviteLink` of dashboard/
-- src/common/api/workspaces.ts, and the invite page, dashboard/src/modules/invites/pages/InvitePage.tsx.
-- The answers of the server and the host's messages are arguments.
pub mod Link
pub mod Accept
mod Tests
use tracium.Prelude.{
  ℕ, ◌+◌, Bool, true, false, ◌&&◌, ◌||◌, not, List, [], ◌∷◌, ◌++◌, Option, none, some, String,
  if◌then◌else◌, ◌===◌, number_key, text_key,
}
use tracium.Uri.{Text, bytes, encode, decode}
use tracium.Extensions.{starts_with, slice_from, bytes_same}
use tracium.Texts.{is_empty}
use tracium.Session.{App, handle_invite_accepted}
use tracium.Auth.{
  RequestFailure, auth_error, api_error, other_error, Result, ok, fail, request_error_message,
}

-- `inviteLink`
unfoldable pub invite_link : Text → Text → Text
invite_link token origin = origin ++ (bytes "/invite/" ++ encode token)

-- The bytes before the first slash, and those from it on
abbrev pub cons_first : ℕ → Text × Text → Text × Text
cons_first c (segment, rest) = (c ∷ segment, rest)

unfoldable pub segment_of : Text → Text × Text
segment_of [] = ([], [])
segment_of (c ∷ t) = if c === 47 then ([], c ∷ t) else cons_first c (segment_of t)

-- `\/?$`
abbrev pub ends_there : Text → Bool
ends_there [] = true
ends_there (c ∷ []) = c === 47
ends_there (c ∷ d ∷ t) = false

abbrev pub token_of : Text × Text → Option Text
token_of (segment, rest) =
    if not (is_empty segment) && ends_there rest then decode segment else none

-- `inviteTokenFromPath`: /^\/invite\/([^/]+)\/?$/, and the segment decoded
unfoldable pub invite_token_from_path : Text → Option Text
invite_token_from_path pathname =
    if starts_with (bytes "/invite/") pathname
    then token_of (segment_of (slice_from 8 pathname))
    else none

abbrev pub invalid : String
invalid = "This invite link isn’t valid. Ask the workspace owner for a new one."

abbrev pub expired : String
expired = "This invite has expired or was already used. Ask the workspace owner for a new one."

-- `loadError`
unfoldable pub load_error : RequestFailure → String
load_error err =
    request_error_message err
      ((404, invalid)
        ∷ (410, expired)
        ∷ (429, "Too many attempts. Wait a minute and try again.")
        ∷ [])
      (some "We couldn’t load this invite. Try again in a moment.")

pub record InvitePreview : Type 0 where
  pub workspace_name : Text
  pub invited_by_email : Text
  pub email : Text
  pub expires_at : Text

pub data Load : Type 0 where
  loading : Load
  ready : InvitePreview → Load
  load_failed : String → Load

-- The state of the page; `current` numbers the runs of the effect that loads the invite.
pub record Page : Type 0 where
  pub token : Text
  pub current : ℕ
  pub load : Load
  pub accepting : Bool
  pub accept_error : Option String

unfoldable pub open_page : Text → Page
open_page token = record {
  token = token;
  current = 0;
  load = loading;
  accepting = false;
  accept_error = none;
}

abbrev pub loaded : Result InvitePreview → Load
loaded (ok invite) = ready invite
loaded (fail err) = load_failed (load_error err)

-- Another token runs the effect again, and cancels the run before.
unfoldable pub change_token : Text → Page → Page
change_token token page = record page { token = token; current = page.current + 1; load = loading }

-- The answer to the preview that a run asked for
unfoldable pub previewed : ℕ → Result InvitePreview → Page → Page
previewed run answer page =
    if run === page.current then record page { load = loaded answer } else page

abbrev pub code_of : RequestFailure → Option String
code_of (api_error message status code) = some code
code_of err = none

abbrev pub is_code : Option String → String → Bool
is_code none code = false
is_code (some c) code = c === code

-- What the `catch` of `accept` shows
unfoldable pub accept_message : RequestFailure → String
accept_message err =
    if is_code (code_of err) "MEMBER_LIMIT_REACHED"
    then "This workspace has reached its member limit. Ask the workspace owner to make room for you."
    else if is_code (code_of err) "FEATURE_UNAVAILABLE"
    then "This workspace can’t add members right now. Ask the workspace owner for help."
    else request_error_message err
        ((
          403,
          "This invite was sent to a different email address. Sign in with that address to accept it.",
        )
          ∷ (404, invalid)
          ∷ (410, expired)
          ∷ [])
        (some "We couldn’t accept this invite. Try again in a moment.")

-- The page and the application, after an acceptance that the server has answered
pub record Acceptance : Type 0 where
  pub page : Page
  pub app : App

abbrev pub accept_failed : RequestFailure → Page → App → Acceptance
accept_failed err page app = record {
  page = record page { accepting = false; accept_error = some (accept_message err) };
  app = app;
}

-- `onAccepted` throws if the storage does.
abbrev pub entered : String → Page → App → Option App → Acceptance
entered storage_error page app none = accept_failed (other_error storage_error) page app
entered storage_error page app (some after) = record {
  page = record page { accepting = false };
  app = after;
}

abbrev pub accepted : String → Result String → Page → App → Acceptance
accepted storage_error (fail err) page app = accept_failed err page app
accepted storage_error (ok workspace_id) page app =
    entered storage_error page app (handle_invite_accepted workspace_id app)

-- `accept`, from the click to the answer, with or without a session
unfoldable pub accept : String → Bool → Result String → Page → App → Acceptance
accept storage_error has_session answer page app =
    if not has_session || page.accepting
    then record { page = page; app = app }
    else accepted storage_error answer (record page { accepting = true; accept_error = none }) app

-- `wrongAccount`, given the host's `toLowerCase`
unfoldable pub is_wrong_account : (Text → Text) → Option Text → InvitePreview → Bool
is_wrong_account lower none invite = false
is_wrong_account lower (some email) invite = not (bytes_same (lower email) (lower invite.email))
