-- ===== src/Invites/Tests.antt =====
-- Paths of invites, and their theorems at concrete inputs.
use tracium.Prelude.{◌≡◌, refl, true, false, ◌&&◌, not, [], ◌++◌, none, some, ◌>>=◌}
use tracium.Uri.{bytes, encode, decode, unescape, hex_value, is_utf8_from, behind_first}
use tracium.Session.{App, Access, handle_invite_accepted}
use tracium.Auth.{ok}
use tracium.Invites.{invite_token_from_path, segment_of, open_page, accept}
use tracium.Invites.Link.{invite_token_from_path-encode}
use tracium.Invites.Accept.{Accepts, workspace_in, accept-Accepts}

plain : invite_token_from_path (bytes "/invite/trci_abc/") ≡ some (bytes "trci_abc")
unfolding invite_token_from_path segment_of decode unescape hex_value is_utf8_from behind_first
plain = refl

bare : invite_token_from_path (bytes "/invite/") ≡ none
unfolding invite_token_from_path segment_of
bare = refl

longer : invite_token_from_path (bytes "/invite/a/b") ≡ none
unfolding invite_token_from_path segment_of
longer = refl

invite_token_from_path-encode_example :
    (invite_token_from_path (bytes "/invite/" ++ encode (bytes "a/b")) ≡ some (bytes "a/b"))
    × (invite_token_from_path (bytes "/invite/" ++ (encode (bytes "a/b") ++ bytes "/"))
        ≡ some (bytes "a/b"))
    × (invite_token_from_path (bytes "/invite/" ++ (encode (bytes "a/b") ++ bytes "/x")) ≡ none)
unfolding is_utf8_from behind_first
invite_token_from_path-encode_example = invite_token_from_path-encode (bytes "a/b") [] 120 refl refl

abbrev app : App
app = record {
  token = some "t";
  invite_token = some "trci_abc";
  local_storage = record { access = Access.open_access; items = [] };
  session_storage = record { access = Access.open_access; items = [] };
}

accept-Accepts_example :
    let r = accept "full" true (ok "w1") (open_page (bytes "trci_abc")) app in
    ((true && not (open_page (bytes "trci_abc")).accepting) ≡ true
      → Accepts app (workspace_in (ok "w1") >>= (λ w. handle_invite_accepted w app)) r
        × (r.page.accepting ≡ false))
    × ((true && not (open_page (bytes "trci_abc")).accepting) ≡ false
        → (r.page ≡ open_page (bytes "trci_abc")) × (r.app ≡ app))
accept-Accepts_example = accept-Accepts "full" (open_page (bytes "trci_abc")) app true (ok "w1")
