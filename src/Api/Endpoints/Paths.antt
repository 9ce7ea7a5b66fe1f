-- ===== src/Api/Endpoints/Paths.antt =====
-- A path that deletes tells what it deletes.
use mathlib.Core.List.{append-nil}
use tracium.Prelude.{◌≡◌, refl, sym, ap, ◌∙◌, List, [], ◌∷◌, ◌++◌, map, some, arith, All}
use tracium.Uri.{Text, bytes, encode, encode_byte, is_plain, is_utf8_from, behind_first}
use tracium.Shell.Routing.{segments}
use tracium.Shell.Routing.Segments.{join_path, IsPart, segments-join_path}
use tracium.Api.Endpoints.{DeleteCall, delete_path, workspace_path}

-- The texts that a path is made of
abbrev delete_parts : DeleteCall → List Text
delete_parts (DeleteCall.remove_workspace id) = bytes "workspaces" ∷ id ∷ []
delete_parts (DeleteCall.remove_member workspace_id id) =
    bytes "workspaces" ∷ workspace_id ∷ bytes "members" ∷ id ∷ []
delete_parts (DeleteCall.revoke_invite workspace_id id) =
    bytes "workspaces" ∷ workspace_id ∷ bytes "invites" ∷ id ∷ []
delete_parts (DeleteCall.revoke_key workspace_id id) =
    bytes "workspaces" ∷ workspace_id ∷ bytes "api-keys" ∷ id ∷ []

-- Ids that are well formed and not empty
abbrev pub AreParts : DeleteCall → Type 0
AreParts (DeleteCall.remove_workspace id) = IsPart id
AreParts (DeleteCall.remove_member workspace_id id) = IsPart workspace_id × IsPart id
AreParts (DeleteCall.revoke_invite workspace_id id) = IsPart workspace_id × IsPart id
AreParts (DeleteCall.revoke_key workspace_id id) = IsPart workspace_id × IsPart id

delete_path-join_path :
    (call : DeleteCall) → delete_path call ≡ join_path (map encode (delete_parts call))
unfolding delete_path encode encode_byte is_plain
delete_path-join_path (DeleteCall.remove_workspace id) = refl
delete_path-join_path (DeleteCall.remove_member workspace_id id) =
    ap (λ e. workspace_path workspace_id (bytes "/members/" ++ e)) (sym (append-nil (encode id)))
delete_path-join_path (DeleteCall.revoke_invite workspace_id id) =
    ap (λ e. workspace_path workspace_id (bytes "/invites/" ++ e)) (sym (append-nil (encode id)))
delete_path-join_path (DeleteCall.revoke_key workspace_id id) =
    ap (λ e. workspace_path workspace_id (bytes "/api-keys/" ++ e)) (sym (append-nil (encode id)))

All-delete_parts : (call : DeleteCall) → AreParts call → All IsPart (delete_parts call)
unfolding is_utf8_from behind_first
All-delete_parts (DeleteCall.remove_workspace id) p = ((refl, refl), (p, tt))
All-delete_parts (DeleteCall.remove_member workspace_id id) (p, q) =
    ((refl, refl), (p, ((refl, refl), (q, tt))))
All-delete_parts (DeleteCall.revoke_invite workspace_id id) (p, q) =
    ((refl, refl), (p, ((refl, refl), (q, tt))))
All-delete_parts (DeleteCall.revoke_key workspace_id id) (p, q) =
    ((refl, refl), (p, ((refl, refl), (q, tt))))

parts-inj : (x y : DeleteCall) → delete_parts x ≡ delete_parts y → x ≡ y
parts-inj x y e = ground (arith, e)

-- No two different deletions share a path, whichever of the four they are, if their ids are well
-- formed and not empty.
pub delete_path-injective :
    (x y : DeleteCall) → AreParts x → AreParts y → delete_path x ≡ delete_path y → x ≡ y
delete_path-injective x y p q e = parts-inj x y (
    some-parts (
      sym (segments-join_path (delete_parts x) (All-delete_parts x p))
      ∙ ap segments (sym (delete_path-join_path x) ∙ e ∙ delete_path-join_path y)
      ∙ segments-join_path (delete_parts y) (All-delete_parts y q)))
  where
    some-parts : {k l : List Text} → some k ≡ some l → k ≡ l
    some-parts h = ground (arith, h)
