-- ===== src/Session/Reload.antt =====
-- Loading the page again.
use tracium.Prelude.{◌≡◌, refl, ap, ◌∙◌, List, none, some, String, arith, text_key}
use tracium.Prelude.Maps.{get}
use tracium.Session.{
  token_key, invite_key, Access, Storage, get_item, read_initial_token, read_pending_invite, App,
  load, Reachable,
}
use tracium.Session.Stored.{app_of, IsStored-Reachable}

load_stored :
    (access : Access) (items : List (String × String)) (s : Storage)
    → access ≡ Access.open_access
    → load none (record { access = access; items = items }) s
      ≡ some (app_of (get token_key items) (get invite_key items) access items s)
unfolding load read_initial_token read_pending_invite get_item
load_stored Access.open_access items s e = refl
load_stored Access.full items s e = absurd (ground arith)
load_stored Access.blocked items s e = absurd (ground arith)

-- Whatever has happened, if the storage can be written, loading the page again at a path without an
-- invite gives the same state: the same session and the same pending invite.
pub reload-same :
    (a : App)
    → Reachable a
    → a.local_storage.access ≡ Access.open_access
    → load none a.local_storage a.session_storage ≡ some a
reload-same a r o =
    let h = IsStored-Reachable a r in
    load_stored a.local_storage.access a.local_storage.items a.session_storage o
    ∙ ap
        (λ t. some (
          app_of t (get invite_key a.local_storage.items) a.local_storage.access
            a.local_storage.items a.session_storage))
        h.token_kept
    ∙ ap
        (λ i.
          some (app_of a.token i a.local_storage.access a.local_storage.items a.session_storage))
        (h.invite_kept o)
