-- ===== src/Shell/Dashboard/Scope.antt =====
-- The workspace that the dashboard and its API client are in, after one was made or deleted.
use tracium.Prelude.{
  ◌≡◌, ◌≢◌, sym, ap, ◌∙◌, true, false, List, Option, some, arith, any, if_true, inl, inr,
  Option-cases, some_inj, text_key, same_refl,
}
use tracium.Prelude.Maps.{get, get-set}
use tracium.Uri.{Text}
use tracium.Session.{workspace_key}
use tracium.Shell.Workspaces.{Workspace, or_empty, is_id, on_deleted, choose}
use tracium.Shell.Workspaces.Choice.{choose-on_created, choose-on_deleted}
use tracium.Shell.Dashboard.{Browser, World, Config}
use tracium.Shell.Dashboard.History.{
  sync_client, workspace_of, workspaces_of, id_of, run_created, run_deleted, Event, step,
}

module _ (config : Config) (persists : config.persist ≡ true) where
  workspaces_of-cached : (world : World) → workspaces_of config world ≡ or_empty world.cached
  workspaces_of-cached world = if_true _ persists

  synced :
      (world : World)
      → sync_client config world
        ≡ record world { client_workspace = id_of (workspace_of config world) }
  unfolding sync_client
  synced world = if_true _ persists

  synced-workspace :
      (world : World) → workspace_of config (sync_client config world) ≡ workspace_of config world
  synced-workspace world = ap (workspace_of config) (synced world)

  id_of-choose :
      (selected_id : Option Text) (id : Text) (cached : Option (List Workspace))
      → id_of (choose selected_id (or_empty (on_deleted id cached))) ≢ some id
  id_of-choose selected_id id cached e =
      elim (Option-cases (choose selected_id (or_empty (on_deleted id cached)))) [
        | inl none_left ↦ absurd (ground (arith, e, ap id_of none_left))
        | inr (w, chosen) ↦
            choose-on_deleted selected_id id cached w chosen (some_inj (sym (ap id_of chosen) ∙ e))
      ]

  not_deleted :
      (world : World) (id : Text)
      → id_of (workspace_of config (record world { cached = on_deleted id world.cached })) ≢ some id
  not_deleted world id e =
      let after = record world { cached = on_deleted id world.cached } in
      id_of-choose world.shell.selected_workspace_id id world.cached (
        sym (
          ap (λ l. id_of (choose world.shell.selected_workspace_id l)) (workspaces_of-cached after))
        ∙ e)

  -- Once the server has made a workspace with an id that none of the listed has, the dashboard is in
  -- it, the API client is in it, and the next visit starts in it. Once it has deleted one, neither the
  -- dashboard nor the API client is in it, whichever was chosen before.
  pub step-workspace :
      (world : World) (ws : Workspace) (id : Text)
      → any (is_id (some ws.id)) (or_empty world.cached) ≡ false
      → let made = step config (Event.created ws) world in
        let left = step config (Event.deleted id) world in
        (workspace_of config made ≡ some ws)
        × (made.client_workspace ≡ some ws.id)
        × (get workspace_key made.browser.local_storage ≡ some ws.id)
        × (id_of (workspace_of config left) ≢ some id)
        × (left.client_workspace ≢ some id)
  unfolding step
  step-workspace world ws id new =
      let w = run_created config ws world in
      let d = run_deleted config id world in
      let chosen : workspace_of config w ≡ some ws =
        ap (choose (some ws.id)) (workspaces_of-cached w) ∙ choose-on_created ws world.cached new in
      let gone : id_of (workspace_of config d) ≢ some id = λ e.
        not_deleted world id
          (sym (ap (λ x. id_of (workspace_of config x)) (if_true _ persists)) ∙ e) in
      (
        synced-workspace w ∙ chosen,
        ap (λ x. x.client_workspace) (synced w) ∙ ap id_of chosen,
        ap (λ x. get workspace_key x.browser.local_storage) (synced w)
            ∙ ap (λ (b : Browser). get workspace_key b.local_storage) (if_true _ persists)
            ∙ get-set workspace_key workspace_key ws.id world.browser.local_storage
            ∙ if_true (get workspace_key world.browser.local_storage) (same_refl workspace_key),
        λ e. gone (sym (ap id_of (synced-workspace d)) ∙ e),
        λ e. gone (sym (ap (λ x. x.client_workspace) (synced d)) ∙ e),
      )
