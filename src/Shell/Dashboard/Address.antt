-- ===== src/Shell/Dashboard/Address.antt =====
-- The address bar, the entries of the history and the API client follow the dashboard.
pub mod Placed
pub mod Moves
use tracium.Prelude.{
  ◌≡◌, refl, sym, ap, ◌∙◌, inl, inr, Bool, true, false, ◌||◌, not, List, [], ◌∷◌, Option, some,
  arith, ◌===◌, eq_of_same, Bool-cases, All, subst, if_true,
}
use tracium.Extensions.{bytes_key}
use tracium.Shell.Workspaces.{Workspace}
use tracium.Shell.Routing.{view_text, NavState, at_view, state_to_path}
use tracium.Shell.Routing.RoundTrip.{AreValid}
use tracium.Shell.Dashboard.{
  Entry, Browser, World, Config, Operation, initial_shell, compute_initial_nav,
}
use tracium.Shell.Dashboard.Settled.{IsPlain}
use tracium.Session.{view_key, workspace_key}
use tracium.Shell.Dashboard.Views.{IsView, compute_initial_nav-IsNav, eq_of_view_text}
use tracium.Shell.Dashboard.Handlers.{IsNamed, IsRun, run_all-IsRun, selected-run_all, store_lem}
use tracium.Shell.Dashboard.History.{
  own_path, own_entry, mirror, sync_client, workspace_of, id_of, run_all, selects, mirror_if,
  handle, opens_palette, target_of, popped, show_target, on_pop, go_back, go_forward, Event, act,
  step, steps, mount,
}
pub use Placed.{IsOwn, IsPlaced, IsScoped, IsNamedEvent}
pub use Moves.{on_pop-popped}
use Placed.{first-IsPlaced, sync_client-IsPlaced, sync_client-IsScoped, moved, own_current}
use Moves.{handle-IsPlaced, on_pop-IsPlaced, on_pop-IsScoped}

module _ (config : Config) (persists : config.persist ≡ true) where
  pub step-IsPlaced :
      (world : World) (e : Event)
      → IsNamedEvent e
      → IsPlaced config world
      → IsPlaced config (step config e world)
  unfolding step
  step-IsPlaced world (act ops) named h = handle-IsPlaced config persists world ops named h
  step-IsPlaced world Event.back _ h = backs world.browser.behind h.behind
    where
      backs : (l : List Entry) → All (IsOwn config) l → IsPlaced config (go_back config l world)
      backs [] _ = h
      backs (entry ∷ l) (own, owns) =
          on_pop-IsPlaced config persists _ own owns (own_current config persists world h, h.ahead)
            h.valid
  step-IsPlaced world Event.forward _ h = forwards world.browser.ahead h.ahead
    where
      forwards :
          (l : List Entry) → All (IsOwn config) l → IsPlaced config (go_forward config l world)
      forwards [] _ = h
      forwards (entry ∷ l) (own, owns) =
          on_pop-IsPlaced config persists _ own (own_current config persists world h, h.behind) owns
            h.valid
  step-IsPlaced world (Event.press e) _ h = elim (Bool-cases (opens_palette config e)) [
    | inl o ↦ rw o (handle-IsPlaced config persists world (Operation.open_cmd ∷ []) tt h)
    | inr o ↦ rw o h
  ]
  step-IsPlaced world (Event.fetched l) _ h =
      sync_client-IsPlaced config persists _
        (moved config persists world refl refl refl refl refl refl refl h)
  step-IsPlaced world (Event.created w) _ h =
      let (c, b, a) = store_lem config workspace_key w.id world.browser in
      sync_client-IsPlaced config persists _
        (moved config persists world b c a refl refl refl refl h)
  step-IsPlaced world (Event.deleted id) _ h =
      subst (λ w. IsPlaced config (sync_client config w)) (sym (if_true _ persists))
        (sync_client-IsPlaced config persists _
          (moved config persists world refl refl refl refl refl refl refl h))

  step-IsScoped :
      (world : World) (e : Event)
      → IsPlaced config world
      → IsScoped config world
      → IsScoped config (step config e world)
  unfolding step handle
  step-IsScoped world (act ops) p h = sync_client-IsScoped config persists _
  step-IsScoped world Event.back p h = backs world.browser.behind p.behind
    where
      backs : (l : List Entry) → All (IsOwn config) l → IsScoped config (go_back config l world)
      backs [] _ = h
      backs (entry ∷ l) (own, owns) = on_pop-IsScoped config persists _ own h
  step-IsScoped world Event.forward p h = forwards world.browser.ahead p.ahead
    where
      forwards :
          (l : List Entry) → All (IsOwn config) l → IsScoped config (go_forward config l world)
      forwards [] _ = h
      forwards (entry ∷ l) (own, owns) = on_pop-IsScoped config persists _ own h
  step-IsScoped world (Event.press e) p h = elim (Bool-cases (opens_palette config e)) [
    | inl o ↦ rw o (sync_client-IsScoped config persists _)
    | inr o ↦ rw o h
  ]
  step-IsScoped world (Event.fetched l) p h = sync_client-IsScoped config persists _
  step-IsScoped world (Event.created w) p h = sync_client-IsScoped config persists _
  step-IsScoped world (Event.deleted id) p h = sync_client-IsScoped config persists _

  pub steps-IsPlaced :
      (es : List Event) (world : World)
      → All IsNamedEvent es
      → IsPlaced config world
      → IsScoped config world
      → IsPlaced config (steps config world es) × IsScoped config (steps config world es)
  steps-IsPlaced [] world _ p h = (p, h)
  steps-IsPlaced (e ∷ es) world (named, rest) p h =
      steps-IsPlaced es (step config e world) rest (step-IsPlaced world e named p)
        (step-IsScoped world e p h)

  pub mount-IsPlaced :
      (browser : Browser) (cached : Option (List Workspace))
      → AreValid config.pages
      → browser.behind ≡ []
      → browser.ahead ≡ []
      → IsPlain (compute_initial_nav config browser).selected
      → IsPlaced config (mount config browser cached)
  unfolding mount initial_shell
  mount-IsPlaced browser cached valid b a plain = sync_client-IsPlaced config persists _ (
      first-IsPlaced config persists _ refl (compute_initial_nav-IsNav config browser valid) plain
        valid b a)

  -- From the mounting on in a tab that holds no other entry of the document, whatever handlers, moves
  -- through the history, key presses and answers follow: the address bar shows the path of the view
  -- and the selection, the current entry holds them, each other entry holds a state and is at its
  -- path, and the API client has the workspace that is shown. The ids of the pages have the right
  -- form, no handler sets the view to the empty text, and neither the initial view nor a handler
  -- selects a text that the browser takes for a dot segment of the path, as '.' and '..' are.
  pub steps-mount :
      (browser : Browser) (cached : Option (List Workspace)) (es : List Event)
      → AreValid config.pages
      → browser.behind ≡ []
      → browser.ahead ≡ []
      → IsPlain (compute_initial_nav config browser).selected
      → All IsNamedEvent es
      → let world = steps config (mount config browser cached) es in
        IsPlaced config world × IsScoped config world
  unfolding mount
  steps-mount browser cached es valid b a plain named =
      steps-IsPlaced es _ named (mount-IsPlaced browser cached valid b a plain)
        (sync_client-IsScoped config persists _)
