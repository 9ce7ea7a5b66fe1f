-- ===== src/Shell/Dashboard/Navigation/Shown.antt =====
-- What the dashboard shows, seen as the abstract state, and what the handlers make of it.
use tracium.Prelude.{
  ◌≡◌, refl, ap, ◌∙◌, inl, inr, Bool, true, false, List, [], ◌∷◌, map, Bool-cases,
}
use tracium.Extensions.{bytes_key}
use tracium.Shell.Routing.{ViewId, NavState, nothing, at_view}
use tracium.Shell.Dashboard.{Entry, Shell, World, Config, Operation, run, or_nav}
use tracium.Shell.Dashboard.Visits.{Visits, navigate, navigate_all}
use tracium.Shell.Dashboard.History.{mirror, sync_client, run_all, mirror_if, handle, act, step}

abbrev pub kept : Entry → NavState
kept entry = or_nav entry.state (at_view ViewId.overview nothing)

abbrev pub nav_of : Shell → NavState
nav_of shell = at_view shell.view shell.selected

-- The detailed state, seen as the abstract one
abbrev pub visits_of : World → Visits
visits_of world = record {
  back = map kept world.browser.behind;
  here = nav_of world.shell;
  forth = map kept world.browser.ahead;
}

navigate-run :
    (config : Config) (world : World) (op : Operation)
    → nav_of (run config world op).shell ≡ navigate (nav_of world.shell) op
unfolding run
navigate-run config world (Operation.set_view v) = refl
navigate-run config world (Operation.set_range r) = refl
navigate-run config world (Operation.set_selected f) = refl
navigate-run config world (Operation.select_workspace w) = refl
navigate-run config world Operation.go_create_workspace = refl
navigate-run config world Operation.cancel_create = refl
navigate-run config world Operation.open_cmd = refl
navigate-run config world Operation.close_cmd = refl
navigate-run config world Operation.open_nav = refl
navigate-run config world Operation.close_nav = refl

pub navigate_all-run_all :
    (config : Config) (world : World) (ops : List Operation)
    → nav_of (run_all config world ops).shell ≡ navigate_all (nav_of world.shell) ops
navigate_all-run_all config world [] = refl
navigate_all-run_all config world (op ∷ ops) =
    navigate_all-run_all config (run config world op) ops
    ∙ ap (λ nav. navigate_all nav ops) (navigate-run config world op)

-- The effects change no more of the shell than the flag of the history.
module _ {ℓ} {A : Type ℓ} (part : Shell → A)
    (same : (s : Shell) → part (record s { hist_init = true }) ≡ part s) where
  part-mirror :
      (config : Config) (world : World) → part (mirror config world).shell ≡ part world.shell
  unfolding mirror
  part-mirror config world = elim (Bool-cases config.persist) [
    | inl e ↦ rw e (same world.shell)
    | inr e ↦ rw e refl
  ]

  part-mirror_if :
      (changed : Bool) (config : Config) (world : World)
      → part (mirror_if changed config world).shell ≡ part world.shell
  part-mirror_if true config world = part-mirror config world
  part-mirror_if false config world = refl

shell-sync_client :
    (config : Config) (world : World) → (sync_client config world).shell ≡ world.shell
unfolding sync_client
shell-sync_client config world = elim (Bool-cases config.persist) [
  | inl e ↦ rw e refl
  | inr e ↦ rw e refl
]

pub part-step {ℓ} :
    {A : Type ℓ} (part : Shell → A)
    → ((s : Shell) → part (record s { hist_init = true }) ≡ part s)
    → (config : Config) (world : World) (ops : List Operation)
    → part (step config (act ops) world).shell ≡ part (run_all config world ops).shell
unfolding step handle
part-step part same config world ops =
    ap part (shell-sync_client config _) ∙ part-mirror_if part same _ config _

-- A handler shows what its operations lead to.
pub nav_of-step :
    (config : Config) (world : World) (ops : List Operation)
    → nav_of (step config (act ops) world).shell ≡ navigate_all (nav_of world.shell) ops
nav_of-step config world ops =
    part-step nav_of (λ s. refl) config world ops ∙ navigate_all-run_all config world ops
