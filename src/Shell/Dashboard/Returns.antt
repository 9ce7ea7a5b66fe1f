-- ===== src/Shell/Dashboard/Returns.antt =====
-- Back leads back, and loading the page again shows the same.
use tracium.Prelude.{
  ℕ, zero, suc, ◌≤◌, ◌≡◌, refl, sym, ap, ◌∙◌, subst, true, List, [], Option, none, some, length,
  All,
}
use tracium.Extensions.{DashboardExtensions, or_none, validate_extensions}
use tracium.Extensions.Ids.{validate_extensions_iff}
use tracium.Shell.Workspaces.{Workspace}
use tracium.Shell.Routing.{state_to_path, path_to_state}
use tracium.Shell.Routing.Core.{IsSelection, shown}
use tracium.Shell.Routing.RoundTrip.{path_to_state-state_to_path, pages_valid, AreValid}
use tracium.Shell.Dashboard.{Browser, World, Config, compute_initial_nav}
use tracium.Shell.Dashboard.Settled.{IsPlain}
use tracium.Shell.Dashboard.Views.{compute_initial_nav-path}
use tracium.Shell.Dashboard.History.{Event, step, steps, mount}
use tracium.Shell.Dashboard.Address.{
  IsPlaced, IsNamedEvent, step-IsPlaced, steps-IsPlaced, steps-mount,
}
use tracium.Shell.Dashboard.Visits.{Visits, visit_back, back_times, stays, path_of, way_back}
use tracium.Shell.Dashboard.Navigation.{visits_of, step-visit_step, visits_of-steps}

-- Back, n times
abbrev pub backs : Config → ℕ → World → World
backs config zero world = world
backs config (suc n) world = step config Event.back (backs config n world)

module _ (config : Config) (persists : config.persist ≡ true) where
  backs-IsPlaced :
      (n : ℕ) (world : World) → IsPlaced config world → IsPlaced config (backs config n world)
  backs-IsPlaced zero world h = h
  backs-IsPlaced (suc n) world h =
      step-IsPlaced config persists (backs config n world) Event.back tt (backs-IsPlaced n world h)

  visits_of-backs :
      (n : ℕ) (world : World)
      → IsPlaced config world
      → visits_of (backs config n world) ≡ back_times n (visits_of world)
  visits_of-backs zero world h = refl
  visits_of-backs (suc n) world h =
      step-visit_step config persists (backs config n world) Event.back tt
        (backs-IsPlaced n world h)
      ∙ ap (λ (v : Visits). visit_back v.back v) (visits_of-backs n world h)

  -- From any state that events lead to from the mounting on, whatever handlers, key presses and
  -- answers follow: Back, pressed no more often than events came, brings the address back to what it
  -- was. The tab held no other entry of the document, the ids of the pages have the right form, no
  -- handler sets the view to the empty text, and neither the initial view nor a handler selects a
  -- text that the browser takes for a dot segment of the path, as '.' and '..' are.
  pub backs-steps :
      (browser : Browser) (cached : Option (List Workspace)) (before es : List Event)
      → AreValid config.pages
      → browser.behind ≡ []
      → browser.ahead ≡ []
      → IsPlain (compute_initial_nav config browser).selected
      → All IsNamedEvent before
      → All IsNamedEvent es
      → All (λ e. stays e ≡ true) es
      → let world = steps config (mount config browser cached) before in
        (n : ℕ) × (n ≤ length es)
        × ((backs config n (steps config world es)).browser.current.path
            ≡ world.browser.current.path)
  backs-steps browser cached before es valid b a plain named named' stay =
      let world = steps config (mount config browser cached) before in
      let (placed, scoped) =
        steps-mount config persists browser cached before valid b a plain named in
      let after = (steps-IsPlaced config persists es world named' placed scoped).0 in
      let (n, le, (way, _)) = way_back config.pages es (visits_of world) stay in
      (
        n,
        le,
        ap (λ x. x.path) (backs-IsPlaced n _ after).address
            ∙ ap (λ (v : Visits). path_of config.pages v.here)
                (visits_of-backs n _ after
                  ∙ ap (back_times n) (visits_of-steps config persists es world named' placed))
            ∙ way
            ∙ sym (ap (λ x. x.path) placed.address),
      )

-- After any events from the mounting on, loading the page again at the address that is shown opens
-- the view and the selection as far as the path tells them, whatever the storage and the history hold
-- by then. `validateExtensions` accepts the extensions, the selected texts are well formed, the tab
-- held no other entry of the document, no handler sets the view to the empty text, and neither the
-- initial view nor a handler selects a text that the browser takes for a dot segment of the path, as
-- '.' and '..' are.
pub compute_initial_nav-steps :
    (config : Config) (extensions : DashboardExtensions)
    → config.persist ≡ true
    → validate_extensions extensions ≡ none
    → config.pages ≡ or_none extensions.pages
    → (browser : Browser) (cached : Option (List Workspace)) (es : List Event) → browser.behind ≡ []
    → browser.ahead ≡ []
    → IsPlain (compute_initial_nav config browser).selected
    → All IsNamedEvent es
    → (reloaded : Browser)
    → let world = steps config (mount config browser cached) es in
      reloaded.current.path ≡ world.browser.current.path
      → IsSelection world.shell.selected
      → compute_initial_nav config reloaded
        ≡ shown world.shell.view world.shell.selected config.pages
compute_initial_nav-steps config extensions persists accepted same browser cached es b a plain named
      reloaded path texts =
    let world = steps config (mount config browser cached) es in
    let shell = world.shell in
    let valid = subst AreValid (sym same) (
      pages_valid (or_none extensions.pages)
        ((validate_extensions_iff extensions).0 accepted).0.0) in
    let (placed, _) = steps-mount config persists browser cached es valid b a plain named in
    let parsed : path_to_state reloaded.current.path config.pages
        ≡ some (shown shell.view shell.selected config.pages) =
      ap (λ p. path_to_state p config.pages) (path ∙ ap (λ x. x.path) placed.address)
      ∙ subst
          (λ pages.
            path_to_state (state_to_path shell.view shell.selected pages) pages
            ≡ some (shown shell.view shell.selected pages))
          (sym same)
          (path_to_state-state_to_path extensions shell.view shell.selected accepted texts) in
    compute_initial_nav-path config reloaded _ persists parsed
