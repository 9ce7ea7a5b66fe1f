-- ===== src/Shell/Dashboard/Navigation.antt =====
-- The dashboard of dashboard/src/modules/shell/Dashboard/Dashboard.tsx does what the abstract one
-- does.
pub mod Shown
use tracium.Prelude.{
  ◌≡◌, refl, sym, ap, ◌∙◌, inl, inr, Bool, true, false, ◌||◌, not, List, [], ◌∷◌, map, Option,
  arith, if◌then◌else◌, ◌===◌, eq_of_same, Bool-cases, All, if_true,
}
use tracium.Extensions.{bytes_key}
use tracium.Shell.Workspaces.{Workspace}
use tracium.Shell.Routing.{ViewId, view_text, NavState, nothing, at_view, state_to_path}
use tracium.Session.{view_key, workspace_key}
use tracium.Shell.Routing.RoundTrip.{AreValid}
use tracium.Shell.Dashboard.{
  Entry, Browser, Shell, World, Config, Operation, compute_initial_nav, initial_shell, run, or_nav,
}
use tracium.Shell.Dashboard.Settled.{IsPlain}
use tracium.Shell.Dashboard.Views.{eq_of_view_text}
use tracium.Shell.Dashboard.Handlers.{IsNamed, IsRun, run_all-IsRun, selected-run_all, store_lem}
use tracium.Shell.Dashboard.Visits.{
  Visits, visit, visit_back, visit_forth, navigate, navigate_all, visit_step, visit_steps,
}
use tracium.Shell.Dashboard.History.{
  own_path, own_entry, mirror, sync_client, run_all, selects, mirror_if, handle, popped, on_pop,
  go_back, go_forward, Event, act, step, steps, mount, opens_palette,
}
use tracium.Shell.Dashboard.Address.{
  IsOwn, IsPlaced, IsNamedEvent, on_pop-popped, step-IsPlaced, mount-IsPlaced,
}
pub use Shown.{kept, nav_of, visits_of, navigate_all-run_all, part-step, nav_of-step}

module _ (config : Config) (persists : config.persist ≡ true) where
  visits_of-sync_client : (world : World) → visits_of (sync_client config world) ≡ visits_of world
  unfolding sync_client
  visits_of-sync_client world = rw persists refl

  -- What the mirror makes of a new state
  visits_of-mirror :
      (world : World)
      → world.shell.hist_init ≡ true
      → visits_of (mirror config world) ≡ (
          if own_path config world.shell === world.browser.current.path
          then visits_of world
          else record {
            back = kept world.browser.current ∷ map kept world.browser.behind;
            here = nav_of world.shell;
            forth = [];
          })
  unfolding mirror
  visits_of-mirror world inited = rw persists (
      rw inited (elim (Bool-cases (own_path config world.shell === world.browser.current.path)) [
        | inl e ↦ rw e refl
        | inr e ↦ rw e refl
      ]))

  mirror_if-visit :
      (world after : World) (changed : Bool)
      → IsPlaced config world
      → IsRun world after
      → (changed ≡ false → nav_of after.shell ≡ nav_of world.shell)
      → visits_of (mirror_if changed config after)
        ≡ visit config.pages (nav_of after.shell) (visits_of world)
  mirror_if-visit world after true h r same =
      let at : after.browser.current ≡ own_entry config world.shell = r.current ∙ h.address in
      visits_of-mirror after (r.inited ∙ h.inited) ∙ λ i.
      if own_path config after.shell === (at i).path
      then record {
        back = map kept (r.behind i);
        here = nav_of after.shell;
        forth = map kept (r.ahead i);
      }
      else record {
        back = kept (at i) ∷ map kept (r.behind i);
        here = nav_of after.shell;
        forth = [];
      }
  mirror_if-visit world after false h r same =
      let e : own_path config after.shell ≡ own_path config world.shell =
        ap (λ nav. state_to_path nav.view nav.selected config.pages) (same refl) in
      (λ i. record {
        back = map kept (r.behind i);
        here = nav_of after.shell;
        forth = map kept (r.ahead i);
      })
      ∙ sym (
          if_true _
            ((bytes_key.same_iff (own_path config after.shell) (own_path config world.shell)).1 e))

  handle-visit :
      (world : World) (ops : List Operation)
      → IsNamed ops
      → IsPlaced config world
      → visits_of (handle config ops world)
        ≡ visit config.pages (navigate_all (nav_of world.shell) ops) (visits_of world)
  unfolding handle
  handle-visit world ops named h =
      let after = run_all config world ops in
      let r = run_all-IsRun config world ops h.known h.plain named in
      let viewed = view_text after.shell.view === view_text world.shell.view in
      visits_of-sync_client (mirror_if (selects ops || not viewed) config after)
      ∙ mirror_if-visit world after (selects ops || not viewed) h r (λ e.
        let v : after.shell.view ≡ world.shell.view = eq_of_view_text r.known h.known (
          eq_of_same (view_text after.shell.view) (view_text world.shell.view)
            (ground (arith, e))) in
        let s = selected-run_all config world ops (ground (arith, e)) in λ i. at_view (v i) (s i))
      ∙ ap (λ nav. visit config.pages nav (visits_of world)) (navigate_all-run_all config world ops)

  -- At an entry of its own the dashboard takes its place there.
  visits_of-on_pop :
      (world : World)
      → world.shell.hist_init ≡ true
      → IsOwn config world.browser.current
      → visits_of (on_pop config world) ≡ record {
        back = map kept world.browser.behind;
        here = kept world.browser.current;
        forth = map kept world.browser.ahead;
      }
  visits_of-on_pop world inited (nav, e, known, plain) =
      let (c, b, a) = store_lem config view_key (view_text nav.view) world.browser in
      let path = ap (λ x. x.path) (c ∙ e) in
      ap visits_of (on_pop-popped config persists world nav (ap (λ x. x.state) e) known)
      ∙ visits_of-mirror (popped config nav world) inited
      ∙ if_true _ (
          (bytes_key.same_iff (own_path config (popped config nav world).shell)
              (popped config nav world).browser.current.path).1
            (sym path))
      ∙ λ i. record { back = map kept (b i); here = kept (sym e i); forth = map kept (a i) }

  pub step-visit_step :
      (world : World) (e : Event)
      → IsNamedEvent e
      → IsPlaced config world
      → visits_of (step config e world) ≡ visit_step config.pages e (visits_of world)
  unfolding step
  step-visit_step world (act ops) named h = handle-visit world ops named h
  step-visit_step world Event.back _ h = backs world.browser.behind h.behind
    where
      backs :
          (l : List Entry)
          → All (IsOwn config) l
          → visits_of (go_back config l world) ≡ visit_back (map kept l) (visits_of world)
      backs [] _ = refl
      backs (entry ∷ l) (own, owns) = visits_of-on_pop _ h.inited own ∙ λ i. record {
        back = map kept l;
        here = kept entry;
        forth = kept (h.address i) ∷ map kept world.browser.ahead;
      }
  step-visit_step world Event.forward _ h = forwards world.browser.ahead h.ahead
    where
      forwards :
          (l : List Entry)
          → All (IsOwn config) l
          → visits_of (go_forward config l world) ≡ visit_forth (map kept l) (visits_of world)
      forwards [] _ = refl
      forwards (entry ∷ l) (own, owns) = visits_of-on_pop _ h.inited own ∙ λ i. record {
        back = kept (h.address i) ∷ map kept world.browser.behind;
        here = kept entry;
        forth = map kept l;
      }
  step-visit_step world (Event.press e) _ h = elim (Bool-cases (opens_palette config e)) [
    | inl o ↦ rw o (
        handle-visit world (Operation.open_cmd ∷ []) tt h
        ∙ if_true _ (
            (bytes_key.same_iff (own_path config world.shell) (own_path config world.shell)).1
              refl))
    | inr o ↦ rw o refl
  ]
  step-visit_step world (Event.fetched l) _ h = visits_of-sync_client _
  step-visit_step world (Event.created w) _ h =
      let (c, b, a) = store_lem config workspace_key w.id world.browser in
      visits_of-sync_client _ ∙ λ i. record {
        back = map kept (b i);
        here = nav_of world.shell;
        forth = map kept (a i);
      }
  step-visit_step world (Event.deleted id) _ h =
      ap (λ w. visits_of (sync_client config w)) (if_true _ persists) ∙ visits_of-sync_client _

  pub visits_of-steps :
      (es : List Event) (world : World)
      → All IsNamedEvent es
      → IsPlaced config world
      → visits_of (steps config world es) ≡ visit_steps config.pages (visits_of world) es
  visits_of-steps [] world _ h = refl
  visits_of-steps (e ∷ es) world (named, rest) h =
      visits_of-steps es (step config e world) rest (step-IsPlaced config persists world e named h)
      ∙ ap (λ v. visit_steps config.pages v es) (step-visit_step world e named h)

  visits_of_first :
      (world : World)
      → world.shell.hist_init ≡ false
      → visits_of (mirror config world) ≡ visits_of world
  unfolding mirror
  visits_of_first world i = rw persists (rw i refl)

  visits_of-mount :
      (browser : Browser) (cached : Option (List Workspace))
      → browser.behind ≡ []
      → browser.ahead ≡ []
      → visits_of (mount config browser cached)
        ≡ record { back = []; here = compute_initial_nav config browser; forth = [] }
  unfolding mount initial_shell
  visits_of-mount browser cached b a = visits_of-sync_client _ ∙ visits_of_first _ refl ∙ λ i.
      record {
        back = map kept (b i);
        here = compute_initial_nav config browser;
        forth = map kept (a i);
      }

  -- From the mounting on in a tab that holds no other entry of the document, the view, the selection
  -- and the history of the dashboard are, after any events, those of the abstract one that starts
  -- with the initial view alone: a handler that leads to another path makes a new visit and drops
  -- those ahead, one that does not takes the place of the current visit, Back and Forward go to the
  -- visits next to it and change none of them, and nothing else moves. The ids of the pages have the
  -- right form, no handler sets the view to the empty text, and neither the initial view nor a
  -- handler selects a text that the browser takes for a dot segment of the path, as '.' and '..' are.
  pub mount-visit_steps :
      (browser : Browser) (cached : Option (List Workspace)) (es : List Event)
      → AreValid config.pages
      → browser.behind ≡ []
      → browser.ahead ≡ []
      → IsPlain (compute_initial_nav config browser).selected
      → All IsNamedEvent es
      → visits_of (steps config (mount config browser cached) es)
        ≡ visit_steps config.pages
            (record { back = []; here = compute_initial_nav config browser; forth = [] })
            es
  mount-visit_steps browser cached es valid b a plain named =
      visits_of-steps es _ named (mount-IsPlaced config persists browser cached valid b a plain)
      ∙ ap (λ v. visit_steps config.pages v es) (visits_of-mount browser cached b a)
