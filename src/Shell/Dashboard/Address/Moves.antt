-- ===== src/Shell/Dashboard/Address/Moves.antt =====
-- What a handler and a move through the history leave of the address, the history and the client.
use tracium.Prelude.{
  ◌≡◌, refl, sym, ap, ◌∙◌, Bool, true, false, ◌||◌, not, List, some, arith, ◌===◌, eq_of_same, All,
  subst, if_true,
}
use tracium.Extensions.{bytes_key}
use tracium.Shell.Routing.{view_text, NavState}
use tracium.Shell.Dashboard.{World, Config, Operation}
use tracium.Session.{view_key}
use tracium.Shell.Dashboard.Views.{IsView, eq_of_view_text}
use tracium.Shell.Routing.RoundTrip.{AreValid}
use tracium.Shell.Dashboard.Handlers.{IsNamed, IsRun, run_all-IsRun, selected-run_all, store_lem}
use tracium.Shell.Dashboard.History.{
  own_entry, mirror, run_all, selects, mirror_if, handle, target_of, popped, show_target, on_pop,
}
use tracium.Shell.Dashboard.Address.Placed.{
  IsOwn, IsPlaced, IsScoped, mirror-IsPlaced, mirror_over-IsPlaced, sync_client-IsPlaced,
  own_current,
}

module _ (config : Config) (persists : config.persist ≡ true) where
  mirror_if-IsPlaced :
      (world after : World) (changed : Bool)
      → IsPlaced config world
      → IsRun world after
      → (changed ≡ false → own_entry config after.shell ≡ own_entry config world.shell)
      → IsPlaced config (mirror_if changed config after)
  mirror_if-IsPlaced world after true h r same =
      mirror-IsPlaced config persists after (r.inited ∙ h.inited) r.known r.plain h.valid
        (subst (IsOwn config) (sym r.current) (own_current config persists world h))
        (subst (All (IsOwn config)) (sym r.behind) h.behind)
        (subst (All (IsOwn config)) (sym r.ahead) h.ahead)
  mirror_if-IsPlaced world after false h r same = record {
    address = r.current ∙ h.address ∙ sym (same refl);
    known = r.known;
    plain = r.plain;
    valid = h.valid;
    behind = subst (All (IsOwn config)) (sym r.behind) h.behind;
    ahead = subst (All (IsOwn config)) (sym r.ahead) h.ahead;
    inited = r.inited ∙ h.inited;
  }

  pub handle-IsPlaced :
      (world : World) (ops : List Operation)
      → IsNamed ops
      → IsPlaced config world
      → IsPlaced config (handle config ops world)
  unfolding handle
  handle-IsPlaced world ops named h =
      let after = run_all config world ops in
      let r = run_all-IsRun config world ops h.known h.plain named in
      let viewed = view_text after.shell.view === view_text world.shell.view in
      sync_client-IsPlaced config persists (mirror_if (selects ops || not viewed) config after) (
        mirror_if-IsPlaced world after (selects ops || not viewed) h r (λ e.
          let v : after.shell.view ≡ world.shell.view = eq_of_view_text r.known h.known (
            eq_of_same (view_text after.shell.view) (view_text world.shell.view)
              (ground (arith, e))) in
          let s = selected-run_all config world ops (ground (arith, e)) in rw v (rw s refl)))

  -- At an entry of its own the dashboard shows the state that it left there.
  pub on_pop-popped :
      (world : World) (nav : NavState)
      → world.browser.current.state ≡ some nav
      → IsView nav.view
      → on_pop config world ≡ mirror config (popped config nav world)
  unfolding on_pop
  on_pop-popped world nav e known =
      let path = world.browser.current.path in
      if_true _ persists
      ∙ ap (λ s. show_target config (target_of s path config.pages) world) e
      ∙ ap (λ t. show_target config t world) (if_true _ known.0)

  pub on_pop-IsPlaced :
      (world : World)
      → IsOwn config world.browser.current
      → All (IsOwn config) world.browser.behind
      → All (IsOwn config) world.browser.ahead
      → AreValid config.pages
      → IsPlaced config (on_pop config world)
  on_pop-IsPlaced world (nav, e, known, plain) behind ahead valid =
      let (c, b, a) = store_lem config view_key (view_text nav.view) world.browser in
      subst (IsPlaced config) (sym (on_pop-popped world nav (ap (λ x. x.state) e) known)) (
        mirror_over-IsPlaced config persists (popped config nav world)
          (sym (ap (λ x. x.path) (c ∙ e))) known plain valid
          (subst (All (IsOwn config)) (sym b) behind) (subst (All (IsOwn config)) (sym a) ahead))

  mirror-IsScoped : (world : World) → IsScoped config world → IsScoped config (mirror config world)
  unfolding mirror
  mirror-IsScoped world h = subst (IsScoped config) (sym (if_true world persists)) h

  pub on_pop-IsScoped :
      (world : World)
      → IsOwn config world.browser.current
      → IsScoped config world
      → IsScoped config (on_pop config world)
  on_pop-IsScoped world (nav, e, known, plain) h =
      subst (IsScoped config) (sym (on_pop-popped world nav (ap (λ x. x.state) e) known))
        (mirror-IsScoped (popped config nav world) h)
