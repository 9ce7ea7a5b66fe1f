-- ===== src/Shell/Dashboard/Address/Placed.antt =====
-- The entries of the history at the places of the dashboard, and what its effects leave of them.
use tracium.Prelude.{
  ◌≡◌, refl, sym, ap, ◌∙◌, inl, inr, true, false, [], some, ◌===◌, Bool-cases, All, subst,
}
use tracium.Extensions.{bytes_key}
use tracium.Shell.Routing.{NavState, at_view, state_to_path}
use tracium.Shell.Dashboard.{Entry, World, Config}
use tracium.Shell.Dashboard.Views.{IsView}
use tracium.Shell.Routing.RoundTrip.{AreValid}
use tracium.Shell.Dashboard.Settled.{IsPlain, settles}
use tracium.Shell.Dashboard.Handlers.{IsNamed}
use tracium.Shell.Dashboard.History.{
  own_path, own_entry, resolved, mirror, sync_client, workspace_of, id_of, Event, act,
}

-- An entry that the dashboard left, with the path of the state that it holds
abbrev pub IsOwn : Config → Entry → Type 0
IsOwn config entry =
    (nav : NavState) × (entry
      ≡ record { path = state_to_path nav.view nav.selected config.pages; state = some nav })
    × IsView nav.view
    × IsPlain nav.selected

-- What holds of the history of a dashboard that keeps the URL, between two events: the current
-- entry is that of the state, the others are the dashboard's, and no selected text that is shown in
-- a path is one that the browser takes for a dot segment.
pub record IsPlaced (config : Config) (world : World) : Type 0 where
  pub address : world.browser.current ≡ own_entry config world.shell
  pub known : IsView world.shell.view
  pub plain : IsPlain world.shell.selected
  pub valid : AreValid config.pages
  pub behind : All (IsOwn config) world.browser.behind
  pub ahead : All (IsOwn config) world.browser.ahead
  pub inited : world.shell.hist_init ≡ true

-- The API client has the workspace that the dashboard shows.
abbrev pub IsScoped : Config → World → Type 0
IsScoped config world = world.client_workspace ≡ id_of (workspace_of config world)

abbrev pub IsNamedEvent : Event → Type 0
IsNamedEvent (act ops) = IsNamed ops
IsNamedEvent e = Unit

-- The browser keeps the entry of a plain selection as it is.
pub settled :
    (config : Config) (world : World)
    → IsPlain world.shell.selected
    → AreValid config.pages
    → resolved (own_entry config world.shell) ≡ own_entry config world.shell
settled config world plain valid =
    ap (λ p. record (own_entry config world.shell) { path = p })
      (settles world.shell.view world.shell.selected config.pages valid plain)

module _ (config : Config) (persists : config.persist ≡ true) where
  -- The mirror writes the entry of the state, over one with the same path or after the others.
  pub mirror-IsPlaced :
      (world : World)
      → world.shell.hist_init ≡ true
      → IsView world.shell.view
      → IsPlain world.shell.selected
      → AreValid config.pages
      → IsOwn config world.browser.current
      → All (IsOwn config) world.browser.behind
      → All (IsOwn config) world.browser.ahead
      → IsPlaced config (mirror config world)
  unfolding mirror
  mirror-IsPlaced world inited known plain valid own behind ahead = rw persists (
      rw inited (elim (Bool-cases (own_path config world.shell === world.browser.current.path)) [
        | inl e ↦ rw e (record {
          address = settled config world plain valid;
          known = known;
          plain = plain;
          valid = valid;
          behind = behind;
          ahead = ahead;
          inited = refl;
        })
        | inr e ↦ rw e (record {
          address = settled config world plain valid;
          known = known;
          plain = plain;
          valid = valid;
          behind = (own, behind);
          ahead = tt;
          inited = refl;
        })
      ]))

  -- Over an entry with the same path it replaces.
  pub mirror_over-IsPlaced :
      (world : World)
      → own_path config world.shell ≡ world.browser.current.path
      → IsView world.shell.view
      → IsPlain world.shell.selected
      → AreValid config.pages
      → All (IsOwn config) world.browser.behind
      → All (IsOwn config) world.browser.ahead
      → IsPlaced config (mirror config world)
  unfolding mirror
  mirror_over-IsPlaced world e known plain valid behind ahead =
      let same =
        (bytes_key.same_iff (own_path config world.shell) world.browser.current.path).1 e in
      rw persists (
        rw same (elim (Bool-cases world.shell.hist_init) [
          | inl i ↦ rw i (record {
            address = settled config world plain valid;
            known = known;
            plain = plain;
            valid = valid;
            behind = behind;
            ahead = ahead;
            inited = refl;
          })
          | inr i ↦ rw i (record {
            address = settled config world plain valid;
            known = known;
            plain = plain;
            valid = valid;
            behind = behind;
            ahead = ahead;
            inited = refl;
          })
        ]))

  -- At the first render it replaces too.
  pub first-IsPlaced :
      (world : World)
      → world.shell.hist_init ≡ false
      → IsView world.shell.view
      → IsPlain world.shell.selected
      → AreValid config.pages
      → world.browser.behind ≡ []
      → world.browser.ahead ≡ []
      → IsPlaced config (mirror config world)
  unfolding mirror
  first-IsPlaced world i known plain valid b a = rw persists (
      rw i (record {
        address = settled config world plain valid;
        known = known;
        plain = plain;
        valid = valid;
        behind = subst (All (IsOwn config)) (sym b) tt;
        ahead = subst (All (IsOwn config)) (sym a) tt;
        inited = refl;
      }))

  pub sync_client-IsPlaced :
      (world : World) → IsPlaced config world → IsPlaced config (sync_client config world)
  unfolding sync_client
  sync_client-IsPlaced world h = rw persists (record {
    address = h.address;
    known = h.known;
    plain = h.plain;
    valid = h.valid;
    behind = h.behind;
    ahead = h.ahead;
    inited = h.inited;
  })

  pub sync_client-IsScoped : (world : World) → IsScoped config (sync_client config world)
  unfolding sync_client
  sync_client-IsScoped world = rw persists refl

  -- The same history and the same state make the same place.
  pub moved :
      (world : World) {after : World}
      → after.browser.behind ≡ world.browser.behind
      → after.browser.current ≡ world.browser.current
      → after.browser.ahead ≡ world.browser.ahead
      → (own_entry config after.shell ≡ own_entry config world.shell)
      → after.shell.view ≡ world.shell.view
      → after.shell.selected ≡ world.shell.selected
      → after.shell.hist_init ≡ world.shell.hist_init
      → IsPlaced config world
      → IsPlaced config after
  moved world b c a o v s i h = record {
    address = c ∙ h.address ∙ sym o;
    known = subst IsView (sym v) h.known;
    plain = subst IsPlain (sym s) h.plain;
    valid = h.valid;
    behind = subst (All (IsOwn config)) (sym b) h.behind;
    ahead = subst (All (IsOwn config)) (sym a) h.ahead;
    inited = i ∙ h.inited;
  }

  pub own_current : (world : World) → IsPlaced config world → IsOwn config world.browser.current
  own_current world h = (at_view world.shell.view world.shell.selected, h.address, h.known, h.plain)
