-- ===== src/Shell/CommandPalette/Tests.antt =====
-- Runs of the command palette, and its theorem at a concrete session.
use tracium.Prelude.{◌≡◌, refl, true, false, none, List, [], ◌∷◌, length}
use tracium.Prelude.Int.{pos, negsuc}
use tracium.Uri.{Text, bytes}
use tracium.Texts.{trim_start, trim_end, includes}
use tracium.Shell.Workspaces.{demo_workspace}
use tracium.Shell.Dashboard.{Config, World}
use tracium.Shell.Dashboard.History.{act, step, mount}
use tracium.Shell.CommandPalette.{
  cmd_items, opened, filtered, at, Input, arrow_down, change, input, inputs, press_enter,
}
use tracium.Shell.CommandPalette.Bounds.{IsInside, Leads, press_enter-inputs}

abbrev as_is : Text → Text
as_is t = t

abbrev typed : List Input
typed = arrow_down ∷ arrow_down ∷ change (bytes "sag") ∷ []

highlighted : (inputs as_is opened typed).idx ≡ pos 0
unfolding input opened
highlighted = refl

-- Below no rows there is -1.
below : (inputs as_is opened (change (bytes "zz") ∷ arrow_down ∷ arrow_down ∷ [])).idx ≡ negsuc 0
unfolding input opened filtered cmd_items includes trim_start trim_end
below = refl

abbrev config : Config
config = record { persist = true; pages = []; demo = demo_workspace (bytes "x") }

abbrev tab : World
tab =
    mount config
      (record {
        behind = [];
        current = record { path = bytes "/"; state = none };
        ahead = [];
        local_storage = [];
        session_storage = [];
      })
      none

press_enter-inputs_example :
    let p = inputs as_is opened typed in
    let items = filtered as_is p.query in
    let after = step config (act (press_enter as_is p)) tab in
    IsInside (length items) p.idx
    × (after.shell.cmd_open ≡ false)
    × Leads items tab after (at items p.idx)
press_enter-inputs_example = press_enter-inputs as_is typed config tab
