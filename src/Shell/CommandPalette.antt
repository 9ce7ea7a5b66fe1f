-- ===== src/Shell/CommandPalette.antt =====
-- The command palette: dashboard/src/modules/shell/CommandPalette/CommandPalette.tsx.
pub mod Bounds
mod Tests
use tracium.Prelude.{
  ℕ, zero, suc, ◌+◌, ◌-◌, Bool, true, false, ◌&&◌, not, List, [], ◌∷◌, Option, none, some,
  if◌then◌else◌, ◌===◌, number_key, ltb, length, get_elem?, select,
}
use tracium.Prelude.Int.{ℤ, pos, negsuc, sub_ℕ}
use tracium.Uri.{Text, bytes}
use tracium.Extensions.{bytes_key}
use tracium.Texts.{trim, trim_start, trim_end, includes, is_empty}
use tracium.Shell.Dashboard.{Operation}
use tracium.Shell.Dashboard.Breadcrumb.{CommandAction, handle_command_select}

pub record CmdItem : Type 0 where
  pub label : Text
  pub action : CommandAction

abbrev pub view_item : Text → Text → CmdItem
view_item label view = record {
  label = label;
  action = record { view = some view; trace = none; workflow = none };
}

unfoldable pub cmd_items : List CmdItem
cmd_items =
    view_item (bytes "Overview") (bytes "overview")
    ∷ view_item (bytes "Workflows") (bytes "workflows")
    ∷ view_item (bytes "Usage") (bytes "usage")
    ∷ view_item (bytes "Clients") (bytes "users")
    ∷ view_item (bytes "API Keys") (bytes "keys")
    ∷ view_item (bytes "Settings") (bytes "settings")
    ∷ []

pub record Palette : Type 0 where
  pub query : Text
  pub idx : ℤ

unfoldable pub opened : Palette
opened = record { query = []; idx = pos 0 }

-- `filtered`, given the host's `toLowerCase`
unfoldable pub filtered : (Text → Text) → Text → List CmdItem
filtered lower query =
    if is_empty (trim query)
    then cmd_items
    else select (λ item. includes (lower item.label) (lower query)) cmd_items

-- `Math.min(i + 1, length - 1)` and `Math.max(i - 1, 0)`
abbrev pub down : ℤ → ℕ → ℤ
down (pos i) n = if ltb (i + 1) n then pos (i + 1) else sub_ℕ n 1
down (negsuc i) zero = negsuc (i - 1)
down (negsuc i) (suc n) = if i === 0 then pos 0 else negsuc (i - 1)

abbrev pub up : ℤ → ℤ
up (pos i) = pos (i - 1)
up (negsuc i) = pos 0

abbrev pub at {ℓ} : {A : Type ℓ} → List A → ℤ → Option A
at xs (pos i) = get_elem? xs i
at xs (negsuc i) = none

abbrev pub action_of : Option CmdItem → Option CommandAction
action_of none = none
action_of (some item) = some item.action

-- `choose`: what `onSelect` does, and then `onClose`
abbrev pub append_close : List Operation → List Operation
append_close [] = Operation.close_cmd ∷ []
append_close (op ∷ ops) = op ∷ append_close ops

unfoldable pub choose : Option CommandAction → List Operation
choose action = append_close (handle_command_select action)

-- The inputs that keep the palette open, those of the mouse among the rows that are there
pub data Input : Type 0 where
  arrow_down arrow_up : Input
  change : Text → Input
  enter_row : ℕ → Input

unfoldable pub input : (Text → Text) → Palette → Input → Palette
input lower p arrow_down = record p { idx = down p.idx (length (filtered lower p.query)) }
input lower p arrow_up = record p { idx = up p.idx }
input lower p (change query) = record { query = query; idx = pos 0 }
input lower p (enter_row i) =
    if ltb i (length (filtered lower p.query)) then record p { idx = pos i } else p

abbrev pub inputs : (Text → Text) → Palette → List Input → Palette
inputs lower p [] = p
inputs lower p (i ∷ is) = inputs lower (input lower p i) is

-- Enter, in the search
unfoldable pub press_enter : (Text → Text) → Palette → List Operation
press_enter lower p = choose (action_of (at (filtered lower p.query) p.idx))
