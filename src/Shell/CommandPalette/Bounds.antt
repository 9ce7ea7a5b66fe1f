-- ===== src/Shell/CommandPalette/Bounds.antt =====
-- The highlighted row is one of those that are there, and Enter goes to it.
use tracium.Prelude.{
  ℕ, zero, suc, ◌<◌, ◌≡◌, ◌⊎◌, refl, sym, ap, ◌∙◌, subst, false, List, [], ◌∷◌, Option, none, some,
  arith, ltb, length, get_elem?, Bool-cases, inl, inr, All, All-select,
}
use tracium.Prelude.Int.{ℤ, pos, negsuc}
use tracium.Uri.{Text}
use tracium.Texts.{trim, is_empty}
use tracium.Shell.Routing.{view_text, NavState}
use tracium.Shell.Dashboard.{Operation, World, Config, run}
use tracium.Shell.Dashboard.Views.{view_text-as_view}
use tracium.Shell.Dashboard.History.{act, step, run_all}
use tracium.Shell.Dashboard.Visits.{navigate_all}
use tracium.Shell.Dashboard.Navigation.{nav_of, nav_of-step, part-step}
use tracium.Shell.Dashboard.Breadcrumb.{handle_command_select}
use tracium.Shell.CommandPalette.{
  CmdItem, cmd_items, Palette, opened, filtered, down, up, at, action_of, append_close, choose,
  Input, arrow_down, arrow_up, change, enter_row, input, inputs, press_enter,
}

-- An index among so many rows; if there are none it is 0 or -1.
abbrev pub IsInside : ℕ → ℤ → Type 0
IsInside n (pos i) = (i < n) ⊎ (i ≡ 0)
IsInside n (negsuc i) = (i ≡ 0) × (n ≡ 0)

down-IsInside : (n : ℕ) (i : ℤ) → IsInside n i → IsInside n (down i n)
down-IsInside zero (pos i) h = ground arith
down-IsInside (suc n) (pos i) h = ground arith
down-IsInside zero (negsuc i) h = ground arith
down-IsInside (suc n) (negsuc i) h = absurd (omega arith)

up-IsInside : (n : ℕ) (i : ℤ) → IsInside n i → IsInside n (up i)
up-IsInside n (pos i) h = ground arith
up-IsInside n (negsuc i) h = inr refl

module _ (lower : Text → Text) where
  abbrev IsAt : Palette → Type 0
  IsAt p = IsInside (length (filtered lower p.query)) p.idx

  input-IsInside : (p : Palette) (i : Input) → IsAt p → IsAt (input lower p i)
  unfolding input
  input-IsInside p arrow_down h = down-IsInside (length (filtered lower p.query)) p.idx h
  input-IsInside p arrow_up h = up-IsInside (length (filtered lower p.query)) p.idx h
  input-IsInside p (change query) h = inr refl
  input-IsInside p (enter_row i) h = elim (Bool-cases (ltb i (length (filtered lower p.query)))) [
    | inl e ↦ rw e (inl (ground (arith, e)))
    | inr e ↦ rw e h
  ]

  inputs-IsInside : (is : List Input) (p : Palette) → IsAt p → IsAt (inputs lower p is)
  inputs-IsInside [] p h = h
  inputs-IsInside (i ∷ is) p h = inputs-IsInside is (input lower p i) (input-IsInside p i h)

-- An item that leads to a view
abbrev IsLink : CmdItem → Type 0
IsLink item =
    (v : Text) × (item.action.view ≡ some v)
    × (handle_command_select (some item.action) ≡ Operation.set_view v ∷ [])

cmd_items-IsLink : All IsLink cmd_items
unfolding cmd_items handle_command_select
cmd_items-IsLink = (
  (_, refl, refl),
  ((_, refl, refl), ((_, refl, refl), ((_, refl, refl), ((_, refl, refl), ((_, refl, refl), tt))))),
)

filtered-IsLink : (lower : Text → Text) (query : Text) → All IsLink (filtered lower query)
unfolding filtered
filtered-IsLink lower query = elim (Bool-cases (is_empty (trim query))) [
  | inl e ↦ rw e cmd_items-IsLink
  | inr e ↦ rw e (All-select IsLink _ cmd_items cmd_items-IsLink)
]

-- An index inside finds a row, if there is one, and nothing if there is none.
abbrev Finds : (CmdItem → Type 0) → List CmdItem → Option CmdItem → Type 0
Finds P items none = items ≡ []
Finds P items (some item) = P item

get_elem?-All :
    (P : CmdItem → Type 0) (items : List CmdItem) (i : ℕ)
    → All P items
    → i < length items
    → (item : CmdItem) × (get_elem? items i ≡ some item) × P item
get_elem?-All P [] i _ h = absurd (omega arith)
get_elem?-All P (x ∷ xs) zero (p, ps) h = (x, refl, p)
get_elem?-All P (x ∷ xs) (suc i) (p, ps) h = get_elem?-All P xs i ps (omega arith)

at-Finds :
    (P : CmdItem → Type 0) (items : List CmdItem) (i : ℤ)
    → All P items
    → IsInside (length items) i
    → Finds P items (at items i)
at-Finds P [] (pos i) _ h = refl
at-Finds P (x ∷ xs) (pos zero) (p, ps) h = p
at-Finds P (x ∷ xs) (pos (suc i)) (p, ps) h =
    let (item, e, q) = get_elem?-All P xs i ps (omega (arith, h)) in
    subst (Finds P (x ∷ xs)) (sym e) q
at-Finds P [] (negsuc i) _ h = refl
at-Finds P (x ∷ xs) (negsuc i) _ h = absurd (omega arith)

-- The last operation closes the palette.
closes :
    (config : Config) (world : World) (ops : List Operation)
    → (run_all config world (append_close ops)).shell.cmd_open ≡ false
unfolding run
closes config world [] = refl
closes config world (op ∷ ops) = closes config (run config world op) ops

-- What Enter does on a row, and without one
abbrev pub Leads : List CmdItem → World → World → Option CmdItem → Type 0
Leads items world after none = (items ≡ []) × (nav_of after.shell ≡ nav_of world.shell)
Leads items world after (some item) =
    (item.action.view ≡ some (view_text after.shell.view))
    × (after.shell.selected ≡ world.shell.selected)

choose-Leads :
    (config : Config) (world : World) (items : List CmdItem) (o : Option CmdItem)
    → Finds IsLink items o
    → Leads items world (step config (act (choose (action_of o))) world) o
unfolding choose handle_command_select
choose-Leads config world items none e = (e, nav_of-step config world _)
choose-Leads config world items (some item) (v, e, ops) =
    let shows =
      nav_of-step config world (append_close (handle_command_select (some item.action)))
      ∙ ap (λ l. navigate_all (nav_of world.shell) (append_close l)) ops in
    (
      e ∙ ap some (sym (ap (λ (n : NavState). view_text n.view) shows ∙ view_text-as_view v)),
      ap (λ (n : NavState). n.selected) shows,
    )

-- Whatever arrows, queries and moves of the mouse came since the palette opened: the index is that of
-- a row, or 0 or -1 if no item matches, and Enter closes the palette. It shows the view of the item
-- at the index, and keeps the selection; only if no item matches does it lead nowhere.
pub press_enter-inputs :
    (lower : Text → Text) (is : List Input) (config : Config) (world : World)
    → let p = inputs lower opened is in
      let items = filtered lower p.query in
      let after = step config (act (press_enter lower p)) world in
      IsInside (length items) p.idx
      × (after.shell.cmd_open ≡ false)
      × Leads items world after (at items p.idx)
unfolding press_enter choose opened
press_enter-inputs lower is config world =
    let p = inputs lower opened is in
    let items = filtered lower p.query in
    let inside = inputs-IsInside lower is opened (inr refl) in
    (
      inside,
      part-step (λ s. s.cmd_open) (λ s. refl) config world (press_enter lower p)
          ∙ closes config world (handle_command_select (action_of (at items p.idx))),
      choose-Leads config world items (at items p.idx)
          (at-Finds IsLink items p.idx (filtered-IsLink lower p.query) inside),
    )
