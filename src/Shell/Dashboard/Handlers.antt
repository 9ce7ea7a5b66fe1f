-- ===== src/Shell/Dashboard/Handlers.antt =====
-- What the operations of a handler change, and what they leave alone.
use tracium.Prelude.{◌≡◌, refl, ◌∙◌, true, false, List, [], ◌∷◌, String, arith}
use tracium.Uri.{Text, bytes}
use tracium.Extensions.{bytes_key}
use tracium.Shell.Routing.{Selected, is_full}
use tracium.Shell.Dashboard.Settled.{IsPlain}
use tracium.Shell.Dashboard.{
  Browser, World, Config, Operation, run, store, run_set_view, set_intent, range_key,
}
use tracium.Session.{view_key, workspace_key}
use tracium.Shell.Dashboard.Views.{IsView, as_view-IsView}
use tracium.Shell.Dashboard.History.{run_all, selects}

-- No handler sets the view to the empty text, or selects a text that is a dot segment in a path.
abbrev pub IsNamed : List Operation → Type 0
IsNamed [] = Unit
IsNamed (Operation.set_view v ∷ ops) = (is_full v ≡ true) × IsNamed ops
IsNamed (Operation.set_selected f ∷ ops) =
    ((s : Selected) → IsPlain s → IsPlain (f s)) × IsNamed ops
IsNamed (op ∷ ops) = IsNamed ops

-- What the operations leave alone, and what they keep of the view
pub record IsRun (world after : World) : Type 0 where
  pub current : after.browser.current ≡ world.browser.current
  pub behind : after.browser.behind ≡ world.browser.behind
  pub ahead : after.browser.ahead ≡ world.browser.ahead
  pub inited : after.shell.hist_init ≡ world.shell.hist_init
  pub known : IsView after.shell.view
  pub plain : IsPlain after.shell.selected

IsRun-trans : {a b c : World} → IsRun a b → IsRun b c → IsRun a c
IsRun-trans p q = record {
  current = q.current ∙ p.current;
  behind = q.behind ∙ p.behind;
  ahead = q.ahead ∙ p.ahead;
  inited = q.inited ∙ p.inited;
  known = q.known;
  plain = q.plain;
}

pub store_lem :
    (config : Config) (key : String) (v : Text) (b : Browser)
    → ((store config key v b).current ≡ b.current)
      × ((store config key v b).behind ≡ b.behind)
      × ((store config key v b).ahead ≡ b.ahead)
store_lem config key v b = ground arith

run_set_view-IsRun :
    (config : Config) (v : Text) (world : World)
    → is_full v ≡ true
    → IsPlain world.shell.selected
    → IsRun world (run_set_view config v world)
run_set_view-IsRun config v world full plain =
    let (c, b, a) = store_lem config view_key v world.browser in
    record {
      current = c;
      behind = b;
      ahead = a;
      inited = refl;
      known = as_view-IsView v full;
      plain = plain;
    }

stays : (world : World) → IsView world.shell.view → IsPlain world.shell.selected → IsRun world world
stays world known plain = record {
  current = refl;
  behind = refl;
  ahead = refl;
  inited = refl;
  known = known;
  plain = plain;
}

run-IsRun :
    (config : Config) (world : World) (op : Operation)
    → IsView world.shell.view
    → IsPlain world.shell.selected
    → IsNamed (op ∷ [])
    → IsRun world (run config world op)
unfolding run
run-IsRun config world (Operation.set_view v) known plain (full, _) =
    run_set_view-IsRun config v world full plain
run-IsRun config world (Operation.set_range r) known plain _ =
    let (c, b, a) = store_lem config range_key r world.browser in
    record { current = c; behind = b; ahead = a; inited = refl; known = known; plain = plain }
run-IsRun config world (Operation.set_selected f) known plain (keeps, _) = record {
  current = refl;
  behind = refl;
  ahead = refl;
  inited = refl;
  known = known;
  plain = keeps world.shell.selected plain;
}
run-IsRun config world (Operation.select_workspace ws) known plain _ =
    let (c, b, a) = store_lem config workspace_key ws.id world.browser in
    record { current = c; behind = b; ahead = a; inited = refl; known = known; plain = plain }
run-IsRun config world Operation.go_create_workspace known plain _ =
    let after = run_set_view-IsRun config (bytes "settings") (set_intent true world) refl plain in
    record {
      current = after.current;
      behind = after.behind;
      ahead = after.ahead;
      inited = after.inited;
      known = after.known;
      plain = after.plain;
    }
run-IsRun config world Operation.cancel_create known plain _ = record {
  current = refl;
  behind = refl;
  ahead = refl;
  inited = refl;
  known = known;
  plain = plain;
}
run-IsRun config world Operation.open_cmd known plain _ = record {
  current = refl;
  behind = refl;
  ahead = refl;
  inited = refl;
  known = known;
  plain = plain;
}
run-IsRun config world Operation.close_cmd known plain _ = record {
  current = refl;
  behind = refl;
  ahead = refl;
  inited = refl;
  known = known;
  plain = plain;
}
run-IsRun config world Operation.open_nav known plain _ = record {
  current = refl;
  behind = refl;
  ahead = refl;
  inited = refl;
  known = known;
  plain = plain;
}
run-IsRun config world Operation.close_nav known plain _ = record {
  current = refl;
  behind = refl;
  ahead = refl;
  inited = refl;
  known = known;
  plain = plain;
}

IsNamed-cons :
    (op : Operation) (ops : List Operation) → IsNamed (op ∷ ops) → IsNamed (op ∷ []) × IsNamed ops
IsNamed-cons (Operation.set_view v) ops (full, rest) = ((full, tt), rest)
IsNamed-cons (Operation.set_range v) ops rest = (tt, rest)
IsNamed-cons (Operation.set_selected f) ops (keeps, rest) = ((keeps, tt), rest)
IsNamed-cons (Operation.select_workspace w) ops rest = (tt, rest)
IsNamed-cons Operation.go_create_workspace ops rest = (tt, rest)
IsNamed-cons Operation.cancel_create ops rest = (tt, rest)
IsNamed-cons Operation.open_cmd ops rest = (tt, rest)
IsNamed-cons Operation.close_cmd ops rest = (tt, rest)
IsNamed-cons Operation.open_nav ops rest = (tt, rest)
IsNamed-cons Operation.close_nav ops rest = (tt, rest)

-- Without a new selection the selection stays.
selects-run :
    (config : Config) (world : World) (op : Operation) (ops : List Operation)
    → selects (op ∷ ops) ≡ false
    → ((run config world op).shell.selected ≡ world.shell.selected) × (selects ops ≡ false)
unfolding run
selects-run config world (Operation.set_view v) ops h = (refl, h)
selects-run config world (Operation.set_range v) ops h = (refl, h)
selects-run config world (Operation.set_selected f) ops h = absurd (ground arith)
selects-run config world (Operation.select_workspace w) ops h = (refl, h)
selects-run config world Operation.go_create_workspace ops h = (refl, h)
selects-run config world Operation.cancel_create ops h = (refl, h)
selects-run config world Operation.open_cmd ops h = (refl, h)
selects-run config world Operation.close_cmd ops h = (refl, h)
selects-run config world Operation.open_nav ops h = (refl, h)
selects-run config world Operation.close_nav ops h = (refl, h)

pub selected-run_all :
    (config : Config) (world : World) (ops : List Operation)
    → selects ops ≡ false
    → (run_all config world ops).shell.selected ≡ world.shell.selected
selected-run_all config world [] h = refl
selected-run_all config world (op ∷ ops) h =
    let (same, rest) = selects-run config world op ops h in
    selected-run_all config (run config world op) ops rest ∙ same

pub run_all-IsRun :
    (config : Config) (world : World) (ops : List Operation)
    → IsView world.shell.view
    → IsPlain world.shell.selected
    → IsNamed ops
    → IsRun world (run_all config world ops)
run_all-IsRun config world [] known plain _ = stays world known plain
run_all-IsRun config world (op ∷ ops) known plain named =
    let (one, rest) = IsNamed-cons op ops named in
    let first = run-IsRun config world op known plain one in
    IsRun-trans first (run_all-IsRun config (run config world op) ops first.known first.plain rest)
