-- ===== src/Shell/Dashboard/Visits.antt =====
-- What the history of the dashboard promises: a place among the states that were visited, as the
-- abstract view of dashboard/src/modules/shell/Dashboard/Dashboard.tsx.
use tracium.Prelude.{
  ℕ, zero, suc, ◌≤◌, ◌≡◌, refl, ap, ◌∙◌, inl, inr, Bool, true, false, List, [], ◌∷◌, arith,
  if◌then◌else◌, ◌===◌, eq_of_same, Bool-cases, length, All, if_true, if_false,
}
use tracium.Uri.{Text, bytes}
use tracium.Extensions.{bytes_key, ExtensionPage}
use tracium.Shell.Routing.{NavState, state_to_path}
use tracium.Shell.Dashboard.{Operation, as_view}
use tracium.Shell.Dashboard.History.{Event, act}

-- The states that can be gone back to, the nearest first, the current one, and those ahead
pub record Visits : Type 0 where
  pub back : List NavState
  pub here : NavState
  pub forth : List NavState

-- A state at another path is a new visit, which drops those ahead; one at the same path takes the
-- place of the current one.
abbrev pub visit : List ExtensionPage → NavState → Visits → Visits
visit pages nav visits =
    if state_to_path nav.view nav.selected pages
      === state_to_path visits.here.view visits.here.selected pages
    then record visits { here = nav }
    else record { back = visits.here ∷ visits.back; here = nav; forth = [] }

abbrev pub visit_back : List NavState → Visits → Visits
visit_back [] visits = visits
visit_back (nav ∷ back) visits = record {
  back = back;
  here = nav;
  forth = visits.here ∷ visits.forth;
}

abbrev pub visit_forth : List NavState → Visits → Visits
visit_forth [] visits = visits
visit_forth (nav ∷ forth) visits = record {
  back = visits.here ∷ visits.back;
  here = nav;
  forth = forth;
}

-- What an operation means for the view and the selection
abbrev pub navigate : NavState → Operation → NavState
navigate nav (Operation.set_view v) = record nav { view = as_view v }
navigate nav (Operation.set_selected f) = record nav { selected = f nav.selected }
navigate nav Operation.go_create_workspace = record nav { view = as_view (bytes "settings") }
navigate nav (Operation.set_range r) = nav
navigate nav (Operation.select_workspace w) = nav
navigate nav Operation.cancel_create = nav
navigate nav Operation.open_cmd = nav
navigate nav Operation.close_cmd = nav
navigate nav Operation.open_nav = nav
navigate nav Operation.close_nav = nav

abbrev pub navigate_all : NavState → List Operation → NavState
navigate_all nav [] = nav
navigate_all nav (op ∷ ops) = navigate_all (navigate nav op) ops

-- The abstract dashboard
abbrev pub visit_step : List ExtensionPage → Event → Visits → Visits
visit_step pages (act ops) visits = visit pages (navigate_all visits.here ops) visits
visit_step pages Event.back visits = visit_back visits.back visits
visit_step pages Event.forward visits = visit_forth visits.forth visits
visit_step pages (Event.press e) visits = visits
visit_step pages (Event.fetched l) visits = visits
visit_step pages (Event.created w) visits = visits
visit_step pages (Event.deleted id) visits = visits

abbrev pub visit_steps : List ExtensionPage → Visits → List Event → Visits
visit_steps pages visits [] = visits
visit_steps pages visits (e ∷ es) = visit_steps pages (visit_step pages e visits) es

-- Back, n times
abbrev pub back_times : ℕ → Visits → Visits
back_times zero visits = visits
back_times (suc n) visits = (let v = back_times n visits in visit_back v.back v)

-- No Back and no Forward
abbrev pub stays : Event → Bool
stays Event.back = false
stays Event.forward = false
stays e = true

abbrev pub path_of : List ExtensionPage → NavState → Text
path_of pages nav = state_to_path nav.view nav.selected pages

-- Back leads to where some events started, or to another state at that path.
abbrev IsWayBack : List ExtensionPage → Visits → ℕ → Visits → Type 0
IsWayBack pages start n end =
    let v = back_times n end in
    (path_of pages v.here ≡ path_of pages start.here) × (v.back ≡ start.back)

visit-way :
    (pages : List ExtensionPage) (nav : NavState) (start end : Visits) (n k : ℕ)
    → n ≤ k
    → IsWayBack pages (visit pages nav start) n end
    → (m : ℕ) × (m ≤ suc k) × IsWayBack pages start m end
visit-way pages nav start end n k le (p, q) =
    elim (Bool-cases (path_of pages nav === path_of pages start.here)) [
      | inl same ↦ (
        n,
        omega arith,
        (
          p
              ∙ ap (λ (v : Visits). path_of pages v.here) (if_true _ same)
              ∙ eq_of_same (path_of pages nav) (path_of pages start.here) same,
          q ∙ ap (λ (v : Visits). v.back) (if_true _ same),
        ),
      )
      | inr other ↦
          (let pushed = q ∙ ap (λ (v : Visits). v.back) (if_false _ other) in
            (
              suc n,
              omega arith,
              (
                ap (λ l. path_of pages (visit_back l (back_times n end)).here) pushed,
                ap (λ l. (visit_back l (back_times n end)).back) pushed,
              ),
            ))
    ]

pub way_back :
    (pages : List ExtensionPage) (es : List Event) (start : Visits)
    → All (λ e. stays e ≡ true) es
    → (n : ℕ) × (n ≤ length es) × IsWayBack pages start n (visit_steps pages start es)
way_back pages [] start _ = (0, omega arith, (refl, refl))
way_back pages (act ops ∷ es) start (_, rest) =
    let nav = navigate_all start.here ops in
    let after = visit pages nav start in
    let (n, le, way) = way_back pages es after rest in
    visit-way pages nav start (visit_steps pages after es) n (length es) le way
way_back pages (Event.back ∷ es) start (h, _) = absurd (ground arith)
way_back pages (Event.forward ∷ es) start (h, _) = absurd (ground arith)
way_back pages (Event.press e ∷ es) start (_, rest) =
    let (n, le, way) = way_back pages es start rest in (n, omega arith, way)
way_back pages (Event.fetched l ∷ es) start (_, rest) =
    let (n, le, way) = way_back pages es start rest in (n, omega arith, way)
way_back pages (Event.created w ∷ es) start (_, rest) =
    let (n, le, way) = way_back pages es start rest in (n, omega arith, way)
way_back pages (Event.deleted id ∷ es) start (_, rest) =
    let (n, le, way) = way_back pages es start rest in (n, omega arith, way)
