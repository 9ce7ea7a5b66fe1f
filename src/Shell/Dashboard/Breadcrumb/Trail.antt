-- ===== src/Shell/Dashboard/Breadcrumb/Trail.antt =====
-- A click on the breadcrumb cuts it off behind the item.
use tracium.Prelude.{
  ℕ, zero, suc, ◌≡◌, refl, sym, ap, ◌∙◌, ◌≢◌, subst, false, List, [], ◌∷◌, map, Option, none, some,
  arith, ◌===◌, some_inj, Option-cases, inl, inr, find, take, eq_of_same, Bool-cases,
}
use tracium.Uri.{Text, bytes}
use tracium.Extensions.{bytes_key, ExtensionPage, is_extension_id}
use tracium.Shell.Routing.{ViewId, view_text, Selected, NavState, at_view}
use tracium.Shell.Routing.RoundTrip.{AreValid}
use tracium.Shell.Dashboard.{Operation, World, Config, as_view}
use tracium.Shell.Dashboard.Visits.{navigate_all}
use tracium.Shell.Dashboard.History.{act, step}
use tracium.Shell.Dashboard.Navigation.{nav_of-step}
use tracium.Shell.Dashboard.Breadcrumb.{
  BreadcrumbItem, core_crumbs, workflow_crumbs, page_or_core, breadcrumb, click, plain,
}

abbrev pub labels : List BreadcrumbItem → List Text
labels crumbs = map (λ c. c.label) crumbs

-- No page has the id of a core view.
pub free :
    (pages : List ExtensionPage) (id : Text)
    → AreValid pages
    → is_extension_id id ≡ false
    → find (λ page. page.id === id) pages ≡ none
free [] id _ h = refl
free (page ∷ pages) id (v, vs) h = elim (Bool-cases (page.id === id)) [
  | inl e ↦ absurd (let same = ap is_extension_id (eq_of_same page.id id e) in cc (same, v, h))
  | inr e ↦ rw e (free pages id vs h)
]

-- A click leads to a view of the core, whose breadcrumb is the part up to the item.
abbrev IsCut : NavState → ℕ → List BreadcrumbItem → Type 0
IsCut nav i crumbs =
    (is_extension_id (view_text nav.view) ≡ false)
    × (labels (core_crumbs nav.view nav.selected) ≡ take (suc i) (labels crumbs))

module _ (s : Selected) where
  workflow_crumbs-IsCut :
      (w : Option Text) (i : ℕ) (ops : List Operation)
      → click (workflow_crumbs w) i ≡ some ops
      → IsCut (navigate_all (at_view ViewId.workflows s) ops) i (workflow_crumbs w)
  unfolding as_view is_extension_id
  workflow_crumbs-IsCut none zero ops h = absurd (ground arith)
  workflow_crumbs-IsCut none (suc i) ops h = absurd (ground arith)
  workflow_crumbs-IsCut (some []) zero ops h = absurd (ground arith)
  workflow_crumbs-IsCut (some []) (suc i) ops h = absurd (ground arith)
  workflow_crumbs-IsCut (some (b ∷ t)) zero ops h =
      subst
        (λ o.
          IsCut (navigate_all (at_view ViewId.workflows s) o) 0 (workflow_crumbs (some (b ∷ t))))
        (some_inj h) (refl, refl)
  workflow_crumbs-IsCut (some (b ∷ t)) (suc zero) ops h = absurd (ground arith)
  workflow_crumbs-IsCut (some (b ∷ t)) (suc (suc i)) ops h = absurd (ground arith)

  -- The breadcrumb of a comparison, with the workflow that is there
  abbrev compare_crumbs : Option Text → List BreadcrumbItem
  compare_crumbs w = core_crumbs ViewId.compare (record s { workflow = w })

  compare_crumbs-IsCut :
      (w : Option Text) (i : ℕ) (ops : List Operation)
      → s.workflow ≡ w
      → click (compare_crumbs w) i ≡ some ops
      → IsCut (navigate_all (at_view ViewId.compare s) ops) i (compare_crumbs w)
  unfolding as_view is_extension_id
  compare_crumbs-IsCut w zero ops e h =
      subst (λ o. IsCut (navigate_all (at_view ViewId.compare s) o) 0 (compare_crumbs w))
        (some_inj h) (refl, refl)
  compare_crumbs-IsCut none (suc zero) ops e h = absurd (ground arith)
  compare_crumbs-IsCut none (suc (suc i)) ops e h = absurd (ground arith)
  compare_crumbs-IsCut (some []) (suc zero) ops e h = absurd (ground arith)
  compare_crumbs-IsCut (some []) (suc (suc i)) ops e h = absurd (ground arith)
  compare_crumbs-IsCut (some (b ∷ t)) (suc zero) ops e h =
      subst
        (λ o. IsCut (navigate_all (at_view ViewId.compare s) o) 1 (compare_crumbs (some (b ∷ t))))
        (some_inj h) (refl, ap (λ w. labels (workflow_crumbs w)) e)
  compare_crumbs-IsCut (some (b ∷ t)) (suc (suc zero)) ops e h = absurd (ground arith)
  compare_crumbs-IsCut (some (b ∷ t)) (suc (suc (suc i))) ops e h = absurd (ground arith)

  core_crumbs-IsCut :
      (v : ViewId) (i : ℕ) (ops : List Operation)
      → click (core_crumbs v s) i ≡ some ops
      → IsCut (navigate_all (at_view v s) ops) i (core_crumbs v s)
  unfolding as_view is_extension_id
  core_crumbs-IsCut ViewId.overview zero ops h = absurd (ground arith)
  core_crumbs-IsCut ViewId.overview (suc i) ops h = absurd (ground arith)
  core_crumbs-IsCut ViewId.trace zero ops h =
      subst (λ o. IsCut (navigate_all (at_view ViewId.trace s) o) 0 (core_crumbs ViewId.trace s))
        (some_inj h) (refl, refl)
  core_crumbs-IsCut ViewId.trace (suc zero) ops h = absurd (ground arith)
  core_crumbs-IsCut ViewId.trace (suc (suc i)) ops h = absurd (ground arith)
  core_crumbs-IsCut ViewId.workflows i ops h = workflow_crumbs-IsCut s.workflow i ops h
  core_crumbs-IsCut ViewId.compare i ops h = compare_crumbs-IsCut s.workflow i ops refl h
  core_crumbs-IsCut ViewId.usage zero ops h = absurd (ground arith)
  core_crumbs-IsCut ViewId.usage (suc i) ops h = absurd (ground arith)
  core_crumbs-IsCut ViewId.users zero ops h = absurd (ground arith)
  core_crumbs-IsCut ViewId.users (suc i) ops h = absurd (ground arith)
  core_crumbs-IsCut ViewId.user zero ops h =
      subst (λ o. IsCut (navigate_all (at_view ViewId.user s) o) 0 (core_crumbs ViewId.user s))
        (some_inj h) (refl, refl)
  core_crumbs-IsCut ViewId.user (suc zero) ops h = absurd (ground arith)
  core_crumbs-IsCut ViewId.user (suc (suc i)) ops h = absurd (ground arith)
  core_crumbs-IsCut ViewId.keys zero ops h =
      subst (λ o. IsCut (navigate_all (at_view ViewId.keys s) o) 0 (core_crumbs ViewId.keys s))
        (some_inj h) (refl, refl)
  core_crumbs-IsCut ViewId.keys (suc zero) ops h = absurd (ground arith)
  core_crumbs-IsCut ViewId.keys (suc (suc i)) ops h = absurd (ground arith)
  core_crumbs-IsCut ViewId.settings zero ops h = absurd (ground arith)
  core_crumbs-IsCut ViewId.settings (suc i) ops h = absurd (ground arith)
  core_crumbs-IsCut (ViewId.extension id) zero ops h = absurd (ground arith)
  core_crumbs-IsCut (ViewId.extension id) (suc i) ops h = absurd (ground arith)

plain-click : (label : Text) (i : ℕ) (ops : List Operation) → click (plain label ∷ []) i ≢ some ops
plain-click label zero ops h = absurd (ground arith)
plain-click label (suc i) ops h = absurd (ground arith)

-- A click on an item of the breadcrumb, if the item has a handler, shows a view whose breadcrumb
-- reads as this one up to the item and with it. The ids of the pages have the right form.
pub breadcrumb-handle :
    (config : Config) (world : World) (i : ℕ) (ops : List Operation)
    → AreValid config.pages
    → click (breadcrumb config.pages world.shell.view world.shell.selected) i ≡ some ops
    → let after = (step config (act ops) world).shell in
      labels (breadcrumb config.pages after.view after.selected)
      ≡ take (suc i) (labels (breadcrumb config.pages world.shell.view world.shell.selected))
unfolding breadcrumb
breadcrumb-handle config world i ops valid h =
    let v = world.shell.view in
    let s = world.shell.selected in
    let nav = navigate_all (at_view v s) ops in
    elim (Option-cases (find (λ page. page.id === view_text v) config.pages)) [
      | inr (page, e) ↦ absurd (
          plain-click (bytes page.label) i ops
            (sym (ap (λ o. click (page_or_core o (core_crumbs v s)) i) e) ∙ h))
      | inl e ↦
          (let crumbs = ap (λ o. page_or_core o (core_crumbs v s)) e in
            let (target, cut) =
              core_crumbs-IsCut s v i ops (sym (ap (λ c. click c i) crumbs) ∙ h) in
            ap (λ (n : NavState). labels (breadcrumb config.pages n.view n.selected))
              (nav_of-step config world ops)
            ∙ ap (λ o. labels (page_or_core o (core_crumbs nav.view nav.selected)))
                (free config.pages (view_text nav.view) valid target)
            ∙ cut
            ∙ ap (λ c. take (suc i) (labels c)) (sym crumbs))
    ]
