-- ===== src/Shell/Dashboard/Content/Single.antt =====
-- One thing is shown at a time.
use tracium.Prelude.{
  ℕ, ◌≡◌, refl, sym, ap, ◌∙◌, Bool, true, false, not, ◌||◌, if_true, if_false, List, [], ◌++◌,
  if◌then◌else◌, ◌===◌, any, find-any, find-none, length, Bool-cases, inl, inr,
}
use tracium.Extensions.{bytes_key, is_extension_id}
use tracium.Shell.Routing.{ViewId, view_text, Selected}
use tracium.Shell.Routing.Core.{is_registered}
use tracium.Shell.Routing.RoundTrip.{AreValid}
use tracium.Shell.Dashboard.{World, Config}
use tracium.Shell.Dashboard.Breadcrumb.Trail.{free}
use tracium.Shell.Dashboard.Content.{
  Element, core_element, page_elements, active_page, is_blocked, elements,
}

abbrev is_core : ViewId → Bool
is_core (ViewId.extension id) = false
is_core v = true

abbrev one_if : Bool → ℕ
one_if b = if b then 1 else 0

-- A view of the core has its element, and no page.
module _ (config : Config) (embedded : Bool) (s : Selected) (valid : AreValid config.pages) where
  abbrev shown_at : ViewId → List Element
  shown_at v = page_elements (active_page config v) ++ core_element embedded s v

  core_alone :
      (v : ViewId) → is_extension_id (view_text v) ≡ false → shown_at v ≡ core_element embedded s v
  core_alone v h =
      ap (λ o. page_elements o ++ core_element embedded s v)
        (free config.pages (view_text v) valid h)

  length-shown_at :
      (v : ViewId) → length (shown_at v) ≡ one_if (is_core v || is_registered v config.pages)
  unfolding is_extension_id
  length-shown_at ViewId.overview = ap length (core_alone ViewId.overview refl)
  length-shown_at ViewId.workflows = ap length (core_alone ViewId.workflows refl)
  length-shown_at ViewId.compare = ap length (core_alone ViewId.compare refl)
  length-shown_at ViewId.trace = ap length (core_alone ViewId.trace refl)
  length-shown_at ViewId.usage = ap length (core_alone ViewId.usage refl)
  length-shown_at ViewId.keys = ap length (core_alone ViewId.keys refl)
  length-shown_at ViewId.settings = ap length (core_alone ViewId.settings refl)
  length-shown_at ViewId.users = ap length (core_alone ViewId.users refl)
  length-shown_at ViewId.user = ap length (core_alone ViewId.user refl)
  length-shown_at (ViewId.extension id) =
      elim (Bool-cases (any (λ page. page.id === id) config.pages)) [
        | inl e ↦
            (let (page, found, _) = find-any (λ page. page.id === id) config.pages e in
              ap (λ o. length (page_elements o ++ [])) found ∙ sym (ap one_if e))
        | inr e ↦
            ap (λ o. length (page_elements o ++ []))
              (find-none (λ page. page.id === id) config.pages e)
            ∙ sym (ap one_if e)
      ]

-- There is always exactly one thing on the page, a notice or a view, except at an extension that is
-- not registered: there it is the notice if a workspace is missing, or else nothing. The ids of the
-- pages have the right form.
pub length-elements :
    (config : Config) (is_loading is_error : Bool) (world : World)
    → AreValid config.pages
    → let v = world.shell.view in
      length (elements config is_loading is_error world)
      ≡ one_if (is_blocked config world || (is_core v || is_registered v config.pages))
unfolding elements
length-elements config is_loading is_error world valid =
    let v = world.shell.view in
    let known = is_core v || is_registered v config.pages in
    elim (Bool-cases (is_blocked config world)) [
      | inl e ↦ ap length (if_true _ e) ∙ sym (ap (λ b. one_if (b || known)) e)
      | inr e ↦
          ap length (if_false _ e)
          ∙ length-shown_at config (not config.persist) world.shell.selected valid v
          ∙ sym (ap (λ b. one_if (b || known)) e)
    ]
