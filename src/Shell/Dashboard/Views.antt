-- ===== src/Shell/Dashboard/Views.antt =====
-- Texts as views, and the views that the dashboard opens with.
use tracium.Prelude.{
  ◌≡◌, refl, sym, ap, ◌∙◌, subst, Bool, true, false, ◌&&◌, ◌||◌, ◌>>=◌, not, List, [], ◌∷◌, Option,
  none, some, arith, if◌then◌else◌, ◌===◌, eq_of_same, Bool-cases, inl, inr, find, get_elem?,
  text_key, if_false,
}
use tracium.Prelude.Maps.{get, has}
use tracium.Uri.{Text, bytes}
use tracium.Extensions.{bytes_key, ExtensionPage, is_extension_id}
use tracium.Extensions.Ids.{starts_with-append}
use tracium.Session.{view_key, redirect_key}
use tracium.Shell.Routing.{
  ViewId, view_text, NavState, nothing, at_view, is_full, if_there, of_workflow, workflow_route,
  route, route_of, state_of, segments, path_to_state, page_path,
}
use tracium.Shell.Routing.RoundTrip.{AreValid}
use tracium.Shell.Dashboard.{
  as_view, stored_nav, redirect_nav, or_nav, compute_initial_nav, Config, Browser, is_page,
  view_ids,
}

if_holds {ℓ κ} :
    {A : Type ℓ} {x y : A} (P : A → Type κ) (b : Bool) → P x → P y → P (if b then x else y)
if_holds P true p q = p
if_holds P false p q = q

if_there_holds {ℓ κ} :
    {A : Type ℓ} {other : A} (P : A → Type κ) (o : Option Text) (f : Text → A)
    → ((t : Text) → P (f t))
    → P other
    → P (if_there o f other)
if_there_holds P none f p q = q
if_there_holds P (some []) f p q = q
if_there_holds P (some (b ∷ t)) f p q = p (b ∷ t)

pub view_text-as_view : (t : Text) → view_text (as_view t) ≡ t
unfolding as_view
view_text-as_view t =
    named _ _ (bytes "overview") (λ h. sym (eq_of_same t (bytes "overview") h))
      (named _ _ (bytes "workflows") (λ h. sym (eq_of_same t (bytes "workflows") h))
        (named _ _ (bytes "compare") (λ h. sym (eq_of_same t (bytes "compare") h))
          (named _ _ (bytes "trace") (λ h. sym (eq_of_same t (bytes "trace") h))
            (named _ _ (bytes "usage") (λ h. sym (eq_of_same t (bytes "usage") h))
              (named _ _ (bytes "keys") (λ h. sym (eq_of_same t (bytes "keys") h))
                (named _ _ (bytes "settings") (λ h. sym (eq_of_same t (bytes "settings") h))
                  (named _ _ (bytes "users") (λ h. sym (eq_of_same t (bytes "users") h))
                    (named _ _ (bytes "user") (λ h. sym (eq_of_same t (bytes "user") h))
                      (refl)))))))))
  where
    named :
        (v w : ViewId) (s : Text)
        → ((t === s) ≡ true → view_text v ≡ t)
        → view_text w ≡ t
        → view_text (if t === s then v else w) ≡ t
    named v w s p q = elim (Bool-cases (t === s)) [ inl e ↦ rw e (p e) | inr e ↦ rw e q ]

-- A view that its text tells, and whose text is not empty
abbrev pub IsView : ViewId → Type 0
IsView v = (is_full (view_text v) ≡ true) × (as_view (view_text v) ≡ v)

pub as_view-IsView : (t : Text) → is_full t ≡ true → IsView (as_view t)
as_view-IsView t full = (ap is_full (view_text-as_view t) ∙ full, ap as_view (view_text-as_view t))

pub eq_of_view_text : {v w : ViewId} → IsView v → IsView w → view_text v ≡ view_text w → v ≡ w
eq_of_view_text (_, p) (_, q) e = sym p ∙ ap as_view e ∙ q

abbrev pub IsNav : NavState → Type 0
IsNav nav = IsView nav.view

abbrev pub IsNavOption : Option NavState → Type 0
IsNavOption none = Unit
IsNavOption (some nav) = IsNav nav

workflow_route-IsNav : (a b c d : Option Text) → IsNav (workflow_route a b c d)
unfolding as_view
workflow_route-IsNav a b c d =
    if_there_holds IsNav b _
      (λ s.
        if_holds IsNav (s === bytes "compare")
          (if_there_holds IsNav c _ (λ t. if_there_holds IsNav d _ (λ u. (refl, refl)) single)
            single)
          single)
      single
  where
    single : IsNav (
        if_there a
          (λ w. at_view ViewId.workflows (of_workflow w))
          (at_view ViewId.workflows nothing))
    single = if_there_holds IsNav a _ (λ w. (refl, refl)) (refl, refl)

route-IsNav : (head : Text) (rest : List Text) → IsNavOption (route head rest)
unfolding route as_view
route-IsNav head rest =
    if_holds IsNavOption (head === bytes "workflows")
      (workflow_route-IsNav (get_elem? rest 0) (get_elem? rest 1) (get_elem? rest 2)
        (get_elem? rest 3))
      (if_holds IsNavOption (head === bytes "traces")
        (if_there_holds IsNav (get_elem? rest 0) _ (λ t. (refl, refl)) (refl, refl))
        (if_holds IsNavOption (head === bytes "usage") (refl, refl)
          (if_holds IsNavOption ((head === bytes "clients") || (head === bytes "users"))
            (if_there_holds IsNav (get_elem? rest 0) _ (λ t. (refl, refl)) (refl, refl))
            (if_holds IsNavOption (head === bytes "api-keys") (refl, refl)
              (if_holds IsNavOption (head === bytes "settings") (refl, refl) tt)))))

extension-IsView : (id : Text) → is_extension_id id ≡ true → IsView (ViewId.extension id)
unfolding is_extension_id as_view
extension-IsView id valid =
    let e = starts_with-append (bytes "extension:") id (ground (arith, valid)) in
    subst (λ t. IsView (ViewId.extension t)) (sym e) (refl, refl)

find_valid :
    (q : ExtensionPage → Bool) (pages : List ExtensionPage)
    → AreValid pages
    → (path : Text) → IsNavOption (segments path >>= route_of)
    → IsNavOption (state_of (find q pages) path)
find_valid q [] _ path h = h
find_valid q (page ∷ pages) (v, vs) path h = elim (Bool-cases (q page)) [
  | inl e ↦ rw e (extension-IsView page.id v)
  | inr e ↦ rw e (find_valid q pages vs path h)
]

route_of-IsNav : (o : Option (List Text)) → IsNavOption (o >>= route_of)
unfolding as_view
route_of-IsNav none = tt
route_of-IsNav (some []) = (refl, refl)
route_of-IsNav (some (head ∷ rest)) = route-IsNav head rest

pub path_to_state-IsNav :
    (path : Text) (pages : List ExtensionPage)
    → AreValid pages
    → IsNavOption (path_to_state path pages)
unfolding path_to_state
path_to_state-IsNav path pages valid =
    find_valid (λ page. path === page_path page.id) pages valid path
      (route_of-IsNav (segments path))

or_nav-IsNav :
    (o : Option NavState) (other : NavState) → IsNavOption o → IsNav other → IsNav (or_nav o other)
or_nav-IsNav none other _ h = h
or_nav-IsNav (some nav) other h _ = h

stored_nav-IsNav : (o : Option Text) (pages : List ExtensionPage) → IsNav (stored_nav o pages)
unfolding as_view
stored_nav-IsNav none pages = (refl, refl)
stored_nav-IsNav (some t) pages =
    elim (Bool-cases (is_full t && (is_page t pages || has t view_ids))) [
      | inl e ↦ rw e (as_view-IsView t (ground (arith, e)))
      | inr e ↦ rw e (refl, refl)
    ]

redirect_nav-IsNav :
    (o : Option Text) (pages : List ExtensionPage)
    → AreValid pages
    → IsNavOption (redirect_nav o pages)
redirect_nav-IsNav none pages _ = tt
redirect_nav-IsNav (some t) pages valid =
    if_holds IsNavOption (is_full t) (path_to_state-IsNav t pages valid) tt

pub compute_initial_nav-IsNav :
    (config : Config) (browser : Browser)
    → AreValid config.pages
    → IsNav (compute_initial_nav config browser)
unfolding compute_initial_nav as_view
compute_initial_nav-IsNav config browser valid =
    let stored = stored_nav (get view_key browser.local_storage) config.pages in
    let redirect = redirect_nav (get redirect_key browser.session_storage) config.pages in
    let redirected = or_nav redirect stored in
    let url = path_to_state browser.current.path config.pages in
    if_holds {x = at_view ViewId.overview nothing} {y = or_nav url redirected} IsNav
      (not config.persist) (refl, refl)
      (or_nav-IsNav url redirected (path_to_state-IsNav browser.current.path config.pages valid) (
        or_nav-IsNav redirect stored
          (redirect_nav-IsNav (get redirect_key browser.session_storage) config.pages valid)
          (stored_nav-IsNav (get view_key browser.local_storage) config.pages)))

-- A path that leads to a view wins.
pub compute_initial_nav-path :
    (config : Config) (browser : Browser) (nav : NavState)
    → config.persist ≡ true
    → path_to_state browser.current.path config.pages ≡ some nav
    → compute_initial_nav config browser ≡ nav
unfolding compute_initial_nav
compute_initial_nav-path config browser nav persists e =
    let stored = stored_nav (get view_key browser.local_storage) config.pages in
    let redirect = redirect_nav (get redirect_key browser.session_storage) config.pages in
    if_false (at_view ViewId.overview nothing) (ap not persists)
    ∙ ap (λ o. or_nav o (or_nav redirect stored)) e
