-- ===== src/Shell/Routing/RoundTrip.antt =====
-- The path of a view leads back to it.
use tracium.Prelude.{
  ◌≡◌, refl, sym, ap, ◌∙◌, subst, inl, inr, Bool, true, List, [], ◌∷◌, map, none, some, arith,
  ◌===◌, eq_of_same, same_refl, Bool-cases, All, any, find,
}
use tracium.Uri.{Text}
use tracium.Extensions.{
  bytes_key, ExtensionPage, DashboardExtensions, slice_from, is_extension_id, or_none,
  validate_extensions,
}
use tracium.Extensions.Ids.{slice_from-injective, validate_extensions_iff}
use tracium.Shell.Routing.{
  ViewId, view_text, Selected, nothing, at_view, page_path, state_to_path, state_of, path_to_state,
}
use tracium.Shell.Routing.Core.{is_registered, shown, IsSelection, core-arrives}

-- A search in pages that all have some property
find_valid :
    (P : ExtensionPage → Type 0) (q : ExtensionPage → Bool) (pages : List ExtensionPage)
    → All P pages
    → any q pages ≡ true
    → (page : ExtensionPage) × (find q pages ≡ some page) × P page × (q page ≡ true)
find_valid P q [] _ h = absurd (ground arith)
find_valid P q (page ∷ pages) (p, ps) h = elim (Bool-cases (q page)) [
  | inl e ↦ (page, rw e refl, p, e)
  | inr e ↦ let (a, f, pa, t) = find_valid P q pages ps (ground arith) in (a, rw e f, pa, t)
]

any-implies :
    (q r : ExtensionPage → Bool) (pages : List ExtensionPage)
    → ((a : ExtensionPage) → q a ≡ true → r a ≡ true)
    → any q pages ≡ true
    → any r pages ≡ true
any-implies q r [] f h = absurd (ground arith)
any-implies q r (page ∷ pages) f h = elim (Bool-cases (q page)) [
  | inl e ↦ rw (f page e) refl
  | inr e ↦ (let rest = any-implies q r pages f (ground arith) in ground (arith, rest))
]

-- Pages with ids of the right form
abbrev pub AreValid : List ExtensionPage → Type 0
AreValid pages = All (λ page. is_extension_id page.id ≡ true) pages

page-arrives :
    (pages : List ExtensionPage) (id : Text)
    → AreValid pages
    → any (λ page. page.id === id) pages ≡ true
    → path_to_state (page_path id) pages ≡ some (at_view (ViewId.extension id) nothing)
unfolding path_to_state
page-arrives pages id valid h =
    let (own, _, own_valid, named) =
      find_valid (λ page. is_extension_id page.id ≡ true) (λ page. page.id === id) pages valid h in
    let id_valid : is_extension_id id ≡ true =
      subst (λ i. is_extension_id i ≡ true) (eq_of_same own.id id named) own_valid in
    let hits : any (λ page. page_path id === page_path page.id) pages ≡ true =
      any-implies (λ page. page.id === id) (λ page. page_path id === page_path page.id) pages
        (λ a e.
          subst (λ i. (page_path id === page_path i) ≡ true) (sym (eq_of_same a.id id e))
            (same_refl (page_path id)))
        h in
    let (page, found, page_valid, hit) =
      find_valid (λ page. is_extension_id page.id ≡ true)
        (λ page. page_path id === page_path page.id) pages valid hits in
    let same : id ≡ page.id =
      slice_from-injective id page.id id_valid page_valid
        (ap (slice_from 12) (eq_of_same (page_path id) (page_path page.id) hit)) in
    ap (λ o. state_of o (page_path id)) found
    ∙ ap (λ i. some (at_view (ViewId.extension i) nothing)) (sym same)

pub pages_valid :
    (pages : List ExtensionPage)
    → All (λ id. is_extension_id id ≡ true) (map (λ page. page.id) pages)
    → AreValid pages
pages_valid [] _ = tt
pages_valid (page ∷ pages) (v, vs) = (v, pages_valid pages vs)

-- For extensions that `validateExtensions` accepts, `pathToState` takes the path that `stateToPath`
-- makes of a view back to that view, if the selected texts are well formed. It is the view with no
-- more than the path tells: entries that the view does not read are dropped, a view that lacks its
-- entry is the list that it belongs to, and an extension that is not registered is the overview.
pub path_to_state-state_to_path :
    (extensions : DashboardExtensions) (view : ViewId) (s : Selected)
    → validate_extensions extensions ≡ none
    → IsSelection s
    → path_to_state (state_to_path view s (or_none extensions.pages)) (or_none extensions.pages)
      ≡ some (shown view s (or_none extensions.pages))
unfolding state_to_path
path_to_state-state_to_path extensions view s accepted h =
    let pages = or_none extensions.pages in
    let valid = pages_valid pages ((validate_extensions_iff extensions).0 accepted).0.0 in
    elim (Bool-cases (is_registered view pages)) [
      | inl registered ↦ rw registered (page-arrives pages (view_text view) valid registered)
      | inr core ↦ rw core (core-arrives pages view s h)
    ]
