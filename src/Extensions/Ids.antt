-- ===== src/Extensions/Ids.antt =====
-- Which extensions are accepted.
use tracium.Prelude.{
  ◌≡◌, ◌↔◌, refl, sym, ap, ◌∙◌, inl, inr, true, false, ◌||◌, not, List, [], ◌∷◌, ◌++◌, map, none,
  arith, Bool-cases, Option-cases, All, same_comm, length,
}
use tracium.Prelude.Maps.{has, add, has-add, Distinct}
use tracium.Uri.{Text, bytes}
use tracium.Extensions.{
  bytes_key, DashboardExtensions, starts_with, slice_from, is_extension_id, check_each, or_none,
  validate_extensions,
}

-- Ids of the right form, none twice, and none of some others
abbrev AreNew : List Text → List Text → Type 0
AreNew ids entries =
    All (λ id. is_extension_id id ≡ true) entries
    × Distinct entries
    × All (λ id. has id ids ≡ false) entries

All-has-add :
    (id : Text) (ids entries : List Text)
    → has id entries ≡ false
    → All (λ j. has j ids ≡ false) entries
    → All (λ j. has j (add id ids) ≡ false) entries
All-has-add id ids [] h _ = tt
All-has-add id ids (j ∷ entries) h (new, news) = (
  ground (arith, has-add j id ids, same_comm j id),
  All-has-add id ids entries (ground (arith, h)) news,
)

All-of_has-add :
    (id : Text) (ids entries : List Text)
    → All (λ j. has j (add id ids) ≡ false) entries
    → (has id entries ≡ false) × All (λ j. has j ids ≡ false) entries
All-of_has-add id ids [] _ = (refl, tt)
All-of_has-add id ids (j ∷ entries) (new, news) =
    let (absent, olds) = All-of_has-add id ids entries news in
    (ground (arith, has-add j id ids, same_comm j id), (ground (arith, has-add j id ids), olds))

check_each_iff : (entries ids : List Text) → (check_each ids entries ≡ none) ↔ AreNew ids entries
unfolding check_each
check_each_iff [] ids = (λ _. (tt, tt, tt), λ _. refl)
check_each_iff (id ∷ entries) ids = elim (Bool-cases (not (is_extension_id id) || has id ids)) [
  | inl bad ↦ rw bad (
    λ e. absurd (ground (arith, e)),
    λ h. absurd (let ((ok, _), _, (new, _)) = h in ground (arith, bad, ok, new)),
  )
  | inr fine ↦ rw fine (
    λ e.
        let (valid, distinct, new) = (check_each_iff entries (add id ids)).0 e in
        let (absent, olds) = All-of_has-add id ids entries new in
        ((ground (arith, fine), valid), (absent, distinct), (ground (arith, fine), olds)),
    λ h.
        let ((_, valid), (absent, distinct), (_, olds)) = h in
        (check_each_iff entries (add id ids)).1
          (valid, distinct, All-has-add id ids entries absent olds),
  )
]

none_has : (entries : List Text) → All (λ id. has id [] ≡ false) entries
none_has [] = tt
none_has (id ∷ entries) = (refl, none_has entries)

-- Ids as they must be: of the right form, and none twice
abbrev pub AreIds : List Text → Type 0
AreIds ids = All (λ id. is_extension_id id ≡ true) ids × Distinct ids

-- `validateExtensions` accepts extensions exactly if the ids of the pages have the right form and are
-- distinct, and those of the settings sections too. A page and a section may share one.
pub validate_extensions_iff :
    (extensions : DashboardExtensions)
    → (validate_extensions extensions ≡ none) ↔ (
        AreIds (map (λ p. p.id) (or_none extensions.pages))
        × AreIds (map (λ s. s.id) (or_none extensions.settings_sections)))
unfolding validate_extensions
validate_extensions_iff extensions =
    let pages = map (λ p. p.id) (or_none extensions.pages) in
    let sections = map (λ s. s.id) (or_none extensions.settings_sections) in
    elim (Option-cases (check_each [] pages)) [
      | inl ok ↦
          let (valid, distinct, _) = (check_each_iff pages []).0 ok in
          rw (ok, validate_extensions)
            (
              λ e.
                  (let (v, d, _) = (check_each_iff sections []).0 e in ((valid, distinct), (v, d))),
              λ h. (check_each_iff sections []).1 (h.1.0, h.1.1, none_has sections),
            )
      | inr (id, bad) ↦
          rw (bad, validate_extensions)
            (
              λ e. absurd (ground (arith, e)),
              λ h. absurd (
                  let ok = (check_each_iff pages []).1 (h.0.0, h.0.1, none_has pages) in
                  ground (arith, ok, bad)),
            )
    ]

pub starts_with-append : (p t : Text) → starts_with p t ≡ true → t ≡ p ++ slice_from (length p) t
starts_with-append [] t h = refl
starts_with-append (c ∷ p) [] h = absurd (ground arith)
starts_with-append (c ∷ p) (d ∷ t) h =
    let same : c ≡ d = ground arith in
    let rest = starts_with-append p t (ground arith) in ap (λ x. x ∷ t) (sym same) ∙ ap (◌∷◌ c) rest

-- An id is told by what follows `extension:`.
pub slice_from-injective :
    (i j : Text)
    → is_extension_id i ≡ true
    → is_extension_id j ≡ true
    → slice_from 10 i ≡ slice_from 10 j
    → i ≡ j
unfolding is_extension_id
slice_from-injective i j hi hj e =
    starts_with-append (bytes "extension:") i (ground (arith, hi))
    ∙ ap (λ t. bytes "extension:" ++ t) e
    ∙ sym (starts_with-append (bytes "extension:") j (ground (arith, hj)))
