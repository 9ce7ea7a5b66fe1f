-- ===== src/Extensions.antt =====
-- The extensions that an embedding application registers: dashboard/src/extensions.ts. What they
-- render is left out; an id is held as the list of its bytes.
pub mod Ids
mod Tests
use tracium.Prelude.{
  ℕ, zero, suc, ◌≡◌, ◌↔◌, refl, Bool, true, false, ◌&&◌, ◌||◌, not, List, [], ◌∷◌, ◌++◌, map,
  Option, none, some, String, arith, if◌then◌else◌, Key, ◌===◌, number_key, number_same,
}
use tracium.Prelude.Maps.{has, add}
use tracium.Uri.{Text, bytes, within}

-- Texts are compared by `===` as well.
abbrev pub bytes_same : Text → Text → Bool
bytes_same [] [] = true
bytes_same [] (d ∷ t) = false
bytes_same (c ∷ s) [] = false
bytes_same (c ∷ s) (d ∷ t) = number_same c d && bytes_same s t

pub bytes_same_iff : (s t : Text) → (bytes_same s t ≡ true) ↔ (s ≡ t)
bytes_same_iff [] [] = (λ _. refl, λ _. refl)
bytes_same_iff [] (d ∷ t) = (λ h. absurd (ground arith), λ e. absurd (ground arith))
bytes_same_iff (c ∷ s) [] = (λ h. absurd (ground arith), λ e. absurd (ground arith))
bytes_same_iff (c ∷ s) (d ∷ t) = ground (arith, bytes_same_iff s t)

instance abbrev pub bytes_key : Key Text
bytes_key = record { same = bytes_same; same_iff = bytes_same_iff }

pub record ExtensionPage : Type 0 where
  pub id : Text
  pub label : String
  pub requires_workspace : Option Bool

pub record SettingsSection : Type 0 where
  pub id : Text
  pub label : String

pub record DashboardExtensions : Type 0 where
  pub pages : Option (List ExtensionPage)
  pub settings_sections : Option (List SettingsSection)
  pub ingest_endpoint : Option String

-- `text.startsWith(prefix)`, and `text.slice(n)`
abbrev pub starts_with : Text → Text → Bool
starts_with [] t = true
starts_with (c ∷ p) [] = false
starts_with (c ∷ p) (d ∷ t) = number_same c d && starts_with p t

abbrev pub slice_from : ℕ → Text → Text
slice_from zero t = t
slice_from (suc n) [] = []
slice_from (suc n) (c ∷ t) = slice_from n t

-- [a-z0-9-]
abbrev pub is_id_byte : ℕ → Bool
is_id_byte c = within 97 122 c || (within 48 57 c || number_same c 45)

abbrev pub all_id_bytes : Text → Bool
all_id_bytes [] = true
all_id_bytes (c ∷ t) = is_id_byte c && all_id_bytes t

-- [a-z][a-z0-9-]*
abbrev pub is_id_name : Text → Bool
is_id_name [] = false
is_id_name (c ∷ t) = within 97 122 c && all_id_bytes t

-- /^extension:[a-z][a-z0-9-]*$/
unfoldable pub is_extension_id : Text → Bool
is_extension_id id = starts_with (bytes "extension:") id && is_id_name (slice_from 10 id)

-- One of the inner loops: the id that is thrown, if one is
unfoldable pub check_each : List Text → List Text → Option Text
check_each ids [] = none
check_each ids (id ∷ entries) =
    let rest = check_each (add id ids) entries in
    if not (is_extension_id id) || has id ids then some id else rest

abbrev pub or_none {ℓ} : {A : Type ℓ} → Option (List A) → List A
or_none none = []
or_none (some l) = l

-- `none` accepts the extensions; an id is the one that the error names.
unfoldable pub validate_extensions : DashboardExtensions → Option Text
validate_extensions extensions =
    let sections = check_each [] (map (λ s. s.id) (or_none extensions.settings_sections)) in
    elim (check_each [] (map (λ p. p.id) (or_none extensions.pages))) [
      | some id ↦ some id
      | none ↦ sections
    ]
