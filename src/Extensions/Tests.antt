-- ===== src/Extensions/Tests.antt =====
-- Runs of the validation, and its property at a concrete input.
use tracium.Prelude.{◌≡◌, ◌↔◌, refl, false, [], ◌∷◌, map, none, some}
use tracium.Uri.{bytes}
use tracium.Extensions.{
  ExtensionPage, SettingsSection, DashboardExtensions, or_none, is_extension_id, check_each,
  validate_extensions,
}
use tracium.Extensions.Ids.{AreIds, validate_extensions_iff}

abbrev page : ExtensionPage
page = record { id = bytes "extension:billing"; label = "Billing"; requires_workspace = some false }

abbrev section : SettingsSection
section = record { id = bytes "extension:billing"; label = "Billing" }

abbrev extensions : DashboardExtensions
extensions = record {
  pages = some (page ∷ []);
  settings_sections = some (section ∷ []);
  ingest_endpoint = none;
}

accepted : validate_extensions extensions ≡ none
unfolding validate_extensions check_each is_extension_id
accepted = refl

twice :
    validate_extensions
      (record { pages = some (page ∷ page ∷ []); settings_sections = none; ingest_endpoint = none })
    ≡ some (bytes "extension:billing")
unfolding validate_extensions check_each is_extension_id
twice = refl

capital : is_extension_id (bytes "extension:Billing") ≡ false
unfolding is_extension_id
capital = refl

validate_extensions_iff_example : (validate_extensions extensions ≡ none) ↔ (
    AreIds (map (λ (p : ExtensionPage). p.id) (or_none extensions.pages))
    × AreIds (map (λ (s : SettingsSection). s.id) (or_none extensions.settings_sections)))
validate_extensions_iff_example = validate_extensions_iff extensions
