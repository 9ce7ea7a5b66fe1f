-- ===== src/TraceInspector/Json/Groups.antt =====
-- Balanced groups of a text, described without the scan for their ends in
-- dashboard/src/modules/trace-inspector/utils/prettifyMaybeJson.ts.
use tracium.Prelude.{ℕ, ◌≡◌, true, false, [], ◌∷◌, ◌++◌, ◌===◌, number_key}
use tracium.Uri.{Text}
use tracium.TraceInspector.Json.{is_open, is_close}

-- The rest of a string literal, with the quote that ends it
pub data IsString : Text → Type 0 where
  quote : IsString (34 ∷ [])
  unit :
      {t : Text} (c : ℕ) → (c === 34) ≡ false → (c === 92) ≡ false → IsString t → IsString (c ∷ t)
  escape : {t : Text} (c : ℕ) → IsString t → IsString (92 ∷ c ∷ t)

-- What is behind the bracket that opens a group, with the bracket that closes it: units that are
-- neither bracket nor quote, string literals, and groups.
pub data IsInside : Text → Type 0 where
  shut : (c : ℕ) → is_close c ≡ true → IsInside (c ∷ [])
  unit :
      {t : Text} (c : ℕ)
      → is_open c ≡ false
      → is_close c ≡ false
      → (c === 34) ≡ false
      → IsInside t
      → IsInside (c ∷ t)
  string : {s t : Text} → IsString s → IsInside t → IsInside (34 ∷ (s ++ t))
  nested :
      {s t : Text} (c : ℕ) → is_open c ≡ true → IsInside s → IsInside t → IsInside (c ∷ (s ++ t))

-- A group: a bracket that opens, what is inside, and a bracket that closes. Either kind of bracket
-- may close either.
pub data IsGroup : Text → Type 0 where
  group : {t : Text} (c : ℕ) → is_open c ≡ true → IsInside t → IsGroup (c ∷ t)
