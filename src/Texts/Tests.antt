-- ===== src/Texts/Tests.antt =====
-- Texts that are trimmed and searched.
use tracium.Prelude.{◌≡◌, refl, true, [], ◌∷◌, ◌++◌}
use tracium.Uri.{bytes}
use tracium.Texts.{trim, trim_start, trim_end, includes}

trims : trim (bytes "  a key ") ≡ bytes "a key"
unfolding trim_start trim_end
trims = refl

blank : trim (bytes " " ++ 194 ∷ 160 ∷ []) ≡ []
unfolding trim_start trim_end
blank = refl

found : includes (bytes "api keys") (bytes "key") ≡ true
unfolding includes
found = refl
