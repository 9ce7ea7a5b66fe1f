-- ===== src/Tables/Samples.antt =====
-- A collation for the examples: by length.
use tracium.Prelude.{◌≡◌, sym, ◌∙◌, leb, length, arith}
use tracium.Prelude.Int.{ℤ, sub_ℕ}
use tracium.Prelude.Sort.{before, IsComparator}
use tracium.Uri.{Text}
use tracium.Tables.Order.{nonpos-sub_ℕ}

abbrev pub by_length : Text → Text → ℤ
by_length s t = sub_ℕ (length s) (length t)

before-leb : (s t : Text) → before by_length s t ≡ leb (length s) (length t)
before-leb s t = nonpos-sub_ℕ (length s) (length t)

pub by_length-IsComparator : IsComparator by_length
by_length-IsComparator = record {
  total = λ s t h. before-leb t s ∙ ground (arith, sym (before-leb s t) ∙ h);
  trans = λ s t u h i.
      before-leb s u ∙ ground (arith, sym (before-leb s t) ∙ h, sym (before-leb t u) ∙ i);
}
