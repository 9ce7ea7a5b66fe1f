-- ===== src/Tables/Order.antt =====
-- The order of the rows.
use tracium.Prelude.{ℕ, ◌≡◌, refl, sym, ◌∙◌, Bool, true, List, arith, select, leb}
use tracium.Prelude.Int.{ℤ, sub_ℕ, is_nonpos}
use mathlib.Core.List.{Perm}
use tracium.Prelude.Sort.{
  before, sort, sort-perm, IsComparator, IsSorted, sort-IsSorted, select-sort,
}
use tracium.Uri.{Text}
use tracium.Tables.{Cell, text, number, SortDir, asc, desc, compare_rows}

-- A column of texts or one of numbers
pub data IsColumn {ℓ} {A : Type ℓ} (f : A → Cell) : Type ℓ where
  texts : (g : A → Text) → ((a : A) → f a ≡ text (g a)) → IsColumn f
  numbers : (g : A → ℕ) → ((a : A) → f a ≡ number (g a)) → IsColumn f

pub nonpos-sub_ℕ : (a b : ℕ) → is_nonpos (sub_ℕ a b) ≡ leb a b
nonpos-sub_ℕ a b = ground arith

module _ {ℓ κ} {A : Type ℓ} {K : Type κ} (collate : Text → Text → ℤ) (cell : K → A → Cell) where
  before-texts :
      (k : K) (g : A → Text) (e : (a : A) → cell k a ≡ text (g a)) (a b : A)
      → before (compare_rows collate cell asc k) a b ≡ before collate (g a) (g b)
  before-texts k g e a b = rw (e a) (rw (e b) refl)

  before-numbers :
      (k : K) (g : A → ℕ) (e : (a : A) → cell k a ≡ number (g a)) (a b : A)
      → before (compare_rows collate cell asc k) a b ≡ leb (g a) (g b)
  before-numbers k g e a b = rw (e a) (rw (e b) (nonpos-sub_ℕ (g a) (g b)))

  asc-IsComparator :
      (k : K)
      → IsComparator collate
      → IsColumn (cell k)
      → IsComparator (compare_rows collate cell asc k)
  asc-IsComparator k c (texts g e) =
      let as_texts = before-texts k g e in
      record {
        total = λ a b h. as_texts b a ∙ c.total (g a) (g b) (sym (as_texts a b) ∙ h);
        trans = λ a b d h i.
            as_texts a d
            ∙ c.trans (g a) (g b) (g d) (sym (as_texts a b) ∙ h) (sym (as_texts b d) ∙ i);
      }
  asc-IsComparator k c (numbers g e) =
      let as_numbers = before-numbers k g e in
      record {
        total = λ a b h. as_numbers b a ∙ ground (arith, sym (as_numbers a b) ∙ h);
        trans = λ a b d h i.
            as_numbers a d ∙ ground (arith, sym (as_numbers a b) ∙ h, sym (as_numbers b d) ∙ i);
      }

  pub rows-IsComparator :
      (dir : SortDir) (k : K)
      → IsComparator collate
      → IsColumn (cell k)
      → IsComparator (compare_rows collate cell dir k)
  rows-IsComparator asc k c column = asc-IsComparator k c column
  rows-IsComparator desc k c column =
      let up = asc-IsComparator k c column in
      record { total = λ a b h. up.total b a h; trans = λ a b d h i. up.trans d b a i h }

-- The rows of a list that pass a test, each as often as before, in the order of a comparator; rows
-- between which it does not choose stay as they were.
pub record IsTable {ℓ} {A : Type ℓ} (cmp : A → A → ℤ) (p : A → Bool) (rows shown : List A)
    : Type ℓ where
  pub holds : Perm shown (select p rows)
  pub in_order : IsSorted cmp shown
  pub stable :
      (q : A → Bool)
      → ((a b : A) → q a ≡ true → q b ≡ true → before cmp a b ≡ true)
      → select q shown ≡ select q (select p rows)

pub sort-IsTable {ℓ} :
    {A : Type ℓ} (cmp : A → A → ℤ) (p : A → Bool) (rows : List A)
    → IsComparator cmp
    → IsTable cmp p rows (sort cmp (select p rows))
sort-IsTable cmp p rows c = record {
  holds = sort-perm cmp (select p rows);
  in_order = sort-IsSorted cmp c (select p rows);
  stable = λ q tied. select-sort cmp q tied (select p rows);
}
