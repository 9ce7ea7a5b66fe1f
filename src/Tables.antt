-- ===== src/Tables.antt =====
-- Tables that a click on a header sorts, as WorkflowsPage.tsx and UsersPage.tsx of dashboard/src/modules
-- have them. `collate` is the host's `localeCompare`.
pub mod Order
pub mod Samples
use tracium.Prelude.{ℕ, Bool, true, false, List, [], ◌∷◌, if◌then◌else◌, Key, ◌===◌}
use tracium.Prelude.Int.{ℤ, pos, sub_ℕ}
use tracium.Uri.{Text}

pub data Cell : Type 0 where
  text : Text → Cell
  number : ℕ → Cell
  blank : Cell

pub data SortDir : Type 0 where
  asc desc : SortDir

abbrev pub flip : SortDir → SortDir
flip asc = desc
flip desc = asc

abbrev pub compare_cells : (Text → Text → ℤ) → Cell → Cell → ℤ
compare_cells collate (text a) (text b) = collate a b
compare_cells collate (number a) (number b) = sub_ℕ a b
compare_cells collate _ _ = pos 0

module _ {ℓ κ} {A : Type ℓ} {K : Type κ} where
  -- The comparator of a column
  abbrev pub compare_rows : (Text → Text → ℤ) → (K → A → Cell) → SortDir → K → A → A → ℤ
  compare_rows collate cell asc k a b = compare_cells collate (cell k a) (cell k b)
  compare_rows collate cell desc k a b = compare_cells collate (cell k b) (cell k a)

pub record SortState {κ} (K : Type κ) : Type κ where
  pub key : K
  pub dir : SortDir

-- A click on a header
abbrev pub toggle_sort {κ} : {K : Type κ} ⦃k : Key K⦄ → K → SortState K → SortState K
toggle_sort k s =
    if s.key === k then record { key = k; dir = flip s.dir } else record { key = k; dir = desc }
