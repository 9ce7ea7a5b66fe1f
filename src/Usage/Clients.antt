-- ===== src/Usage/Clients.antt =====
-- The list of the clients: dashboard/src/modules/usage/pages/UsersPage.tsx. Only demo rows carry a
-- region, a rate of success and a last time; costs and rates are counted in whole units of a scale.
pub mod Rows
mod Tests
use tracium.Prelude.{
  ℕ, ◌≡◌, ◌↔◌, Bool, true, false, ◌&&◌, ◌||◌, not, List, [], ◌∷◌, Option, none, some, arith,
  if◌then◌else◌, any, select, Key,
}
use tracium.Prelude.Int.{ℤ}
use tracium.Prelude.Sort.{sort}
use tracium.Uri.{Text}
use tracium.Texts.{is_empty, includes, trim}
use tracium.Tables.{Cell, SortDir, desc, compare_rows, SortState, toggle_sort}

pub record User : Type 0 where
  pub id : Text
  pub name : Text
  pub region : Option Text
  pub runs : ℕ
  pub cost : ℕ
  pub avg : ℕ
  pub success : Option ℕ
  pub last_seen : Option ℕ
  pub trend : List ℕ

pub data UserSortKey : Type 0 where
  name region runs cost avg success last_seen : UserSortKey

abbrev pub same_key : UserSortKey → UserSortKey → Bool
same_key name name = true
same_key region region = true
same_key runs runs = true
same_key cost cost = true
same_key avg avg = true
same_key success success = true
same_key last_seen last_seen = true
same_key _ _ = false

pub same_key_iff : (j k : UserSortKey) → (same_key j k ≡ true) ↔ (j ≡ k)
same_key_iff j k = ground arith

instance abbrev pub user_sort_key : Key UserSortKey
user_sort_key = record { same = same_key; same_iff = same_key_iff }

abbrev pub text_cell : Option Text → Cell
text_cell none = Cell.blank
text_cell (some t) = Cell.text t

abbrev pub number_cell : Option ℕ → Cell
number_cell none = Cell.blank
number_cell (some n) = Cell.number n

-- `a[sort.key]`
abbrev pub cell : UserSortKey → User → Cell
cell name t = Cell.text t.name
cell region t = text_cell t.region
cell runs t = Cell.number t.runs
cell cost t = Cell.number t.cost
cell avg t = Cell.number t.avg
cell success t = number_cell t.success
cell last_seen t = number_cell t.last_seen

-- The columns that `meta` marks
abbrev pub is_meta : UserSortKey → Bool
is_meta region = true
is_meta success = true
is_meta last_seen = true
is_meta _ = false

abbrev pub has_region : User → Bool
has_region t = elim t.region [ none ↦ false | some r ↦ true ]

abbrev pub has_meta : List User → Bool
has_meta users = any has_region users

-- Whether the header of a column is there
abbrev pub is_visible : List User → UserSortKey → Bool
is_visible users k = not (is_meta k) || has_meta users

pub record Page : Type 0 where
  pub search : Text
  pub sort : SortState UserSortKey

abbrev pub open_users : Page
open_users = record { search = []; sort = record { key = cost; dir = desc } }

abbrev pub matches : (Text → Text) → Text → User → Bool
matches lower search t =
    let q = lower (trim search) in
    is_empty (trim search) || includes (lower t.name) q || includes (lower t.id) q

-- `sorted`
unfoldable pub sorted : (Text → Text) → (Text → Text → ℤ) → Page → List User → List User
sorted lower collate page users =
    sort (compare_rows collate cell page.sort.dir page.sort.key)
      (select (matches lower page.search) users)

pub data Event : Type 0 where
  click_header : UserSortKey → Event
  type_search : Text → Event
  clear_search : Event

abbrev pub step : List User → Event → Page → Page
step users (click_header k) page =
    if is_visible users k then record page { sort = toggle_sort k page.sort } else page
step users (type_search t) page = record page { search = t }
step users clear_search page = record page { search = [] }

abbrev pub steps : List User → List Event → Page → Page
steps users [] page = page
steps users (e ∷ es) page = steps users es (step users e page)
