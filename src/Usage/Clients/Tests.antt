-- ===== src/Usage/Clients/Tests.antt =====
-- A session with the list, and the property at a concrete input.
use tracium.Prelude.{ℕ, ◌≡◌, refl, List, [], ◌∷◌, none, String}
use tracium.Uri.{Text, bytes}
use tracium.Tables.{asc}
use tracium.Usage.Clients.{User, region, runs, open_users, Event, click_header, type_search, steps}

abbrev user : String → ℕ → ℕ → User
user title count price = record {
  id = bytes title;
  name = bytes title;
  region = none;
  runs = count;
  cost = price;
  avg = 0;
  success = none;
  last_seen = none;
  trend = [];
}

abbrev as_is : Text → Text
as_is t = t

abbrev users : List User
users = user "acme" 5 3 ∷ user "helix" 5 9 ∷ user "orbit" 2 1 ∷ []

-- The header of the regions is not there.
abbrev session : List Event
session =
    click_header runs ∷ click_header region ∷ click_header runs ∷ type_search (bytes " e ") ∷ []

chosen : (steps users session open_users).sort ≡ record { key = runs; dir = asc }
chosen = refl
