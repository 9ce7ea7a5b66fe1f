-- ===== src/ApiKeys/Tests.antt =====
-- Runs of the keys page, and its theorems at a concrete session.
use tracium.Prelude.{◌≡◌, refl, not, List, [], ◌∷◌, none, some, length, select, ◌===◌, arith}
use tracium.Uri.{bytes}
use tracium.Extensions.{bytes_key}
use tracium.Texts.{trim_start, trim_end}
use tracium.ApiKeys.{ApiKeyRecord, CreatedApiKey, made, Event, start, step, steps, active}
use tracium.ApiKeys.Demo.{demo_key, seed_demo_keys, revoke_key, active-revoke_key}
use tracium.ApiKeys.Consistent.{IsConsistent, steps-start}

abbrev a_key : CreatedApiKey
a_key = record {
  key = record (demo_key (bytes "k1") (bytes "Laptop") (bytes "trc_12345678") [] none none) {
    workspace_id = bytes "w1";
  };
  token = bytes "trc_123456789";
}

-- A key is asked for, the page goes to another workspace and back, and the answer comes between.
abbrev session : List Event
session =
    Event.type_name (bytes "Laptop")
    ∷ Event.submit
    ∷ Event.switch (some (bytes "w2"))
    ∷ Event.submit
    ∷ Event.answered 0 (made a_key)
    ∷ Event.switch (some (bytes "w1"))
    ∷ []

abbrev quick : List Event
quick = Event.type_name (bytes " Laptop ") ∷ Event.submit ∷ Event.answered 0 (made a_key) ∷ []

unheard : (steps (start (some (bytes "w1"))) session).view.created ≡ none
unfolding step start trim_start trim_end
unheard = refl

revealed : (steps (start (some (bytes "w1"))) quick).view.created ≡ some a_key
unfolding step start trim_start trim_end
revealed = refl

steps-start_example : IsConsistent (steps (start (some (bytes "w1"))) session)
unfolding step start trim_start trim_end
steps-start_example =
    steps-start (some (bytes "w1")) session
      (tt, (tt, (tt, (tt, ((λ request rest e. ground (arith, e)), (tt, tt))))))

abbrev seed : List ApiKeyRecord
seed = seed_demo_keys (λ ago. bytes "2026-01-01T00:00:00.000Z")

active-revoke_key_example :
    active (revoke_key (bytes "2026-02-01T00:00:00.000Z") (bytes "demo-prod") seed)
    ≡ select (λ k. not (k.id === bytes "demo-prod")) (active seed)
active-revoke_key_example =
    active-revoke_key (bytes "2026-02-01T00:00:00.000Z") (bytes "demo-prod") seed refl

one_left : length (active (revoke_key (bytes "2026") (bytes "demo-prod") seed)) ≡ 1
unfolding revoke_key seed_demo_keys
one_left = refl
