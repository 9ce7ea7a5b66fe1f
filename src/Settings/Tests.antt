-- ===== src/Settings/Tests.antt =====
-- Slugs, and sessions with the form for a workspace and with the members.
use tracium.Prelude.{◌≡◌, refl, true, false, List, [], ◌∷◌, length}
use tracium.Uri.{Text, bytes}
use tracium.Texts.{trim_start, trim_end}
use tracium.Settings.Slug.{dash_runs, drop_front, drop_back, slugify}
use tracium.Settings.Slug.Laws.{is_slug}
use tracium.Settings.Slug.Letters.{letters, slugify_lem}
use tracium.Settings.Create.{TabId, Event, made, open_settings, step, steps}
use tracium.Settings.Create.Sent.{IsSound, steps-open_settings}
use tracium.Settings.Members
use tracium.Settings.Members.{done, remove, action_answered, open_members}
use tracium.Settings.Members.Busy.{IsTold, steps-open_members}

abbrev as_is : Text → Text
as_is t = t

abbrev messy : Text
messy = bytes " acme --  production!"

slug : slugify as_is messy ≡ bytes "acme-production"
unfolding slugify dash_runs drop_front drop_back trim_start trim_end
slug = refl

slugify_lem_example :
    (is_slug (slugify as_is messy) ≡ true)
    × (letters (slugify as_is messy) ≡ letters messy)
    × (messy ≡ messy → is_slug messy ≡ true → slugify as_is messy ≡ messy)
slugify_lem_example = slugify_lem as_is messy

-- The form is left while the server works, and another one is opened.
abbrev session : List Event
session =
    Event.type_name (bytes "Acme")
    ∷ Event.submit
    ∷ Event.submit
    ∷ Event.cancel
    ∷ Event.select_tab TabId.members
    ∷ Event.select_tab TabId.workspace
    ∷ Event.create_another
    ∷ Event.answered 0 (made (bytes "w1"))
    ∷ []

once :
    length
      (steps as_is
        (open_settings true false)
        (Event.type_name (bytes "Acme") ∷ Event.submit ∷ Event.submit ∷ [])).in_flight
    ≡ 1
unfolding step open_settings slugify dash_runs drop_front drop_back trim_start trim_end
once = refl

steps-open_settings_example : IsSound (steps as_is (open_settings true false) session)
steps-open_settings_example = steps-open_settings as_is true false session

-- A member is removed while another one still is; the answer about the second enables the button of
-- the first again.
abbrev removals : List Members.Event
removals =
    remove (bytes "m1")
    ∷ remove (bytes "m2")
    ∷ action_answered 1 "failed" (done tt)
    ∷ remove (bytes "m1")
    ∷ []

removed_twice : (Members.steps removals open_members).actions ≡ bytes "m1" ∷ bytes "m1" ∷ []
unfolding Members.step
removed_twice = refl

steps-open_members_example : IsTold (Members.steps removals open_members)
steps-open_members_example = steps-open_members removals
