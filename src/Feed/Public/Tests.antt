-- ===== src/Feed/Public/Tests.antt =====
-- The feed of a small building.
use kehrkraft.Prelude.{
  ◌+◌, ◌≡◌, refl, Bool, true, [], ◌∷◌, Option, some, none, Text, text_eq, if◌then◌else◌,
}
use kehrkraft.Calendar.Gregorian.{gregorian}
use kehrkraft.Models.{Building}
use kehrkraft.Models.Names.{chars}
use kehrkraft.I18n.{en}
use kehrkraft.Scheduler.{ok, Roster, load_roster, schedule_for_year}
use kehrkraft.Scheduler.Samples.{house, sample, sample-IsReadable, week_one_2028-le}
use kehrkraft.Scheduler.Weeks.{IsRest}
use kehrkraft.Feed.{Ui, ical_document}
use kehrkraft.Feed.Fold.{is_narrow}
use kehrkraft.Feed.Public.{ui_of, disposition, not_found, calendar, public_ical}
use kehrkraft.Feed.Public.Served.{public_ical-served}

abbrev any_value : Text → Bool
any_value t = true

abbrev by_slug : Text → Option (Option Building)
by_slug slug = some (if text_eq slug (chars "slug") then some house else none)

-- The year in all formats.
abbrev english : Ui
english = ui_of (λ format day. chars "2026") (chars "20260101T000000Z") en

unknown_slug : public_ical any_value gregorian sample by_slug 2026 english [] ≡ not_found
unfolding public_ical text_eq
unknown_slug = refl

house_is_found : by_slug (chars "slug") ≡ some (some house)
unfolding text_eq
house_is_found = refl

public_ical-served_example :
    (r : Roster) × (load_roster gregorian sample 1 ≡ ok r)
    × (first : IsRest gregorian r 2026 0 (schedule_for_year gregorian sample 1 2026))
    × (second : IsRest gregorian r (2026 + 1) 0 (schedule_for_year gregorian sample 1 (2026 + 1)))
    × (body : Text) × (public_ical any_value gregorian sample by_slug 2026 english (chars "slug")
        ≡ calendar (disposition any_value (chars "Haus")) body)
    × (body ≡ ical_document english (chars "Haus") (chars "slug") (first.list ∷ second.list ∷ []))
    × (is_narrow 0 body ≡ true)
public_ical-served_example =
    public_ical-served any_value gregorian sample by_slug 2026 english (chars "slug") house
      week_one_2028-le house_is_found sample-IsReadable
