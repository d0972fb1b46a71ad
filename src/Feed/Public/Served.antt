-- ===== src/Feed/Public/Served.antt =====
-- What a subscriber of the feed is answered.
use kehrkraft.Prelude.{
  suc, ◌≤◌, arith, ℕ, ◌+◌, ◌≡◌, refl, Bool, true, List, [], ◌∷◌, Option, some, Text,
}
use kehrkraft.Calendar.{Calendar}
use kehrkraft.Models.{Building}
use kehrkraft.Scheduler.{
  WeekAssignment, Outcome, ok, ◌>>=◌, Queries, Roster, load_roster, schedule_for_year,
}
use kehrkraft.Scheduler.Loading.{IsReadable, schedule_for_year-total}
use kehrkraft.Scheduler.Weeks.{IsRest, schedule_for_year-IsRest}
use kehrkraft.Feed.{Ui, ical_document}
use kehrkraft.Feed.Fold.{is_narrow, ical_document-is_narrow}
use kehrkraft.Feed.Public.{schedules_from, disposition, calendar, public_ical}

two_schedules :
    (schedule : ℕ → Outcome (List WeekAssignment)) (year : ℕ) (first second : List WeekAssignment)
    → schedule year ≡ ok first
    → schedule (year + 1) ≡ ok second
    → schedules_from schedule 2 year ≡ ok (first ∷ second ∷ [])
unfolding schedules_from
two_schedules schedule year first second e f = rw (e, f, ◌>>=◌)

reached :
    (cal : Calendar) (y : ℕ)
    → cal.week_one (suc (y + 1)) ≤ cal.max_day
    → cal.week_one (suc y) ≤ cal.max_day
reached cal y h =
    let e : y + 1 ≡ suc y = omega arith in
    let later : cal.week_one (suc (suc y)) ≤ cal.max_day = rw e at h in
    omega (arith, later, cal.week_one-suc (suc y))

-- A request with the slug of a building whose schedule can be read is answered by a calendar, where
-- the year after the next one starts within the days of chrono: its body is the document of the complete schedules of the year and of the next year, and no physical
-- line of it has more than 75 octets.
pub public_ical-served :
    (is_header_value : Text → Bool) (cal : Calendar) (q : Queries)
    (by_slug : Text → Option (Option Building)) (year : ℕ) (ui : Ui) (slug : Text) (b : Building)
    → cal.week_one (suc (year + 1)) ≤ cal.max_day
    → by_slug slug ≡ some (some b)
    → IsReadable cal q b.id
    → (r : Roster) × (load_roster cal q b.id ≡ ok r)
      × (first : IsRest cal r year 0 (schedule_for_year cal q b.id year)) × (second : IsRest cal r
          (year + 1)
          0
          (schedule_for_year cal q b.id (year + 1)))
      × (body : Text) × (public_ical is_header_value cal q by_slug year ui slug
          ≡ calendar (disposition is_header_value b.name) body)
      × (body ≡ ical_document ui b.name b.secret_slug (first.list ∷ second.list ∷ []))
      × (is_narrow 0 body ≡ true)
unfolding public_ical
public_ical-served is_header_value cal q by_slug year ui slug b reaches found h =
    let (r, e, first) = schedule_for_year-total cal q b.id year (reached cal year reaches) h in
    let second = schedule_for_year-IsRest cal q b.id (year + 1) r reaches e in
    let both =
      two_schedules (schedule_for_year cal q b.id) year first.list second.list first.returns
        second.returns in
    (
      r,
      e,
      first,
      second,
      ical_document ui b.name b.secret_slug (first.list ∷ second.list ∷ []),
      rw (found, both),
      refl,
      ical_document-is_narrow ui b.name b.secret_slug (first.list ∷ second.list ∷ []),
    )
