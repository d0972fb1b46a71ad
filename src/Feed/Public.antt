-- ===== src/Feed/Public.antt =====
-- src/web/ical.rs: the texts of the feed, and its handler `public_ical`. `format` is chrono's
-- formatting of a day, `is_header_value` says which texts `HeaderValue::from_str` takes, `by_slug`
-- is the query `get_building_by_slug`, and `year` the year of the local time.
use kehrkraft.Prelude.{
  ℕ, ◌+◌, ◌-◌, Bool, ◌&&◌, List, [], ◌∷◌, ◌++◌, map, Option, none, some, zero, suc, Text, leb,
  if◌then◌else◌,
}
use kehrkraft.Calendar.{Calendar}
use kehrkraft.Models.{Building}
use kehrkraft.Models.Names.{chars}
use kehrkraft.I18n.{Lang, lang_code, msg, msgf, date_format}
use kehrkraft.Pdf.{sanitize_filename}
use kehrkraft.Scheduler.{
  WeekAssignment, Outcome, ok, err, panic, stuck, ◌>>=◌, Queries, schedule_for_year,
}
use kehrkraft.Feed.{Ui, ical_document}
pub mod Served
mod Tests

-- `str::to_uppercase` of an ASCII text.
abbrev pub to_uppercase : Text → Text
to_uppercase s = map (λ c. if leb b'a' c && leb c b'z' then c - 32 else c) s

-- The texts in a language, at the time `now`.
abbrev pub ui_of : (Text → ℕ → Text) → Text → Lang → Ui
ui_of format now lang = record {
  lang_code = to_uppercase (lang_code lang);
  unassigned = msg lang (chars "schedule.unassigned");
  summary = λ week name. msgf lang (chars "ical.summary") (week ∷ name ∷ []);
  building = λ name. msgf lang (chars "ical.building") (name ∷ []);
  date = format (date_format lang);
  basic_date = format (chars "%Y%m%d");
  now = now;
}

-- The answers, without the language of their texts; `calendar` has the header
-- `Content-Disposition` and the body. A handler that panics, or a loop without an end, is `lost`.
pub data Response : Type 0 where
  not_found database_error schedule_failed lost : Response
  calendar : Text → Text → Response

-- The loop over the years, `count` of them from `year` on.
unfoldable pub schedules_from :
    (ℕ → Outcome (List WeekAssignment)) → ℕ → ℕ → Outcome (List (List WeekAssignment))
schedules_from schedule zero year = ok []
schedules_from schedule (suc count) year = do
  s ← schedule year
  schedules ← schedules_from schedule count (year + 1)
  ok (s ∷ schedules)

abbrev pub feed_years : ℕ
feed_years = 2

module _ (is_header_value : Text → Bool) where
  abbrev pub disposition : Text → Text
  disposition name =
      let value =
        chars "inline; filename=\"Kehrwoche-" ++ (sanitize_filename name ++ chars ".ics\"") in
      if is_header_value value then value else chars "inline"

  abbrev pub composed : Ui → Building → Outcome (List (List WeekAssignment)) → Response
  composed ui b (ok schedules) =
      calendar (disposition b.name) (ical_document ui b.name b.secret_slug schedules)
  composed ui b (err e) = schedule_failed
  composed ui b panic = lost
  composed ui b stuck = lost

  module _ (cal : Calendar) (q : Queries) (by_slug : Text → Option (Option Building)) where
    abbrev pub answered : ℕ → Ui → Option (Option Building) → Response
    answered year ui none = database_error
    answered year ui (some none) = not_found
    answered year ui (some (some b)) =
        composed ui b (schedules_from (schedule_for_year cal q b.id) feed_years year)

    unfoldable pub public_ical : ℕ → Ui → Text → Response
    public_ical year ui slug = answered year ui (by_slug slug)
