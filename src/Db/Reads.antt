-- ===== src/Db/Reads.antt =====
-- src/db/queries.rs: the reads of periods that the forms need. The queries join the people of a
-- period; `format` is how a stored day is written, and dates are compared as texts.
use kehrkraft.Prelude.{
  ℕ, Bool, true, false, not, ◌&&◌, List, [], ◌∷◌, Option, none, some, Text, any, filter, find, ltb,
  ◌==◌, if◌then◌else◌,
}
use kehrkraft.Scheduler.{text_lt}
use kehrkraft.Db.Period.{Period, covers, find_row, max_of}
use kehrkraft.Db.Store.{Store, PeriodPeopleTable, periods, links, ApartmentRow}

-- `get_apartment`.
unfoldable pub get_apartment : Store → ℕ → Option ApartmentRow
get_apartment s id = find (λ a. a.id == id) s.apartments

-- The inner joins: a period without people has no row.
unfoldable pub has_people : PeriodPeopleTable → Store → Period → Bool
has_people table s p =
    any (λ l. (l.period == p.id) && any (λ q. q.id == l.person) s.people) (links table s)

abbrev pub joined : Bool → Period → Option Period
joined true p = some p
joined false p = none

abbrev pub joined_row : PeriodPeopleTable → Store → Option Period → Option Period
joined_row table s none = none
joined_row table s (some p) = joined (has_people table s p) p

-- `get_ownership` and `get_building_owner`.
unfoldable pub get_period : PeriodPeopleTable → Store → ℕ → Option Period
get_period table s id = joined_row table s (find_row id (periods table s))

-- The one that starts later, of the same start the first one.
abbrev pub later_start : Period → Option Period → Option Period
later_start p none = some p
later_start p (some q) = if ltb p.start q.start then some q else some p

-- ORDER BY start_date DESC, the first row.
unfoldable pub latest_start : List Period → Option Period
latest_start [] = none
latest_start (p ∷ rows) = later_start p (latest_start rows)

-- `get_current_building_owner`, and its like for an apartment.
unfoldable pub get_current : PeriodPeopleTable → Store → ℕ → Option Period
get_current table s subject = latest_start (
    filter (λ p. (p.subject == subject) && covers s.today p && has_people table s p)
      (periods table s))

module _ (format : ℕ → Text) where
  abbrev pub text_le : Text → Text → Bool
  text_le a b = not (text_lt b a)

  abbrev pub ends_from : Text → Option ℕ → Bool
  ends_from date none = true
  ends_from date (some e) = text_le date (format e)

  -- `get_ownership_on` and `get_building_owner_on`.
  unfoldable pub get_period_on : PeriodPeopleTable → Store → ℕ → Text → Option Period
  get_period_on table s subject date = latest_start (
      filter
        (λ p.
          (p.subject == subject)
          && text_le (format p.start) date
          && ends_from date p.end
          && has_people table s p)
        (periods table s))

  abbrev pub ended_text : Text → Period → Option ℕ
  ended_text date p = elim p.end [
    | none ↦ none
    | some e ↦ if text_lt (format e) date then some e else none
  ]

  unfoldable pub max_end : Text → List Period → Option ℕ
  max_end date [] = none
  max_end date (p ∷ rows) = max_of (ended_text date p) (max_end date rows)

  -- `get_ownership_end_before` and `get_building_owner_end_before`.
  unfoldable pub get_end_before : PeriodPeopleTable → Store → ℕ → Text → Option ℕ
  get_end_before table s subject date =
      max_end date (filter (λ p. p.subject == subject) (periods table s))
