-- ===== src/Admin/Answers.antt =====
-- src/web/admin.rs: the answers of the handlers of owners, and the question before an end in the past.
-- An answer carries what its page is rendered from; other reads of the database do not fail.
use kehrkraft.Prelude.{
  ℕ, suc, ◌-◌, Bool, true, false, ◌&&◌, List, [], ◌∷◌, ◌++◌, Option, none, some, Text, leb, ltb,
  ◌==◌, if◌then◌else◌,
}
use kehrkraft.Models.Names.{chars}
use kehrkraft.Db.Period.{Period, ErrorCode}
use kehrkraft.Db.Store.{
  Store, DbError, rejected, constraint, row_not_found, panicked, PeriodPeopleTable, ownership,
  building_owner, ApartmentRow,
}
use kehrkraft.Db.Periods.{has_uncovered_apartment}
use kehrkraft.Db.Reads.{get_apartment, get_current}
use kehrkraft.Admin.Forms.{OwnerInput, seed_person_rows}

-- The end that is asked about, and the day after it.
pub record EndDateWarning : Type 0 where
  pub end_date : Text
  pub uncovered_from : Text

-- A key of the catalog with arguments, the refusal that names a period and its end, or what the
-- database says.
pub data Message : Type 0 where
  keyed : Text → List Text → Message
  declined : Period → Text → Message
  from_db : List ErrorCode → Message

-- A redirect to the page of the apartment or building or of the edited period,
-- a page that shows a message, a question, or an error. A handler that panics is `crashed`.
pub data Answer : Type 0 where
  to_subject to_edit not_found crashed : Answer
  internal_error : Text → Answer
  show_error : Message → Option OwnerInput → Answer
  ask_close : Period → Text → OwnerInput → Answer
  ask_end : EndDateWarning → OwnerInput → Answer

-- chrono: `parse_from_str` and `format` of "%Y-%m-%d"; and the error, if any, of the read that follows
-- the commit of a creation or an update.
pub record Services : Type 0 where
  pub parse : Text → Option ℕ
  pub format : ℕ → Text
  pub read_back_error : Option DbError

-- `db_message`: no text for an error that is not the database's.
abbrev pub db_message : DbError → Option (List ErrorCode)
db_message (rejected codes) = some codes
db_message constraint = some []
db_message row_not_found = none
db_message panicked = none

-- The keys of the two kinds of owners.
abbrev pub kind : PeriodPeopleTable → Text
kind ownership = chars "ownership"
kind building_owner = chars "building_owner"

abbrev pub key_of : PeriodPeopleTable → Text → Text
key_of table name = kind table ++ (b'.' ∷ name)

abbrev pub error_of : PeriodPeopleTable → Text → Text
error_of table name = chars "error." ++ (kind table ++ (b'_' ∷ name))

abbrev pub people_required : PeriodPeopleTable → OwnerInput → Answer
people_required table form =
    show_error (keyed (key_of table (chars "people_required")) []) (some form)

-- The answer to an error, with the form that the page shows again.
abbrev pub unexpected : PeriodPeopleTable → Text → DbError → Answer
unexpected table verb panicked = crashed
unexpected table verb e = internal_error (error_of table verb)

abbrev pub refused : PeriodPeopleTable → Text → Option OwnerInput → DbError → Answer
refused table verb form e = elim (db_message e) [
  | some codes ↦ show_error (from_db codes) form
  | none ↦ unexpected table verb e
]

-- The answer once the transaction is committed: `get_ownership` reads the row again.
abbrev pub committed : PeriodPeopleTable → Text → Option OwnerInput → Option DbError → Answer
committed table verb form none = to_subject
committed table verb form (some e) = refused table verb form e

-- At least one row of a person.
abbrev pub seeded : OwnerInput → OwnerInput
seeded form = record form { people = seed_person_rows form.people }

-- The apartment of the path, if it is one of the building.
abbrev pub owned_by : ℕ → Option ApartmentRow → Bool
owned_by building none = false
owned_by building (some a) = a.building == building

-- The period of the path, if it is one of the apartment or building.
abbrev pub period_in : ℕ → Option Period → Option Period
period_in subject none = none
period_in subject (some p) = if p.subject == subject then some p else none

module _ (services : Services) where
  unfoldable pub previous_day : Text → Option Text
  previous_day date = elim (services.parse date) [
    | none ↦ none
    | some d ↦ some (services.format (d - 1))
  ]

  unfoldable pub next_day : Text → Option Text
  next_day date = elim (services.parse date) [
    | none ↦ none
    | some d ↦ some (services.format (suc d))
  ]

  abbrev pub or_text : Text → Option Text → Text
  or_text default none = default
  or_text default (some s) = s

  unfoldable pub end_date_warning : Text → EndDateWarning
  end_date_warning end_date = record {
    end_date = end_date;
    uncovered_from = or_text end_date (next_day end_date);
  }

  -- The dates of a stored period always parse.
  unfoldable pub end_drops_today_coverage : Period → ℕ → ℕ → Bool
  end_drops_today_coverage p new_end today =
      leb p.start today && (elim p.end [ none ↦ true | some e ↦ leb today e ]) && ltb new_end today

  -- Whether someone needs the period today: no building owner covers the apartment, or an apartment
  -- depends on the building owner.
  abbrev pub is_relied_on : PeriodPeopleTable → Store → ℕ → Bool
  is_relied_on building_owner s building = has_uncovered_apartment s building
  is_relied_on ownership s apartment = elim (get_apartment s apartment) [
    | none ↦ false
    | some a ↦ elim (get_current building_owner s a.building) [ some owner ↦ false | none ↦ true ]
  ]

  abbrev pub drops :
      PeriodPeopleTable → ℕ → Period → Text → Store → Option ℕ → Option EndDateWarning
  drops table today p new_end s none = none
  drops table today p new_end s (some day) =
      if end_drops_today_coverage p day today && is_relied_on table s p.subject
      then some (end_date_warning new_end)
      else none

  -- `ownership_end_date_warning` and `building_owner_end_date_warning`.
  abbrev pub warning_for :
      PeriodPeopleTable → ℕ → Period → Store → Option Text → Option EndDateWarning
  warning_for table today p s none = none
  warning_for table today p s (some new_end) =
      drops table today p new_end s (services.parse new_end)
