-- ===== src/Admin/Owners.antt =====
-- src/web/admin.rs: the handlers that create, update and delete the ownerships of an apartment and
-- the owners of a building; each pair is one function of the table.
pub mod Branches
pub mod Tiled
mod Tests
use kehrkraft.Prelude.{
  ℕ, suc, ◌+◌, ◌-◌, Bool, true, false, not, ◌&&◌, ◌||◌, List, [], ◌∷◌, ◌++◌, Option, none, some,
  Text, text_eq, leb, ltb, ◌==◌, if◌then◌else◌,
}
use kehrkraft.Models.Names.{chars}
use kehrkraft.Db.Period.{Period, ErrorCode}
use kehrkraft.Db.Store.{
  Store, DbError, rejected, constraint, row_not_found, Result, ok, err, PeriodPeopleTable,
  ownership, building_owner, ApartmentRow,
}
use kehrkraft.Db.People.{NewPeriod, PreviousPeriod}
use kehrkraft.Db.Periods.{
  subject_known, has_uncovered_apartment, create_period, create_closing_previous, update_period,
  delete_period,
}
use kehrkraft.Db.Reads.{get_apartment, get_period, get_current, get_period_on, get_end_before}
use kehrkraft.Admin.Forms.{
  OwnerInput, Pairs, seed_person_rows, new_period, normalize_end_date, parse_owner_input,
}
use kehrkraft.Admin.Answers.{
  EndDateWarning, Message, Answer, Services, db_message, kind, key_of, refused, committed,
  people_required, seeded, owned_by, period_in, previous_day, next_day, or_text, end_date_warning,
  end_drops_today_coverage, is_relied_on, drops, warning_for, keyed, declined, from_db, to_subject,
  to_edit, not_found, internal_error, show_error, ask_close, ask_end,
}

module _ (services : Services) (canonical : Text → Option ℕ) (sql_trim : Text → Text) where
  -- `period_created`; a rejected transaction leaves the store as it was, a failed read after the
  -- commit does not.
  abbrev pub period_created :
      PeriodPeopleTable → OwnerInput → Store → Result (ℕ × Store) → Answer × Store
  period_created table form s (ok (id, s')) =
      (committed table (chars "create") (some form) services.read_back_error, s')
  period_created table form s (err e) = (refused table (chars "create") (some form) e, s)

  abbrev pub create_directly :
      PeriodPeopleTable → ℕ → OwnerInput → Store → Option NewPeriod → Answer × Store
  create_directly table subject form s none = (people_required table form, s)
  create_directly table subject form s (some period) =
      period_created table form s (create_period canonical sql_trim table subject period s)

  abbrev pub create_closing :
      PeriodPeopleTable
      → ℕ
      → OwnerInput
      → PreviousPeriod
      → Store
      → Option NewPeriod
      → Answer × Store
  create_closing table subject form previous s none = (people_required table form, s)
  create_closing table subject form previous s (some period) =
      period_created table form s
        (create_closing_previous canonical sql_trim table subject previous period s)

  -- The answer to the question whether the previous ownership shall end.
  abbrev pub closing :
      PeriodPeopleTable → ℕ → OwnerInput → Period → Text → Store → Option Text → Answer × Store
  closing table subject form previous prev_end s none = (ask_close previous prev_end form, s)
  closing table subject form previous prev_end s (some answer) =
      if text_eq answer (chars "yes")
      then create_closing table subject form (record { id = previous.id; end_date = prev_end }) s
          (new_period form)
      else (show_error (declined previous prev_end) (some form), s)

  abbrev pub after_previous :
      PeriodPeopleTable → ℕ → OwnerInput → Period → Store → Option Text → Answer × Store
  after_previous table subject form previous s none =
      create_directly table subject form s (new_period form)
  after_previous table subject form previous s (some prev_end) =
      closing table subject form previous prev_end s form.close_previous

  -- A gap after an earlier ownership is named with its dates.
  abbrev pub after_gap :
      PeriodPeopleTable → ℕ → OwnerInput → Store → Text → Option Text → Answer × Store
  after_gap table subject form s prev_end none =
      create_directly table subject form s (new_period form)
  after_gap table subject form s prev_end (some next) =
      if text_eq next form.start_date
      then create_directly table subject form s (new_period form)
      else (
        show_error
            (keyed (key_of table (chars "gap_dates")) (prev_end ∷ next ∷ form.start_date ∷ []))
            (some form),
        s,
      )

  abbrev pub without_previous :
      PeriodPeopleTable → ℕ → OwnerInput → Store → Option ℕ → Answer × Store
  without_previous table subject form s none =
      create_directly table subject form s (new_period form)
  without_previous table subject form s (some day) =
      after_gap table subject form s (services.format day) (next_day services (services.format day))

  abbrev pub with_previous :
      PeriodPeopleTable → ℕ → OwnerInput → Store → Option Period → Answer × Store
  with_previous table subject form s none =
      without_previous table subject form s
        (get_end_before services.format table s subject form.start_date)
  with_previous table subject form s (some previous) =
      after_previous table subject form previous s (previous_day services form.start_date)

  -- The body of the handler, once it is known whether the subject is there.
  unfoldable pub create_handled : PeriodPeopleTable → Bool → ℕ → Pairs → Store → Answer × Store
  create_handled table present subject pairs s =
      let form = seeded (parse_owner_input pairs) in
      if present
      then with_previous table subject form s
          (get_period_on services.format table s subject form.start_date)
      else (not_found, s)

  abbrev pub ownerships_create : ℕ → ℕ → Pairs → Store → Answer × Store
  ownerships_create building apartment pairs s =
      create_handled ownership (owned_by building (get_apartment s apartment)) apartment pairs s

  abbrev pub building_owners_create : ℕ → Pairs → Store → Answer × Store
  building_owners_create building pairs s =
      create_handled building_owner (subject_known building_owner s building) building pairs s

  abbrev pub period_updated :
      PeriodPeopleTable → OwnerInput → Store → Result (Period × Store) → Answer × Store
  period_updated table form s (ok (row, s')) =
      (committed table (chars "save") (some form) services.read_back_error, s')
  period_updated table form s (err e) = (refused table (chars "save") (some form) e, s)

  abbrev pub apply_update :
      PeriodPeopleTable → ℕ → OwnerInput → Store → Option NewPeriod → Answer × Store
  apply_update table id form s none = (people_required table form, s)
  apply_update table id form s (some period) =
      period_updated table form s (update_period canonical sql_trim table id period s)

  -- The answer to the question whether the end shall be before today.
  abbrev pub confirmed :
      PeriodPeopleTable → ℕ → OwnerInput → EndDateWarning → Store → Option Text → Answer × Store
  confirmed table id form warning s none = (ask_end warning form, s)
  confirmed table id form warning s (some answer) =
      if text_eq answer (chars "no")
      then (to_edit, s)
      else apply_update table id form s (new_period form)

  abbrev pub warned :
      PeriodPeopleTable → ℕ → OwnerInput → Store → Option EndDateWarning → Answer × Store
  warned table id form s none = apply_update table id form s (new_period form)
  warned table id form s (some warning) = confirmed table id form warning s form.confirm_end

  abbrev pub update_in :
      PeriodPeopleTable → ℕ → ℕ → OwnerInput → Store → Option Period → Answer × Store
  update_in table today subject form s none = (not_found, s)
  update_in table today subject form s (some p) =
      warned table p.id form s
        (warning_for services table today p s (normalize_end_date form.end_date))

  -- `today` is `Local::now`.
  unfoldable pub update_handled :
      PeriodPeopleTable → Bool → ℕ → ℕ → ℕ → Pairs → Store → Answer × Store
  update_handled table present today subject id pairs s =
      if present
      then update_in table today subject (seeded (parse_owner_input pairs)) s
          (period_in subject (get_period table s id))
      else (not_found, s)

  abbrev pub ownerships_update : ℕ → ℕ → ℕ → ℕ → Pairs → Store → Answer × Store
  ownerships_update today building apartment id pairs s =
      update_handled ownership (owned_by building (get_apartment s apartment)) today apartment id
        pairs s

  abbrev pub building_owners_update : ℕ → ℕ → ℕ → Pairs → Store → Answer × Store
  building_owners_update today building id pairs s =
      update_handled building_owner (subject_known building_owner s building) today building id
        pairs s

abbrev pub period_deleted : PeriodPeopleTable → Store → Result (Bool × Store) → Answer × Store
period_deleted table s (ok (gone, s')) = (to_subject, s')
period_deleted table s (err e) = (refused table (chars "delete") none e, s)

abbrev pub delete_in : PeriodPeopleTable → Store → Option Period → Answer × Store
delete_in table s none = (not_found, s)
delete_in table s (some p) = period_deleted table s (delete_period table p.id s)

unfoldable pub delete_handled : PeriodPeopleTable → Bool → ℕ → ℕ → Store → Answer × Store
delete_handled table present subject id s =
    if present
    then delete_in table s (period_in subject (get_period table s id))
    else (not_found, s)

abbrev pub ownerships_delete : ℕ → ℕ → ℕ → Store → Answer × Store
ownerships_delete building apartment id s =
    delete_handled ownership (owned_by building (get_apartment s apartment)) apartment id s

abbrev pub building_owners_delete : ℕ → ℕ → Store → Answer × Store
building_owners_delete building id s =
    delete_handled building_owner (subject_known building_owner s building) building id s
