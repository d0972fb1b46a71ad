-- ===== src/Db/Periods.antt =====
-- src/db/queries.rs: the operations on `ownerships` and `building_owners`, each one transaction,
-- with the triggers of migrations/0010 to 0013 that its statements fire. A row whose dates are not
-- of the form YYYY-MM-DD is rejected by the triggers on the format, whatever else rejects it too.
use kehrkraft.Prelude.{
  ℕ, ◌+◌, ◌≤◌, Bool, true, false, not, ◌&&◌, ◌||◌, List, [], ◌∷◌, ◌++◌, map, Option, none, some,
  Text, leb, ◌==◌, if◌then◌else◌, any, filter, length,
}
use kehrkraft.Db.Period.{
  Period, ErrorCode, start_date_format, end_date_format, requires_person, last_delete,
  middle_delete, current_delete, forbidden_when_building_owner, forbidden_when_apartment_owners,
  chain_violations, is_middle, covers, when, remove_row, replace_row, find_row,
}
use kehrkraft.Db.Store.{
  Store, DbError, rejected, constraint, panicked, Tx, pure, fail, ◌>>=◌, ◌>>◌, gets, modify, demand,
  require, gen_token, PeriodPeopleTable, ownership, building_owner, periods, set_periods, links,
  set_links, cleanup_all,
}
use kehrkraft.Db.People.{
  NewPeriod, PreviousPeriod, insert_period_with_people, replace_period_people,
}
pub mod Hoare
pub mod Frame
pub mod Steps
pub mod Chains
pub mod Update

unfoldable pub subject_known : PeriodPeopleTable → Store → ℕ → Bool
subject_known ownership s apartment = any (λ a. a.id == apartment) s.apartments
subject_known building_owner s building = any (λ b. b.id == building) s.buildings

-- A building owner covers the building today.
unfoldable pub building_covered : Store → ℕ → Bool
building_covered s building =
    any (λ p. (p.subject == building) && covers s.today p) s.building_owners

-- A building owner covers the building of the apartment today.
unfoldable pub apartment_covered : Store → ℕ → Bool
apartment_covered s apartment =
    any (λ a. (a.id == apartment) && building_covered s a.building) s.apartments

-- An apartment of the building has an ownership of its own, past or present.
unfoldable pub building_has_apartment_owners : Store → ℕ → Bool
building_has_apartment_owners s building =
    any (λ o. any (λ a. (a.id == o.subject) && (a.building == building)) s.apartments) s.ownerships

-- An apartment of the building that no ownership covers today.
unfoldable pub has_uncovered_apartment : Store → ℕ → Bool
has_uncovered_apartment s building =
    any
      (λ a.
        (a.building == building)
        && not (any (λ o. (o.subject == a.id) && covers s.today o) s.ownerships))
      s.apartments

-- `ownerships_reject_when_building_owned_insert`, `building_owners_reject_when_apartments_owned_insert`.
unfoldable pub exclusion : PeriodPeopleTable → Store → ℕ → List ErrorCode
exclusion ownership s subject = when (apartment_covered s subject) forbidden_when_building_owner
exclusion building_owner s subject =
    when (building_has_apartment_owners s subject) forbidden_when_apartment_owners

-- Whether the subject needs this period today: `*_guard_last` and `*_guard_current` let the
-- other kind of owner stand in.
unfoldable pub is_needed : PeriodPeopleTable → Store → ℕ → Bool
is_needed ownership s subject = not (apartment_covered s subject)
is_needed building_owner s subject = has_uncovered_apartment s subject

-- The triggers `*_guard_last`, `*_guard_middle` and `*_guard_current` on a DELETE of the row.
unfoldable pub guards : PeriodPeopleTable → Store → Period → List ErrorCode
guards table s old =
    if subject_known table s old.subject
    then when
        (leb (length (filter (λ o. o.subject == old.subject) (periods table s))) 1
          && is_needed table s old.subject)
        last_delete
      ++ (when (is_middle old (periods table s)) middle_delete
          ++ when (covers s.today old && is_needed table s old.subject) current_delete)
    else []

module _ (canonical : Text → Option ℕ) where
  -- The bound dates, if SQLite reads them back as they are written.
  abbrev pub end_day : Option Text → Option (Option ℕ)
  end_day none = some none
  end_day (some e) = elim (canonical e) [ none ↦ none | some d ↦ some (some d) ]

  abbrev pub row_ending : ℕ → ℕ → ℕ → Option (Option ℕ) → Tx Period
  row_ending id subject start none = fail (rejected (end_date_format ∷ []))
  row_ending id subject start (some end) =
      pure (record { id = id; subject = subject; start = start; end = end })

  abbrev pub row_from : ℕ → ℕ → Option ℕ → Option Text → Tx Period
  row_from id subject none end_date = fail (rejected (start_date_format ∷ []))
  row_from id subject (some start) end_date = row_ending id subject start (end_day end_date)

  -- INSERT INTO ownerships / building_owners.
  unfoldable pub insert_period : PeriodPeopleTable → ℕ → ℕ → NewPeriod → Tx (Unit {0})
  insert_period table id subject new = do
    s ← gets (λ s. s)
    row ← row_from id subject (canonical new.start_date) new.end_date
    demand (
        exclusion table s subject
        ++ (when (not (any (λ l. l.period == id) (links table s))) requires_person
            ++ chain_violations row (periods table s)))
    require (not (any (λ p. p.id == id) (periods table s)))
    modify (set_periods table (row ∷ periods table s))

  abbrev pub store_row : PeriodPeopleTable → Period → Tx (Unit {0})
  store_row table row = do
    rows ← gets (periods table)
    demand (chain_violations row rows)
    modify (set_periods table (replace_row row rows))

  -- UPDATE … SET start_date, end_date WHERE id; without such a row no trigger fires.
  abbrev pub update_found : PeriodPeopleTable → Text → Option Text → Option Period → Tx (Unit {0})
  update_found table start_date end_date none = pure tt
  update_found table start_date end_date (some old) = do
    row ← row_from old.id old.subject (canonical start_date) end_date
    store_row table row

  unfoldable pub update_dates : PeriodPeopleTable → ℕ → Text → Option Text → Tx (Unit {0})
  update_dates table id start_date end_date = do
    old ← gets (λ s. find_row id (periods table s))
    update_found table start_date end_date old

  -- UPDATE … SET end_date WHERE id.
  abbrev pub close_found : PeriodPeopleTable → Text → Option Period → Tx (Unit {0})
  close_found table end_date none = pure tt
  close_found table end_date (some old) = do
    row ← row_from old.id old.subject (some old.start) (some end_date)
    store_row table row

  unfoldable pub close_period : PeriodPeopleTable → PreviousPeriod → Tx (Unit {0})
  close_period table previous = do
    old ← gets (λ s. find_row previous.id (periods table s))
    close_found table previous.end_date old

  module _ (sql_trim : Text → Text) where
    -- `create_ownership` and `create_building_owner`; the key on the subject is checked at the commit.
    unfoldable pub create_period : PeriodPeopleTable → ℕ → NewPeriod → Tx ℕ
    create_period table subject new = do
      id ← gen_token
      insert_period_with_people sql_trim table id new
      insert_period table id subject new
      known ← gets (λ s. subject_known table s subject)
      require known
      pure id

    -- `create_ownership_closing_previous` and `create_building_owner_closing_previous`.
    unfoldable pub create_closing_previous :
        PeriodPeopleTable → ℕ → PreviousPeriod → NewPeriod → Tx ℕ
    create_closing_previous table subject previous new = do
      close_period table previous
      create_period table subject new

    -- Without such a period the links that were inserted have no period to refer to, which the
    -- commit rejects; without links nothing has changed, and the `expect` on the row panics.
    abbrev pub updated : Bool → Option Period → Tx Period
    updated linked none = fail (if linked then constraint else panicked)
    updated linked (some row) = pure row

    -- `update_ownership` and `update_building_owner`.
    unfoldable pub update_period : PeriodPeopleTable → ℕ → NewPeriod → Tx Period
    update_period table id new = do
      replace_period_people sql_trim table id new
      update_dates table id new.start_date new.end_date
      linked ← gets (λ s. any (λ l. l.period == id) (links table s))
      row ← gets (λ s. find_row id (periods table s))
      updated linked row

-- `delete_ownership` and `delete_building_owner`: the links go with the period, and then the
-- people without another role.
abbrev pub delete_found : PeriodPeopleTable → Option Period → Tx Bool
delete_found table none = pure false
delete_found table (some old) = do
  s ← gets (λ s. s)
  demand (guards table s old)
  modify (set_periods table (remove_row old.id (periods table s)))
  modify (set_links table (filter (λ l. not (l.period == old.id)) (links table s)))
  modify (cleanup_all (map (λ l. l.person) (filter (λ l. l.period == old.id) (links table s))))
  pure true

unfoldable pub delete_period : PeriodPeopleTable → ℕ → Tx Bool
delete_period table id = do old ← gets (λ s. find_row id (periods table s)); delete_found table old
