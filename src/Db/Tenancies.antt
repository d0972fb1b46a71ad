-- ===== src/Db/Tenancies.antt =====
-- src/db/queries.rs: the operations on tenancies, with the triggers of migrations/0012 and 0013.
use kehrkraft.Prelude.{
  ℕ, Bool, true, false, not, List, ◌∷◌, map, Option, none, some, Text, ◌==◌, if◌then◌else◌, any,
  filter, find,
}
use kehrkraft.Db.Period.{Period, tenancy_violations}
use kehrkraft.Db.Store.{
  Store, TenancyRow, panicked, Tx, pure, fail, ◌>>=◌, ◌>>◌, gets, modify, demand, require,
  gen_token, cleanup,
}
use kehrkraft.Db.People.{NewPerson, PreviousPeriod, resolve_person}
use kehrkraft.Db.Periods.{row_from}

abbrev pub tenancy_periods : Store → List Period
tenancy_periods s = map (λ t. t.period) s.tenancies

abbrev pub find_tenancy : ℕ → Store → Option TenancyRow
find_tenancy id s = find (λ t. t.period.id == id) s.tenancies

module _ (canonical : Text → Option ℕ) where
  -- INSERT INTO tenancies.
  unfoldable pub insert_tenancy : ℕ → ℕ → ℕ → Text → Option Text → Tx (Unit {0})
  insert_tenancy id apartment person start_date end_date = do
    s ← gets (λ s. s)
    row ← row_from canonical id apartment (canonical start_date) end_date
    demand (tenancy_violations row (tenancy_periods s))
    require (not (any (λ t. t.period.id == id) s.tenancies))
    require (any (λ a. a.id == apartment) s.apartments)
    modify (λ t. record t { tenancies = record { period = row; person = person } ∷ s.tenancies })

  -- UPDATE tenancies of a row that is there.
  abbrev pub store_tenancy : ℕ → Period → Tx (Unit {0})
  store_tenancy person row = do
    s ← gets (λ s. s)
    demand (tenancy_violations row (tenancy_periods s))
    modify (λ t. record t {
      tenancies =
          map (λ u. if u.period.id == row.id then record { period = row; person = person } else u)
            s.tenancies;
    })

  abbrev pub close_found_tenancy : Text → Option TenancyRow → Tx (Unit {0})
  close_found_tenancy end_date none = pure tt
  close_found_tenancy end_date (some old) = do
    row ←
        row_from canonical old.period.id old.period.subject (some old.period.start) (some end_date)
    store_tenancy old.person row

  unfoldable pub close_tenancy : PreviousPeriod → Tx (Unit {0})
  close_tenancy previous = do
    old ← gets (find_tenancy previous.id)
    close_found_tenancy previous.end_date old

  -- Without such a row no tenancy is updated, and the `expect` on it panics. The commit before keeps
  -- the person that was resolved, while an error of the model keeps nothing.
  abbrev pub update_found_tenancy : ℕ → Text → Option Text → Option TenancyRow → Tx (Unit {0})
  update_found_tenancy person start_date end_date none = fail panicked
  update_found_tenancy person start_date end_date (some old) = do
    row ← row_from canonical old.period.id old.period.subject (canonical start_date) end_date
    store_tenancy person row

  module _ (sql_trim : Text → Text) where
    unfoldable pub create_tenancy : ℕ → Text → Text → Text → Option Text → Tx ℕ
    create_tenancy apartment name email start_date end_date = do
      person ← resolve_person sql_trim (record { name = name; email = email; display_name = none })
      id ← gen_token
      insert_tenancy id apartment person start_date end_date
      pure id

    unfoldable pub create_tenancy_closing_previous :
        ℕ → PreviousPeriod → Text → Text → Text → Option Text → Tx ℕ
    create_tenancy_closing_previous apartment previous name email start_date end_date = do
      close_tenancy previous
      create_tenancy apartment name email start_date end_date

    unfoldable pub update_tenancy : ℕ → NewPerson → Text → Option Text → Tx (Unit {0})
    update_tenancy id tenant start_date end_date = do
      person ← resolve_person sql_trim tenant
      old ← gets (find_tenancy id)
      update_found_tenancy person start_date end_date old

-- DELETE FROM tenancies, with the cleanup of the person.
abbrev pub delete_found_tenancy : Option TenancyRow → Tx Bool
delete_found_tenancy none = pure false
delete_found_tenancy (some old) = do
  modify
      (λ s. record s { tenancies = filter (λ t. not (t.period.id == old.period.id)) s.tenancies })
  modify (cleanup old.person)
  pure true

unfoldable pub delete_tenancy : ℕ → Tx Bool
delete_tenancy id = do old ← gets (find_tenancy id); delete_found_tenancy old
