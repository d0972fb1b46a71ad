-- ===== src/Db/Owners.antt =====
-- src/db/queries.rs: the operations on ownerships and on building owners by their names; each pair
-- is one operation of `Periods` on the one or the other table.
use kehrkraft.Prelude.{ℕ, Bool, Option, Text}
use kehrkraft.Db.Period.{Period}
use kehrkraft.Db.Store.{Tx, ownership, building_owner}
use kehrkraft.Db.People.{NewPeriod, PreviousPeriod}
use kehrkraft.Db.Periods.{create_period, create_closing_previous, update_period, delete_period}

module _ (canonical : Text → Option ℕ) (sql_trim : Text → Text) where
  abbrev pub create_ownership : ℕ → NewPeriod → Tx ℕ
  create_ownership apartment period = create_period canonical sql_trim ownership apartment period

  abbrev pub create_building_owner : ℕ → NewPeriod → Tx ℕ
  create_building_owner building period =
      create_period canonical sql_trim building_owner building period

  abbrev pub create_ownership_closing_previous : ℕ → PreviousPeriod → NewPeriod → Tx ℕ
  create_ownership_closing_previous apartment previous period =
      create_closing_previous canonical sql_trim ownership apartment previous period

  abbrev pub create_building_owner_closing_previous : ℕ → PreviousPeriod → NewPeriod → Tx ℕ
  create_building_owner_closing_previous building previous period =
      create_closing_previous canonical sql_trim building_owner building previous period

  abbrev pub update_ownership : ℕ → NewPeriod → Tx Period
  update_ownership id period = update_period canonical sql_trim ownership id period

  abbrev pub update_building_owner : ℕ → NewPeriod → Tx Period
  update_building_owner id period = update_period canonical sql_trim building_owner id period

abbrev pub delete_ownership : ℕ → Tx Bool
delete_ownership id = delete_period ownership id

abbrev pub delete_building_owner : ℕ → Tx Bool
delete_building_owner id = delete_period building_owner id
