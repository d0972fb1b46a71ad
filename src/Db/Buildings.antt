-- ===== src/Db/Buildings.antt =====
-- src/db/queries.rs: creating and changing buildings, with the triggers of migrations/0012 on them.
use kehrkraft.Prelude.{
  ℕ, ◌+◌, Bool, true, false, not, ◌&&◌, ◌||◌, List, [], ◌∷◌, ◌++◌, map, Option, none, some, Text,
  ◌==◌, if◌then◌else◌, any, find,
}
use kehrkraft.Prelude.Int.{ℤ, pos}
use kehrkraft.Models.Names.{trim, is_empty}
use kehrkraft.Db.Store.{
  Store, BuildingRow, AdministratorRow, DbError, row_not_found, Tx, pure, fail, ◌>>=◌, ◌>>◌, gets,
  modify, demand, require, gen_token, building_owner,
}
use kehrkraft.Db.People.{NewPeriod, resolve_person, insert_period_with_people}
use kehrkraft.Db.Periods.{insert_period}
use kehrkraft.Db.Apartments.{name_violations}
pub mod Tiled

abbrev pub find_building : ℕ → Store → Option BuildingRow
find_building id s = find (λ b. b.id == id) s.buildings

-- The row that the code returns.
abbrev pub fetched : Option BuildingRow → Tx BuildingRow
fetched none = fail row_not_found
fetched (some b) = pure b

unfoldable pub fetch_building : ℕ → Tx BuildingRow
fetch_building id = do b ← gets (find_building id); fetched b

-- INSERT INTO building_administrators.
unfoldable pub insert_administrator : ℕ → ℕ → ℕ → Tx (Unit {0})
insert_administrator id building person = do
  s ← gets (λ s. s)
  require (not (any (λ a. a.id == id) s.administrators) && any (λ b. b.id == building) s.buildings)
  modify (λ t. record t {
    administrators =
        s.administrators ++ record { id = id; building = building; person = person } ∷ [];
  })

module _ (canonical : Text → Option ℕ) (sql_trim : Text → Text) where
  -- INSERT INTO buildings.
  unfoldable pub insert_building : ℕ → ℕ → Text → Text → Tx (Unit {0})
  insert_building id slug name description = do
    s ← gets (λ s. s)
    demand (name_violations sql_trim name)
    require (not (any (λ b. (b.id == id) || (b.secret_slug == slug)) s.buildings))
    modify (λ t. record t {
      buildings =
          record {
            id = id;
            name = name;
            description = description;
            secret_slug = slug;
            rotation_seed = pos 0;
          }
          ∷ s.buildings;
    })

  unfoldable pub add_administrator : ℕ → Text → Text → Tx (Unit {0})
  add_administrator building admin_name admin_email = do
    admin_id ← gen_token
    person ←
        resolve_person sql_trim
          (record { name = admin_name; email = admin_email; display_name = none })
    insert_administrator admin_id building person

  -- A contact of blanks is left out.
  unfoldable pub first_administrator : ℕ → Text → Text → Tx (Unit {0})
  first_administrator building admin_name admin_email =
      if is_empty (trim admin_name) && is_empty (trim admin_email)
      then pure tt
      else add_administrator building admin_name admin_email

  abbrev pub initial_period : ℕ → Option NewPeriod → Tx (Unit {0})
  initial_period building none = pure tt
  initial_period building (some owner) = do
    owner_id ← gen_token
    insert_period_with_people sql_trim building_owner owner_id owner
    insert_period canonical building_owner owner_id building owner

  unfoldable pub create_building_impl :
      Text → Text → Text → Text → Option NewPeriod → Tx BuildingRow
  create_building_impl name description admin_name admin_email initial_owner = do
    building_id ← gen_token
    secret_slug ← gen_token
    insert_building building_id secret_slug name description
    first_administrator building_id admin_name admin_email
    initial_period building_id initial_owner
    fetch_building building_id

  unfoldable pub create_building : Text → Text → Text → Text → Tx BuildingRow
  create_building name description admin_name admin_email =
      create_building_impl name description admin_name admin_email none

  unfoldable pub create_building_with_owner : Text → Text → Text → Text → NewPeriod → Tx BuildingRow
  create_building_with_owner name description admin_name admin_email initial_owner =
      create_building_impl name description admin_name admin_email (some initial_owner)

  -- The oldest row of the building is set to the person, or a new one is inserted.
  abbrev pub put_administrator : ℕ → ℕ → Option AdministratorRow → Tx (Unit {0})
  put_administrator building person none = do
    admin_id ← gen_token
    insert_administrator admin_id building person
  put_administrator building person (some old) = modify (λ s. record s {
    administrators =
        map (λ a. if a.id == old.id then record a { person = person } else a) s.administrators;
  })

  abbrev pub set_administrator : ℕ → Option (Text × Text) → Tx (Unit {0})
  set_administrator building none = pure tt
  set_administrator building (some (admin_name, admin_email)) = do
    existing ← gets (λ s. find (λ a. a.building == building) s.administrators)
    person ←
        resolve_person sql_trim
          (record { name = admin_name; email = admin_email; display_name = none })
    put_administrator building person existing

  -- An update that finds no row fires no trigger.
  abbrev pub rename_building : Bool → ℕ → Text → Text → Tx (Unit {0})
  rename_building false id name description = pure tt
  rename_building true id name description = do
    demand (name_violations sql_trim name)
    modify (λ s. record s {
      buildings =
          map (λ b. if b.id == id then record b { name = name; description = description } else b)
            s.buildings;
    })

  unfoldable pub update_building : ℕ → Text → Text → Option (Text × Text) → Tx BuildingRow
  update_building id name description administrator = do
    known ← gets (λ s. any (λ b. b.id == id) s.buildings)
    rename_building known id name description
    set_administrator id administrator
    fetch_building id

unfoldable pub update_building_rotation_seed : ℕ → ℤ → Tx BuildingRow
update_building_rotation_seed id rotation_seed = do
  modify (λ s. record s {
    buildings =
        map (λ b. if b.id == id then record b { rotation_seed = rotation_seed } else b) s.buildings;
  })
  fetch_building id
