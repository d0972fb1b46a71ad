-- ===== src/Db/Apartments.antt =====
-- src/db/queries.rs: the operations on apartments, with the triggers of migrations/0012 on them.
use kehrkraft.Prelude.{
  ℕ, zero, suc, ◌+◌, ◌≡◌, Bool, true, false, not, ◌&&◌, List, [], ◌∷◌, ◌++◌, map, Option, none,
  some, max, Text, ltb, ◌==◌, if◌then◌else◌, any, filter, length,
}
use kehrkraft.Models.Names.{is_empty}
use kehrkraft.Db.Period.{
  Period, ErrorCode, name_empty, name_too_long, apartment_requires_owner,
  forbidden_when_building_owner, when,
}
use kehrkraft.Db.Period.Tiling.{IsChain}
use kehrkraft.Db.Store.{
  Store, ApartmentRow, DbError, row_not_found, Result, Tx, pure, fail, ◌>>=◌, ◌>>◌, gets, modify,
  demand, require, gen_token, ownership,
}
use kehrkraft.Db.People.{NewPeriod, insert_period_with_people}
use kehrkraft.Db.Periods.{insert_period, building_covered}
pub mod Coverage

-- COALESCE(MAX(position), -1) + 1 of the apartments of the building.
unfoldable pub next_position : ℕ → List ApartmentRow → ℕ
next_position building [] = 0
next_position building (a ∷ rows) =
    let rest = next_position building rows in
    if a.building == building then max (a.position + 1) rest else rest

abbrev pub is_owned : Store → ℕ → Bool
is_owned s id = any (λ o. o.subject == id) s.ownerships

module _ (sql_trim : Text → Text) where
  -- The triggers `apartments_name_not_empty_*` and `apartments_name_too_long_*`.
  unfoldable pub name_violations : Text → List ErrorCode
  name_violations name =
      when (is_empty (sql_trim name)) name_empty ++ when (ltb 30 (length name)) name_too_long

  -- INSERT INTO apartments, with `apartments_require_ownership` and
  -- `apartments_reject_ownership_when_building_owned_insert`.
  unfoldable pub insert_apartment : ℕ → ℕ → Text → Text → Tx (Unit {0})
  insert_apartment id building name description = do
    s ← gets (λ s. s)
    demand (
        name_violations name
        ++ (when (not (is_owned s id) && not (building_covered s building)) apartment_requires_owner
            ++ when (is_owned s id && building_covered s building) forbidden_when_building_owner))
    require (not (any (λ a. a.id == id) s.apartments))
    modify (λ t. record t {
      apartments =
          s.apartments
          ++ record {
            id = id;
            building = building;
            name = name;
            description = description;
            position = next_position building s.apartments;
          }
            ∷ [];
    })

  -- The key on the building is checked at the commit.
  unfoldable pub create_apartment_building_owned : ℕ → Text → Text → Tx ℕ
  create_apartment_building_owned building name description = do
    id ← gen_token
    insert_apartment id building name description
    known ← gets (λ s. any (λ b. b.id == building) s.buildings)
    require known
    pure id

  unfoldable pub create_apartment : (Text → Option ℕ) → ℕ → Text → Text → NewPeriod → Tx ℕ
  create_apartment canonical building name description initial_owner = do
    id ← gen_token
    ownership_id ← gen_token
    insert_period_with_people sql_trim ownership ownership_id initial_owner
    insert_period canonical ownership ownership_id id initial_owner
    insert_apartment id building name description
    known ← gets (λ s. any (λ b. b.id == building) s.buildings)
    require known
    pure id

  -- An update that finds no row fires no trigger, and the code then finds no row to return.
  abbrev pub update_known_apartment : Bool → ℕ → Text → Text → Tx (Unit {0})
  update_known_apartment false id name description = fail row_not_found
  update_known_apartment true id name description = do
    demand (name_violations name)
    modify (λ s. record s {
      apartments =
          map (λ a. if a.id == id then record a { name = name; description = description } else a)
            s.apartments;
    })

  unfoldable pub update_apartment : ℕ → Text → Text → Tx (Unit {0})
  update_apartment id name description = do
    known ← gets (λ s. any (λ a. a.id == id) s.apartments)
    update_known_apartment known id name description

-- The loop over the submitted ids, from index `i` on; `none` if an id is no apartment of the building.
unfoldable pub positions : ℕ → ℕ → List ℕ → List ApartmentRow → Option (List ApartmentRow)
positions building i [] rows = some rows
positions building i (id ∷ ids) rows =
    let rest = positions building (suc i) ids (
      map (λ a. if (a.id == id) && (a.building == building) then record a { position = i } else a)
        rows) in
    if any (λ a. (a.id == id) && (a.building == building)) rows then rest else none

unfoldable pub is_unique : List ℕ → Bool
is_unique [] = true
is_unique (id ∷ ids) = not (any (λ d. d == id) ids) && is_unique ids

abbrev pub committed : Store → Option (List ApartmentRow) → Bool × Store
committed s none = (false, s)
committed s (some rows) = (true, record s { apartments = rows })

-- A transaction that is not committed leaves the store as it was.
unfoldable pub reorder_apartments : ℕ → List ℕ → Store → Bool × Store
reorder_apartments building ordered_ids s =
    if length (filter (λ a. a.building == building) s.apartments) == length ordered_ids
    then if is_unique ordered_ids
      then committed s (positions building 0 ordered_ids s.apartments)
      else (false, s)
    else (false, s)
