-- ===== src/Db/Buildings/Tiled.antt =====
-- The tables of periods after a building is created (`create_building_impl` of src/db/queries.rs).
use kehrkraft.Prelude.{
  ℕ, ◌≤◌, ◌≡◌, Bool, not, ◌&&◌, ◌||◌, [], ◌∷◌, ◌++◌, Option, none, some, Text, any, ◌==◌,
}
use kehrkraft.Prelude.Int.{pos}
use kehrkraft.Db.Period.{far}
use kehrkraft.Db.Store.{Store, BuildingRow, modify, require, ◌>>◌, gen_token, building_owner}
use kehrkraft.Db.People.{NewPeriod}
use kehrkraft.Db.Periods.Hoare.{
  Ensures, Keeps, bind-Keeps, demand-Ensures, require-Ensures, ok-Ensures, err-Ensures,
}
use kehrkraft.Db.Periods.Frame.{
  insert_period_with_people-Keeps, resolve_person-Keeps, pure-Keeps, unless-Keeps,
}
use kehrkraft.Db.Periods.Steps.{IsTiled, IsTiledPair, insert_period-Keeps}
use kehrkraft.Db.Apartments.{name_violations}
use kehrkraft.Db.Buildings.{
  find_building, fetched, fetch_building, insert_administrator, insert_building, add_administrator,
  first_administrator, initial_period, create_building_impl,
}

abbrev Kept : {A : Type 0} → A → Store → Type 0
Kept _ s = IsTiled s

fetched-Keeps : (b : Option BuildingRow) → Keeps IsTiledPair (fetched b)
fetched-Keeps none s i = err-Ensures Kept _
fetched-Keeps (some b) s i = ok-Ensures Kept b s i

fetch_building-Keeps : (id : ℕ) → Keeps IsTiledPair (fetch_building id)
unfolding fetch_building
fetch_building-Keeps id s i = fetched-Keeps (find_building id s) s i

insert_administrator-Keeps :
    (id building person : ℕ) → Keeps IsTiledPair (insert_administrator id building person)
unfolding insert_administrator
insert_administrator-Keeps id building person s i =
    require-Ensures Kept (λ _. modify add)
      (not (any (λ a. a.id == id) s.administrators) && any (λ b. b.id == building) s.buildings) s
      (λ _. ok-Ensures Kept tt (add s) i)
  where
    add : Store → Store
    add t = record t {
      administrators =
          s.administrators ++ record { id = id; building = building; person = person } ∷ [];
    }

module _ (canonical : Text → Option ℕ)
    (within : (t : Text) (d : ℕ) → canonical t ≡ some d → d ≤ far) (sql_trim : Text → Text) where
  insert_building-Keeps :
      (id slug : ℕ) (name description : Text)
      → Keeps IsTiledPair (insert_building canonical sql_trim id slug name description)
  unfolding insert_building
  insert_building-Keeps id slug name description s i =
      demand-Ensures Kept (λ _. require unused >> modify add) (name_violations sql_trim name) s
        (λ _. require-Ensures Kept (λ _. modify add) unused s (λ _. ok-Ensures Kept tt (add s) i))
    where
      unused : Bool
      unused = not (any (λ b. (b.id == id) || (b.secret_slug == slug)) s.buildings)

      add : Store → Store
      add t = record t {
        buildings =
            record {
              id = id;
              name = name;
              description = description;
              secret_slug = slug;
              rotation_seed = pos 0;
            }
            ∷ s.buildings;
      }

  add_administrator-Keeps :
      (building : ℕ) (name email : Text)
      → Keeps IsTiledPair (add_administrator canonical sql_trim building name email)
  unfolding add_administrator gen_token
  add_administrator-Keeps building name email s i =
      bind-Keeps IsTiledPair _ _ (resolve_person-Keeps IsTiledPair sql_trim _ _ i)
        (λ person. insert_administrator-Keeps _ building person)

  first_administrator-Keeps :
      (building : ℕ) (name email : Text)
      → Keeps IsTiledPair (first_administrator canonical sql_trim building name email)
  unfolding first_administrator
  first_administrator-Keeps building name email =
      unless-Keeps IsTiledPair _ _ (add_administrator-Keeps building name email)

  initial_period-Keeps :
      (building : ℕ) (owner : Option NewPeriod)
      → Keeps IsTiledPair (initial_period canonical sql_trim building owner)
  unfolding gen_token
  initial_period-Keeps building none s i = pure-Keeps IsTiledPair tt s i
  initial_period-Keeps building (some owner) s i =
      bind-Keeps IsTiledPair _ _
        (insert_period_with_people-Keeps IsTiledPair sql_trim building_owner _ owner _ i)
        (λ _ s' i'. insert_period-Keeps canonical within building_owner _ building owner s' i')

  -- If ownerships and building owners tile the timelines, they do so after a building is created,
  -- with or without a first contact and a first owner, unless it is rejected.
  pub create_building_impl-IsTiled :
      (name description admin_name admin_email : Text) (initial_owner : Option NewPeriod)
      (s : Store)
      → IsTiled s
      → Ensures
          (λ _ s'. IsTiled s')
          (create_building_impl canonical sql_trim name description admin_name admin_email
            initial_owner s)
  unfolding create_building_impl gen_token
  create_building_impl-IsTiled name description admin_name admin_email initial_owner s i =
      bind-Keeps IsTiledPair _ _ (insert_building-Keeps _ _ name description _ i) (λ _ s' i'.
        bind-Keeps IsTiledPair _ _ (first_administrator-Keeps _ admin_name admin_email s' i')
          (λ _ s'' i''.
            bind-Keeps IsTiledPair _ _ (initial_period-Keeps _ initial_owner s'' i'')
              (λ _. fetch_building-Keeps _)))
