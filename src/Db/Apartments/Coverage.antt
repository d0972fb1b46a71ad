-- ===== src/Db/Apartments/Coverage.antt =====
-- The tables of periods after an apartment is created (`create_apartment` of src/db/queries.rs).
use kehrkraft.Prelude.{
  ℕ, ◌≤◌, ◌≡◌, Bool, not, ◌&&◌, List, [], ◌∷◌, ◌++◌, Option, some, Text, any, ◌==◌,
}
use kehrkraft.Db.Period.{
  ErrorCode, far, when, apartment_requires_owner, forbidden_when_building_owner,
}
use kehrkraft.Db.Store.{Store, pure, modify, require, ◌>>◌, gen_token, ownership}
use kehrkraft.Db.People.{NewPeriod}
use kehrkraft.Db.Periods.{building_covered}
use kehrkraft.Db.Periods.Hoare.{
  Ensures, Keeps, bind-Keeps, demand-Ensures, require-Ensures, ok-Ensures,
}
use kehrkraft.Db.Periods.Frame.{insert_period_with_people-Keeps}
use kehrkraft.Db.Periods.Steps.{IsTiled, IsTiledPair, insert_period-Keeps}
use kehrkraft.Db.Apartments.{
  next_position, is_owned, name_violations, insert_apartment, create_apartment,
}

abbrev Kept : {A : Type 0} → A → Store → Type 0
Kept _ s = IsTiled s

module _ (sql_trim : Text → Text) where
  insert_apartment-Keeps :
      (id building : ℕ) (name description : Text)
      → Keeps IsTiledPair (insert_apartment sql_trim id building name description)
  unfolding insert_apartment
  insert_apartment-Keeps id building name description s i =
      demand-Ensures Kept (λ _. require unused >> modify add) codes s
        (λ _. require-Ensures Kept (λ _. modify add) unused s (λ _. ok-Ensures Kept tt (add s) i))
    where
      codes : List ErrorCode
      codes =
          name_violations sql_trim name
          ++ (when (not (is_owned s id) && not (building_covered s building))
                apartment_requires_owner
              ++ when (is_owned s id && building_covered s building) forbidden_when_building_owner)

      unused : Bool
      unused = not (any (λ a. a.id == id) s.apartments)

      add : Store → Store
      add t = record t {
        apartments =
            s.apartments
            ++ record {
              id = id;
              building = building;
              name = name;
              description = description;
              position = next_position building s.apartments;
            }
              ∷ [];
      }

  -- If ownerships and building owners tile the timelines, they do so after `create_apartment`,
  -- unless it is rejected.
  pub create_apartment-IsTiled :
      (canonical : Text → Option ℕ) (within : (t : Text) (d : ℕ) → canonical t ≡ some d → d ≤ far)
      (building : ℕ) (name description : Text) (initial_owner : NewPeriod) (s : Store)
      → IsTiled s
      → Ensures
          (λ _ s'. IsTiled s')
          (create_apartment sql_trim canonical building name description initial_owner s)
  unfolding create_apartment gen_token
  create_apartment-IsTiled canonical within building name description initial_owner s i =
      bind-Keeps IsTiledPair _ _
        (insert_period_with_people-Keeps IsTiledPair sql_trim ownership _ initial_owner _ i)
        (λ _ s' i'.
          bind-Keeps IsTiledPair _ _
            (insert_period-Keeps canonical within ownership _ _ initial_owner s' i')
            (λ _ s'' i''.
              bind-Keeps IsTiledPair _ _
                (insert_apartment-Keeps _ building name description s'' i'')
                (λ _ s''' i'''.
                  require-Ensures Kept (λ _. pure (s.token s.drawn))
                    (any (λ b. b.id == building) s'''.buildings) s'''
                    (λ _. ok-Ensures Kept (s.token s.drawn) s''' i'''))))
