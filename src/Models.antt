-- ===== src/Models.antt =====
-- src/db/models.rs: the rows that the queries return. Ids are only compared and ordered, so they
-- are numbers; a text is a list of characters; `rotation_seed` is an `i64`.
pub mod Names
use kehrkraft.Prelude.{ℕ, List, Option, Text, map}
use kehrkraft.Prelude.Int.{ℤ}
use Names.{person_effective_name, join_names}

pub record Building : Type 0 where
  pub id : ℕ
  pub name : Text
  pub description : Text
  pub secret_slug : Text
  pub rotation_seed : ℤ
  pub created_at : Text
  pub updated_at : Text

pub record BuildingAdministrator : Type 0 where
  pub id : ℕ
  pub building_id : ℕ
  pub person_id : ℕ
  pub name : Text
  pub display_name : Option Text
  pub email : Text
  pub created_at : Text

pub record Apartment : Type 0 where
  pub id : ℕ
  pub building_id : ℕ
  pub name : Text
  pub description : Text
  pub position : ℕ
  pub created_at : Text

pub record Person : Type 0 where
  pub id : ℕ
  pub name : Text
  pub display_name : Option Text
  pub email : Text
  pub created_at : Text

pub record PersonRef : Type 0 where
  pub person_id : ℕ
  pub name : Text
  pub display_name : Option Text
  pub email : Text
  pub position : ℕ

pub record BuildingOwner : Type 0 where
  pub id : ℕ
  pub building_id : ℕ
  pub start_date : Text
  pub end_date : Option Text
  pub created_at : Text
  pub people : List PersonRef

pub record Ownership : Type 0 where
  pub id : ℕ
  pub apartment_id : ℕ
  pub start_date : Text
  pub end_date : Option Text
  pub created_at : Text
  pub people : List PersonRef

pub record Tenancy : Type 0 where
  pub id : ℕ
  pub apartment_id : ℕ
  pub person_id : ℕ
  pub name : Text
  pub display_name : Option Text
  pub email : Text
  pub start_date : Text
  pub end_date : Option Text
  pub created_at : Text

-- `PersonRef::effective_name`.
unfoldable pub effective_name : PersonRef → Text
unfolding person_effective_name
effective_name p = person_effective_name p.name p.display_name

-- `BuildingOwner::people_names` and `Ownership::people_names`.
unfoldable pub people_names : List PersonRef → List Text
unfolding effective_name
people_names people = map effective_name people

-- `BuildingOwner::label` and `Ownership::label`.
unfoldable pub label : List PersonRef → Text
unfolding people_names join_names
label people = join_names (people_names people)

-- `Tenancy::effective_name`.
unfoldable pub tenant_effective_name : Tenancy → Text
unfolding person_effective_name
tenant_effective_name t = person_effective_name t.name t.display_name
