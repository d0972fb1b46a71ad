-- ===== src/Db/Rows.antt =====
-- src/db/queries.rs: the rows of a join of periods and people, grouped by period.
use kehrkraft.Prelude.{
  ℕ, ◌≡◌, refl, sym, ap, ◌∙◌, inl, inr, Bool, true, false, List, [], ◌∷◌, ◌++◌, map, Option, Text,
  arith, ◌==◌, if◌then◌else◌, filter, append-nil, append_assoc, Bool-cases,
}
use kehrkraft.Models.{PersonRef, Ownership, BuildingOwner}
mod Tests

pub record OwnershipPersonRow : Type 0 where
  pub id : ℕ
  pub apartment_id : ℕ
  pub start_date : Text
  pub end_date : Option Text
  pub created_at : Text
  pub person_id : ℕ
  pub name : Text
  pub display_name : Option Text
  pub email : Text
  pub position : ℕ

abbrev pub person_of : OwnershipPersonRow → PersonRef
person_of row = record {
  person_id = row.person_id;
  name = row.name;
  display_name = row.display_name;
  email = row.email;
  position = row.position;
}

abbrev pub period_of : OwnershipPersonRow → Ownership
period_of row = record {
  id = row.id;
  apartment_id = row.apartment_id;
  start_date = row.start_date;
  end_date = row.end_date;
  created_at = row.created_at;
  people = person_of row ∷ [];
}

-- The body of the loop: `index` finds the period of the row, if it is in the list.
unfoldable pub push_row : OwnershipPersonRow → List Ownership → List Ownership
push_row row [] = period_of row ∷ []
push_row row (o ∷ ownerships) =
    let rest = push_row row ownerships in
    if o.id == row.id
    then record o { people = o.people ++ person_of row ∷ [] } ∷ ownerships
    else o ∷ rest

unfoldable pub push_rows : List Ownership → List OwnershipPersonRow → List Ownership
push_rows ownerships [] = ownerships
push_rows ownerships (row ∷ rows) = push_rows (push_row row ownerships) rows

unfoldable pub ownerships_from_rows : List OwnershipPersonRow → List Ownership
ownerships_from_rows rows = push_rows [] rows

-- The people of the first period with this id.
unfoldable pub people_of : ℕ → List Ownership → List PersonRef
people_of id [] = []
people_of id (o ∷ ownerships) = if o.id == id then o.people else people_of id ownerships

people_of-push_row :
    (id : ℕ) (row : OwnershipPersonRow) (os : List Ownership)
    → people_of id (push_row row os)
      ≡ people_of id os ++ (if row.id == id then person_of row ∷ [] else [])
unfolding people_of push_row
people_of-push_row id row [] = ground arith
people_of-push_row id row (o ∷ os) =
    ground (arith, append-nil o.people, append-nil (people_of id os), people_of-push_row id row os)

people_of-push_rows :
    (id : ℕ) (rows : List OwnershipPersonRow) (os : List Ownership)
    → people_of id (push_rows os rows)
      ≡ people_of id os ++ map person_of (filter (λ r. r.id == id) rows)
unfolding push_rows
people_of-push_rows id [] os = sym (append-nil (people_of id os))
people_of-push_rows id (row ∷ rows) os =
    people_of-push_rows id rows (push_row row os)
    ∙ ap (λ l. l ++ map person_of (filter (λ r. r.id == id) rows)) (people_of-push_row id row os)
    ∙ append_assoc (people_of id os) (if row.id == id then person_of row ∷ [] else [])
        (map person_of (filter (λ r. r.id == id) rows))
    ∙ ap (λ l. people_of id os ++ l) (ground arith)

-- The people of each period are those of its rows, in the order of the rows.
pub people_of-ownerships_from_rows :
    (id : ℕ) (rows : List OwnershipPersonRow)
    → people_of id (ownerships_from_rows rows) ≡ map person_of (filter (λ r. r.id == id) rows)
unfolding ownerships_from_rows people_of
people_of-ownerships_from_rows id rows = people_of-push_rows id rows []
