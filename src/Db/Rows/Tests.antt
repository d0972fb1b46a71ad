-- ===== src/Db/Rows/Tests.antt =====
-- Grouping at a concrete input.
use kehrkraft.Prelude.{ℕ, ◌≡◌, refl, [], ◌∷◌, map, none, ◌==◌, filter}
use kehrkraft.Models.Names.{chars}
use kehrkraft.Db.Rows.{
  OwnershipPersonRow, person_of, push_row, push_rows, ownerships_from_rows, people_of,
  people_of-ownerships_from_rows,
}

abbrev row : ℕ → ℕ → OwnershipPersonRow
row id person = record {
  id = id;
  apartment_id = 11;
  start_date = chars "2026-01-01";
  end_date = none;
  created_at = [];
  person_id = person;
  name = chars "Anna";
  display_name = none;
  email = chars "a@b.c";
  position = 0;
}

ids_of_periods :
    map (λ o. o.id) (ownerships_from_rows (row 1 5 ∷ row 2 6 ∷ row 1 7 ∷ [])) ≡ 1 ∷ 2 ∷ []
unfolding ownerships_from_rows push_rows push_row
ids_of_periods = refl

people_of-ownerships_from_rows_example :
    people_of 1 (ownerships_from_rows (row 1 5 ∷ row 2 6 ∷ row 1 7 ∷ []))
    ≡ map person_of (filter (λ r. r.id == 1) (row 1 5 ∷ row 2 6 ∷ row 1 7 ∷ []))
people_of-ownerships_from_rows_example =
    people_of-ownerships_from_rows 1 (row 1 5 ∷ row 2 6 ∷ row 1 7 ∷ [])
