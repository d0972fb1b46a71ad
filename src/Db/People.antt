-- ===== src/Db/People.antt =====
-- src/db/queries.rs: people, and the people of a period.
use kehrkraft.Prelude.{
  ℕ, ◌+◌, Bool, true, false, not, ◌&&◌, List, [], ◌∷◌, ◌++◌, map, Option, none, some, Text, text_eq,
  ◌==◌, if◌then◌else◌, any, filter, find,
}
use kehrkraft.Models.Names.{trim, trim_option, non_empty}
use kehrkraft.Db.Period.{requires_person}
use kehrkraft.Db.Store.{
  PersonRow, Link, Store, DbError, rejected, row_not_found, Result, ok, err, Tx, pure, fail,
  continue, ◌>>=◌, ◌>>◌, gets, modify, demand, require, gen_token, PeriodPeopleTable, periods,
  links, set_links, identity, insert_person, update_person_row, cleanup,
}

pub record NewPerson : Type 0 where
  pub name : Text
  pub email : Text
  pub display_name : Option Text

pub record NewPeriod : Type 0 where
  pub people : List NewPerson
  pub start_date : Text
  pub end_date : Option Text

pub record PreviousPeriod : Type 0 where
  pub id : ℕ
  pub end_date : Text

module _ (sql_trim : Text → Text) where
  -- SELECT id FROM people WHERE lower(trim(email)) = lower(?).
  unfoldable pub find_person : Text → Store → Option PersonRow
  find_person email s =
      find (λ p. text_eq (identity sql_trim p.email) (kehrkraft.Db.Store.lower email)) s.people

  -- UPDATE people SET name = ? WHERE id = ? AND name != ?.
  unfoldable pub rename_person : PersonRow → Text → Tx (Unit {0})
  rename_person p name =
      if text_eq p.name name then pure tt else update_person_row sql_trim (record p { name = name })

  -- An explicitly submitted display name is set, and an empty one clears it.
  unfoldable pub set_display_name : PersonRow → Option Text → Tx (Unit {0})
  set_display_name p none = pure tt
  set_display_name p (some display) =
      update_person_row sql_trim (record p { display_name = non_empty (some display) })

  unfoldable pub resolve_existing : PersonRow → Text → Option Text → Tx ℕ
  resolve_existing p name display_name = do
    rename_person p name
    set_display_name (record p { name = name }) display_name
    pure p.id

  unfoldable pub resolve_new : Text → Text → Option Text → Tx ℕ
  resolve_new name email display_name = do
    id ← gen_token
    insert_person sql_trim
        (record { id = id; name = name; display_name = non_empty display_name; email = email })
    pure id

  abbrev pub resolve_found : Option PersonRow → Text → Text → Option Text → Tx ℕ
  resolve_found none name email display_name = resolve_new name email display_name
  resolve_found (some p) name email display_name = resolve_existing p name display_name

  unfoldable pub resolve_person : NewPerson → Tx ℕ
  resolve_person new = do
    existing ← gets (find_person (trim new.email))
    resolve_found existing (trim new.name) (trim new.email) (trim_option new.display_name)

  unfoldable pub resolve_people : List NewPerson → Tx (List ℕ)
  resolve_people [] = pure []
  resolve_people (new ∷ people) = do
    id ← resolve_person new
    ids ← resolve_people people
    pure (id ∷ ids)

-- INSERT INTO *_people: a person stands in a period once.
unfoldable pub insert_link : PeriodPeopleTable → Link → Tx (Unit {0})
insert_link table l = do
  rows ← gets (links table)
  require (not (any (λ r. (r.period == l.period) && (r.person == l.person)) rows))
  modify (set_links table (rows ++ l ∷ []))

-- The loop over `enumerate()`, from position `i` on.
unfoldable pub insert_links : PeriodPeopleTable → ℕ → ℕ → List ℕ → Tx (Unit {0})
insert_links table period i [] = pure tt
insert_links table period i (person ∷ ids) = do
  insert_link table (record { period = period; person = person; position = i })
  insert_links table period (i + 1) ids

-- INSERT … ON CONFLICT DO UPDATE SET position.
abbrev pub upsert : Link → List Link → List Link
upsert l rows =
    if any (λ r. (r.period == l.period) && (r.person == l.person)) rows
    then map (λ r. if (r.period == l.period) && (r.person == l.person) then l else r) rows
    else rows ++ l ∷ []

unfoldable pub upsert_links : PeriodPeopleTable → ℕ → ℕ → List ℕ → Tx (Unit {0})
upsert_links table period i [] = pure tt
upsert_links table period i (person ∷ ids) = do
  rows ← gets (links table)
  modify (set_links table (upsert (record { period = period; person = person; position = i }) rows))
  upsert_links table period (i + 1) ids

-- DELETE FROM *_people of one person of a period, with the trigger `*_people_guard_last` and the
-- cleanup of the person.
unfoldable pub delete_link : PeriodPeopleTable → ℕ → ℕ → Tx (Unit {0})
delete_link table period person = do
  rows ← gets (links table)
  rest ← pure (filter (λ r. not ((r.period == period) && (r.person == person))) rows)
  known ← gets (λ s. any (λ p. p.id == period) (periods table s))
  demand (if known && not (any (λ r. r.period == period) rest) then requires_person ∷ [] else [])
  modify (set_links table rest)
  modify (cleanup person)

-- The loop that deletes the people who are not in the new set.
unfoldable pub delete_links : PeriodPeopleTable → ℕ → List ℕ → List Link → Tx (Unit {0})
delete_links table period ids [] = pure tt
delete_links table period ids (l ∷ existing) = do
  (if any (λ id. id == l.person) ids then pure tt else delete_link table period l.person)
  delete_links table period ids existing

module _ (sql_trim : Text → Text) where
  unfoldable pub insert_period_with_people : PeriodPeopleTable → ℕ → NewPeriod → Tx (Unit {0})
  insert_period_with_people table period new = do
    ids ← resolve_people sql_trim new.people
    insert_links table period 0 ids

  unfoldable pub replace_period_people : PeriodPeopleTable → ℕ → NewPeriod → Tx (Unit {0})
  replace_period_people table period new = do
    ids ← resolve_people sql_trim new.people
    upsert_links table period 0 ids
    existing ← gets (λ s. filter (λ l. l.period == period) (links table s))
    delete_links table period ids existing

  -- An update that finds no row fires no trigger, and the code reports the missing row.
  abbrev pub update_known : Bool → PersonRow → Tx (Unit {0})
  update_known true new = update_person_row sql_trim new
  update_known false new = fail row_not_found

  unfoldable pub update_person : ℕ → Text → Option Text → Text → Tx (Unit {0})
  update_person id name display_name email = do
    known ← gets (λ s. any (λ p. p.id == id) s.people)
    update_known known (record {
      id = id;
      name = trim name;
      display_name = non_empty (trim_option display_name);
      email = trim email;
    })
