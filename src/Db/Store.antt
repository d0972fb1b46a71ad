-- ===== src/Db/Store.antt =====
-- The tables of migrations/ as one store, a transaction on it, and the statements with their
-- triggers (migrations/0009 to 0013) that src/db/queries.rs executes. A rejected transaction
-- returns no store: the caller keeps the one that it had, as after a rollback.
use kehrkraft.Prelude.{
  ℕ, suc, ◌+◌, Bool, true, false, not, ◌&&◌, ◌||◌, List, [], ◌∷◌, ◌++◌, map, Option, none, some,
  Text, text_eq, leb, ◌==◌, if◌then◌else◌, any, filter,
}
use kehrkraft.Prelude.Int.{ℤ}
use kehrkraft.Models.Names.{is_empty}
use kehrkraft.Db.Period.{
  Period, ErrorCode, name_empty, email_at, email_dot, person_email_taken, when,
}

pub record PersonRow : Type 0 where
  pub id : ℕ
  pub name : Text
  pub display_name : Option Text
  pub email : Text

-- A row of `ownership_people` or `building_owner_people`.
pub record Link : Type 0 where
  pub period : ℕ
  pub person : ℕ
  pub position : ℕ

pub record TenancyRow : Type 0 where
  pub period : Period
  pub person : ℕ

pub record BuildingRow : Type 0 where
  pub id : ℕ
  pub name : Text
  pub description : Text
  pub secret_slug : ℕ
  pub rotation_seed : ℤ

-- A row of `building_administrators`.
pub record AdministratorRow : Type 0 where
  pub id : ℕ
  pub building : ℕ
  pub person : ℕ

pub record ApartmentRow : Type 0 where
  pub id : ℕ
  pub building : ℕ
  pub name : Text
  pub description : Text
  pub position : ℕ

-- The administrators are listed in the order of their creation. `token` are the values that `gen_token` draws; `today` is date('now', 'localtime').
pub record Store : Type 0 where
  pub today : ℕ
  pub token : ℕ → ℕ
  pub drawn : ℕ
  pub people : List PersonRow
  pub buildings : List BuildingRow
  pub administrators : List AdministratorRow
  pub apartments : List ApartmentRow
  pub ownerships : List Period
  pub ownership_people : List Link
  pub building_owners : List Period
  pub building_owner_people : List Link
  pub tenancies : List TenancyRow

-- Why a statement fails: the codes of the triggers that reject, a key that is taken or missing,
-- or a row that is not there, which is an error or, at an `expect`, a panic.
pub data DbError : Type 0 where
  rejected : List ErrorCode → DbError
  constraint row_not_found panicked : DbError

pub data Result (A : Type 0) : Type 0 where
  ok : A → Result A
  err : DbError → Result A

abbrev pub Tx : Type 0 → Type 0
Tx A = Store → Result (A × Store)

abbrev pub pure : {A : Type 0} → A → Tx A
pure a s = ok (a, s)

abbrev pub fail : {A : Type 0} → DbError → Tx A
fail e s = err e

abbrev pub continue : {A B : Type 0} → (A → Tx B) → Result (A × Store) → Result (B × Store)
continue f (ok (a, s)) = f a s
continue f (err e) = err e

infixl 5 ◌>>=◌ ◌>>◌
abbrev pub ◌>>=◌ : {A B : Type 0} → Tx A → (A → Tx B) → Tx B
◌>>=◌ m f s = continue f (m s)

abbrev pub ◌>>◌ : {A B : Type 0} → Tx A → Tx B → Tx B
m >> k = m >>= λ _. k

abbrev pub gets : {A : Type 0} → (Store → A) → Tx A
gets f s = ok (f s, s)

abbrev pub modify : (Store → Store) → Tx (Unit {0})
modify f s = ok (tt, f s)

-- The triggers of a statement: none may reject.
abbrev pub demand : List ErrorCode → Tx (Unit {0})
demand [] s = ok (tt, s)
demand (c ∷ cs) s = err (rejected (c ∷ cs))

-- A key or foreign key.
abbrev pub require : Bool → Tx (Unit {0})
require true s = ok (tt, s)
require false s = err constraint

unfoldable pub gen_token : Tx ℕ
gen_token s = ok (s.token s.drawn, record s { drawn = suc s.drawn })

-- The tables of a period with its people.
pub data PeriodPeopleTable : Type 0 where
  ownership building_owner : PeriodPeopleTable

abbrev pub periods : PeriodPeopleTable → Store → List Period
periods ownership s = s.ownerships
periods building_owner s = s.building_owners

abbrev pub set_periods : PeriodPeopleTable → List Period → Store → Store
set_periods ownership rows s = record s { ownerships = rows }
set_periods building_owner rows s = record s { building_owners = rows }

abbrev pub links : PeriodPeopleTable → Store → List Link
links ownership s = s.ownership_people
links building_owner s = s.building_owner_people

abbrev pub set_links : PeriodPeopleTable → List Link → Store → Store
set_links ownership rows s = record s { ownership_people = rows }
set_links building_owner rows s = record s { building_owner_people = rows }

-- lower(…) of SQLite, which is of the ASCII letters.
unfoldable pub lower : Text → Text
lower s = map (λ c. if leb b'A' c && leb c b'Z' then c + 32 else c) s

unfoldable pub after_at : Text → Option Text
after_at [] = none
after_at (c ∷ s) = if c == b'@' then some s else after_at s

abbrev pub has_dot : Option Text → Bool
has_dot none = false
has_dot (some s) = any (λ c. c == b'.') s

module _ (sql_trim : Text → Text) where
  -- The identity of a person: lower(trim(email)).
  unfoldable pub identity : Text → Text
  unfolding lower
  identity email = lower (sql_trim email)

  -- The triggers `people_*_insert` and `people_*_update` on a row with this id. Where there is
  -- no '@', `substr` from 1 on is the whole address.
  unfoldable pub person_violations : PersonRow → List PersonRow → List ErrorCode
  unfolding identity after_at
  person_violations new people =
      when (is_empty (sql_trim new.name)) name_empty
      ++ (when (elim (after_at (sql_trim new.email)) [ none ↦ true | some _ ↦ false ]) email_at
          ++ (when
                (not (
                  has_dot (elim (after_at (sql_trim new.email)) [
                    | none ↦ some (sql_trim new.email)
                    | some domain ↦ some domain
                  ])))
                email_dot
              ++ when
                  (any
                    (λ p. text_eq (identity p.email) (identity new.email) && not (p.id == new.id))
                    people)
                  person_email_taken))

  unfoldable pub insert_person : PersonRow → Tx (Unit {0})
  insert_person new = do
    people ← gets (λ s. s.people)
    demand (person_violations new people)
    require (not (any (λ p. p.id == new.id) people))
    modify (λ s. record s { people = new ∷ people })

  -- UPDATE people of the row with the id of `new`.
  unfoldable pub update_person_row : PersonRow → Tx (Unit {0})
  update_person_row new = do
    people ← gets (λ s. s.people)
    demand (person_violations new people)
    modify (λ s. record s { people = map (λ p. if p.id == new.id then new else p) people })

-- Whether a person has a role in any of the four tables.
unfoldable pub has_role : Store → ℕ → Bool
has_role s id =
    any (λ l. l.person == id) s.ownership_people
    || any (λ l. l.person == id) s.building_owner_people
    || any (λ t. t.person == id) s.tenancies
    || any (λ a. a.person == id) s.administrators

-- The trigger `*_people_cleanup` after the deletion of a reference to the person.
unfoldable pub cleanup : ℕ → Store → Store
cleanup id s =
    if has_role s id then s else record s { people = filter (λ p. not (p.id == id)) s.people }

unfoldable pub cleanup_all : List ℕ → Store → Store
cleanup_all [] s = s
cleanup_all (id ∷ ids) s = cleanup_all ids (cleanup id s)
