-- ===== src/Db/Periods/Frame.antt =====
-- The steps on people and links leave the tables of periods as they are.
use kehrkraft.Prelude.{
  ℕ, suc, ◌+◌, Bool, true, false, not, ◌&&◌, List, [], ◌∷◌, ◌++◌, map, Option, none, some, Text,
  ◌==◌, if◌then◌else◌, any, filter,
}
use kehrkraft.Models.Names.{trim}
use kehrkraft.Db.Period.{Period, ErrorCode, requires_person}
use kehrkraft.Db.Store.{
  Store, PersonRow, Link, Tx, pure, require, modify, ◌>>◌, gen_token, PeriodPeopleTable, ownership,
  building_owner, periods, links, set_links, insert_person, update_person_row, cleanup, cleanup_all,
  person_violations, has_role,
}
use kehrkraft.Db.People.{
  NewPerson, NewPeriod, rename_person, set_display_name, resolve_existing, resolve_new,
  resolve_found, resolve_person, resolve_people, insert_link, insert_links, upsert_links,
  delete_link, delete_links, insert_period_with_people, replace_period_people, find_person,
}
use kehrkraft.Db.Periods.Hoare.{
  Ensures, Of, Keeps, bind-Keeps, demand-Ensures, require-Ensures, ok-Ensures,
}

module _ (Q : List Period → List Period → Type 0) where
  abbrev Kept : {A : Type 0} → A → Store → Type 0
  Kept _ s = Of Q s

  set_links-Of :
      (table : PeriodPeopleTable) (rows : List Link) (s : Store)
      → Of Q s
      → Of Q (set_links table rows s)
  set_links-Of ownership rows s i = i
  set_links-Of building_owner rows s i = i

  pub cleanup-Of : (id : ℕ) (s : Store) → Of Q s → Of Q (cleanup id s)
  unfolding cleanup
  cleanup-Of id s i = either (has_role s id)
    where
      either :
          (b : Bool)
          → Of Q (if b then s else record s { people = filter (λ p. not (p.id == id)) s.people })
      either true = i
      either false = i

  pub cleanup_all-Of : (ids : List ℕ) (s : Store) → Of Q s → Of Q (cleanup_all ids s)
  unfolding cleanup_all
  cleanup_all-Of [] s i = i
  cleanup_all-Of (id ∷ ids) s i = cleanup_all-Of ids (cleanup id s) (cleanup-Of id s i)

  pub links-Of :
      (table : PeriodPeopleTable) (rows : List Link) (s : Store)
      → Of Q s
      → Of Q (set_links table rows s)
  links-Of table rows s i = set_links-Of table rows s i

  pub pure-Keeps : {A : Type 0} → (a : A) → Keeps Q (pure a)
  unfolding Ensures
  pure-Keeps a s i = i

  pub unless-Keeps : (b : Bool) (m : Tx (Unit {0})) → Keeps Q m → Keeps Q (if b then pure tt else m)
  unless-Keeps true m h = pure-Keeps tt
  unless-Keeps false m h = h

  module _ (sql_trim : Text → Text) where
    insert_person-Keeps : (p : PersonRow) → Keeps Q (insert_person sql_trim p)
    unfolding insert_person
    insert_person-Keeps p s i =
        demand-Ensures Kept
          (λ _.
            require (not (any (λ q. q.id == p.id) s.people))
            >> modify (λ t. record t { people = p ∷ s.people }))
          (person_violations sql_trim p s.people) s
          (λ _.
            require-Ensures Kept (λ _. modify (λ t. record t { people = p ∷ s.people }))
              (not (any (λ q. q.id == p.id) s.people)) s
              (λ _. ok-Ensures Kept tt (record s { people = p ∷ s.people }) i))

    update_person_row-Keeps : (p : PersonRow) → Keeps Q (update_person_row sql_trim p)
    unfolding update_person_row
    update_person_row-Keeps p s i =
        demand-Ensures Kept (λ _. modify (λ t. record t { people = renamed }))
          (person_violations sql_trim p s.people) s
          (λ _. ok-Ensures Kept tt (record s { people = renamed }) i)
      where
        renamed : List PersonRow
        renamed = map (λ q. if q.id == p.id then p else q) s.people

    rename_person-Keeps : (p : PersonRow) (name : Text) → Keeps Q (rename_person sql_trim p name)
    unfolding rename_person
    rename_person-Keeps p name =
        unless-Keeps _ _ (update_person_row-Keeps (record p { name = name }))

    set_display_name-Keeps :
        (p : PersonRow) (d : Option Text) → Keeps Q (set_display_name sql_trim p d)
    unfolding set_display_name
    set_display_name-Keeps p none s i = pure-Keeps tt s i
    set_display_name-Keeps p (some d) s i = update_person_row-Keeps _ s i

    resolve_existing-Keeps :
        (p : PersonRow) (name : Text) (d : Option Text)
        → Keeps Q (resolve_existing sql_trim p name d)
    unfolding resolve_existing
    resolve_existing-Keeps p name d s i =
        bind-Keeps Q _ _ (rename_person-Keeps p name s i)
          (λ _ s' i'. bind-Keeps Q _ _ (set_display_name-Keeps _ d s' i') (λ _. pure-Keeps p.id))

    resolve_new-Keeps :
        (name email : Text) (d : Option Text) → Keeps Q (resolve_new sql_trim name email d)
    unfolding resolve_new gen_token
    resolve_new-Keeps name email d s i =
        bind-Keeps Q _ _ (insert_person-Keeps _ (record s { drawn = suc s.drawn }) i)
          (λ _. pure-Keeps _)

    resolve_found-Keeps :
        (found : Option PersonRow) (name email : Text) (d : Option Text)
        → Keeps Q (resolve_found sql_trim found name email d)
    resolve_found-Keeps none name email d = resolve_new-Keeps name email d
    resolve_found-Keeps (some p) name email d = resolve_existing-Keeps p name d

    pub resolve_person-Keeps : (new : NewPerson) → Keeps Q (resolve_person sql_trim new)
    unfolding resolve_person
    resolve_person-Keeps new s i =
        resolve_found-Keeps (find_person sql_trim (trim new.email) s) _ _ _ s i

    resolve_people-Keeps : (people : List NewPerson) → Keeps Q (resolve_people sql_trim people)
    unfolding resolve_people
    resolve_people-Keeps [] s i = pure-Keeps [] s i
    resolve_people-Keeps (new ∷ people) s i =
        bind-Keeps Q _ _ (resolve_person-Keeps new s i)
          (λ _ s' i'. bind-Keeps Q _ _ (resolve_people-Keeps people s' i') (λ _. pure-Keeps _))

    insert_link-Keeps : (table : PeriodPeopleTable) (l : Link) → Keeps Q (insert_link table l)
    unfolding insert_link
    insert_link-Keeps table l s i =
        require-Ensures Kept (λ _. modify (set_links table (links table s ++ l ∷ [])))
          (not (any (λ r. (r.period == l.period) && (r.person == l.person)) (links table s))) s
          (λ _.
            ok-Ensures Kept tt (set_links table (links table s ++ l ∷ []) s)
              (set_links-Of table (links table s ++ l ∷ []) s i))

    insert_links-Keeps :
        (table : PeriodPeopleTable) (period n : ℕ) (ids : List ℕ)
        → Keeps Q (insert_links table period n ids)
    unfolding insert_links
    insert_links-Keeps table period n [] s i = pure-Keeps tt s i
    insert_links-Keeps table period n (id ∷ ids) s i =
        bind-Keeps Q _ _ (insert_link-Keeps table _ s i)
          (λ _. insert_links-Keeps table period (n + 1) ids)

    upsert_links-Keeps :
        (table : PeriodPeopleTable) (period n : ℕ) (ids : List ℕ)
        → Keeps Q (upsert_links table period n ids)
    unfolding upsert_links
    upsert_links-Keeps table period n [] s i = pure-Keeps tt s i
    upsert_links-Keeps table period n (id ∷ ids) s i =
        upsert_links-Keeps table period (n + 1) ids _ (set_links-Of table _ s i)

    delete_link-Keeps :
        (table : PeriodPeopleTable) (period person : ℕ) → Keeps Q (delete_link table period person)
    unfolding delete_link
    delete_link-Keeps table period person s i =
        demand-Ensures Kept (λ _. modify (set_links table rest) >> modify (cleanup person)) codes s
          (λ _.
            ok-Ensures Kept tt (cleanup person (set_links table rest s))
              (cleanup-Of person (set_links table rest s) (set_links-Of table rest s i)))
      where
        rest : List Link
        rest = filter (λ r. not ((r.period == period) && (r.person == person))) (links table s)

        codes : List ErrorCode
        codes =
            if any (λ p. p.id == period) (periods table s)
              && not (any (λ r. r.period == period) rest)
            then requires_person ∷ []
            else []

    delete_links-Keeps :
        (table : PeriodPeopleTable) (period : ℕ) (ids : List ℕ) (ls : List Link)
        → Keeps Q (delete_links table period ids ls)
    unfolding delete_links
    delete_links-Keeps table period ids [] s i = pure-Keeps tt s i
    delete_links-Keeps table period ids (l ∷ ls) s i =
        bind-Keeps Q _ _ (unless-Keeps _ _ (delete_link-Keeps table period l.person) s i)
          (λ _. delete_links-Keeps table period ids ls)

    pub insert_period_with_people-Keeps :
        (table : PeriodPeopleTable) (period : ℕ) (new : NewPeriod)
        → Keeps Q (insert_period_with_people sql_trim table period new)
    unfolding insert_period_with_people
    insert_period_with_people-Keeps table period new s i =
        bind-Keeps Q _ _ (resolve_people-Keeps new.people s i)
          (λ ids. insert_links-Keeps table period 0 ids)

    pub replace_period_people-Keeps :
        (table : PeriodPeopleTable) (period : ℕ) (new : NewPeriod)
        → Keeps Q (replace_period_people sql_trim table period new)
    unfolding replace_period_people
    replace_period_people-Keeps table period new s i =
        bind-Keeps Q _ _ (resolve_people-Keeps new.people s i) (λ ids s' i'.
          bind-Keeps Q _ _ (upsert_links-Keeps table period 0 ids s' i')
            (λ _ s''. delete_links-Keeps table period ids _ s''))
