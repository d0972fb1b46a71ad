-- ===== src/Db/Periods/Chains.antt =====
-- The timelines after the operations on ownerships and building owners.
use kehrkraft.Prelude.{
  ℕ, ◌≤◌, ◌≡◌, refl, sym, Bool, true, false, not, ◌&&◌, [], map, Option, none, some, Text, arith,
  ◌==◌, filter, In, leb, length,
}
use kehrkraft.Db.Period.{
  Period, ErrorCode, far, when, is_middle, find_row, remove_row, last_delete, middle_delete,
}
use kehrkraft.Db.Period.Days.{IsAccepted}
use kehrkraft.Db.Period.Tiling.{IsChain, Meets}
use kehrkraft.Db.Period.Moves.{IsStorable}
use kehrkraft.Db.Period.Removal.{remove-IsChain}
use kehrkraft.Db.Store.{
  Store, pure, modify, ◌>>◌, gen_token, PeriodPeopleTable, periods, set_periods, links, set_links,
  cleanup_all,
}
use kehrkraft.Db.People.{NewPeriod, PreviousPeriod}
use kehrkraft.Db.Periods.{
  subject_known, guards, is_needed, end_day, store_row, close_found, close_period, create_period,
  create_closing_previous, delete_found, delete_period,
}
use kehrkraft.Db.Periods.Hoare.{
  Ensures, Keeps, bind-Keeps, demand-Ensures, require-Ensures, ok-Ensures,
}
use kehrkraft.Db.Periods.Frame.{insert_period_with_people-Keeps, cleanup_all-Of, links-Of}
use kehrkraft.Db.Periods.Steps.{
  IsTiled, IsTiledPair, Kept, periods-IsChain, set_periods-IsTiled, no_codes, find_row-In, IsRow,
  row-Ensures, insert_period-Keeps, store_row-Keeps,
}

module _ (canonical : Text → Option ℕ)
    (within : (t : Text) (d : ℕ) → canonical t ≡ some d → d ≤ far) where
  close_found-Keeps :
      (table : PeriodPeopleTable) (end_date : Text) (s : Store) (found : Option Period)
      → IsTiled s
      → ((old : Period) → found ≡ some old → In old (periods table s))
      → Ensures (λ _ s'. IsTiled s') (close_found canonical table end_date found s)
  close_found-Keeps table end_date s none i listed = ok-Ensures Kept tt s i
  close_found-Keeps table end_date s (some old) i listed =
      row-Ensures canonical within Kept (store_row canonical table) old.id old.subject
        (some old.start) (some end_date) s
        (λ row is.
          store_row-Keeps canonical within table s i old row (listed old refl) (sym is.id_is)
            (storable row is) (meets row is))
    where
      chain : IsChain (periods table s)
      chain = periods-IsChain table s i

      same_start :
          (row : Period)
          → IsRow canonical within old.id old.subject
              (some old.start)
              (end_day canonical (some end_date))
              row
          → old.start ≡ row.start
      same_start row is = grind (arith, is.start_is)

      storable :
          (row : Period)
          → IsRow canonical within old.id old.subject
              (some old.start)
              (end_day canonical (some end_date))
              row
          → IsStorable row
      storable row is = (
        omega (
          arith,
          same_start row is,
          (chain.ordered old (listed old refl)).0,
          (chain.ordered old (listed old refl)).1,
        ),
        is.end_within,
      )

      meets :
          (row : Period)
          → IsRow canonical within old.id old.subject
              (some old.start)
              (end_day canonical (some end_date))
              row
          → IsAccepted row (periods table s)
          → Meets row old
      meets row is accepted = (
        sym is.subject_is,
        omega (arith, same_start row is, (chain.ordered old (listed old refl)).0),
        omega (arith, same_start row is, accepted.ordered),
      )

  close_period-Keeps :
      (table : PeriodPeopleTable) (previous : PreviousPeriod)
      → Keeps IsTiledPair (close_period canonical table previous)
  unfolding close_period
  close_period-Keeps table previous s i =
      close_found-Keeps table previous.end_date s (find_row previous.id (periods table s)) i
        (λ old found. (find_row-In previous.id (periods table s) old found).0)

  module _ (sql_trim : Text → Text) where
    -- If ownerships and building owners tile the timelines, they do so after `create_ownership` or
    -- `create_building_owner`, unless it is rejected.
    pub create_period-IsTiled :
        (table : PeriodPeopleTable) (subject : ℕ) (new : NewPeriod) (s : Store)
        → IsTiled s
        → Ensures (λ _ s'. IsTiled s') (create_period canonical sql_trim table subject new s)
    unfolding create_period gen_token
    create_period-IsTiled table subject new s i =
        bind-Keeps IsTiledPair _ _
          (insert_period_with_people-Keeps IsTiledPair sql_trim table _ new _ i)
          (λ _ s' i'.
            bind-Keeps IsTiledPair _ _
              (insert_period-Keeps canonical within table _ subject new s' i')
              (λ _ s'' i''.
                require-Ensures Kept (λ _. pure (s.token s.drawn)) (subject_known table s'' subject)
                  s'' (λ _. ok-Ensures Kept (s.token s.drawn) s'' i'')))

    -- If ownerships and building owners tile the timelines, they do so after
    -- `create_ownership_closing_previous` or `create_building_owner_closing_previous`, unless it is
    -- rejected.
    pub create_closing_previous-IsTiled :
        (table : PeriodPeopleTable) (subject : ℕ) (previous : PreviousPeriod) (new : NewPeriod)
        (s : Store)
        → IsTiled s
        → Ensures
            (λ _ s'. IsTiled s')
            (create_closing_previous canonical sql_trim table subject previous new s)
    unfolding create_closing_previous
    create_closing_previous-IsTiled table subject previous new s i =
        bind-Keeps IsTiledPair _ _ (close_period-Keeps table previous s i)
          (λ _. create_period-IsTiled table subject new)

guards_middle :
    (table : PeriodPeopleTable) (s : Store) (old : Period)
    → subject_known table s old.subject ≡ true
    → guards table s old ≡ []
    → is_middle old (periods table s) ≡ false
unfolding guards
guards_middle table s old known allowed =
    not_when (is_middle old (periods table s)) middle_delete
      (no_codes (when (is_middle old (periods table s)) middle_delete) _
        (no_codes
          (when
            (leb (length (filter (λ o. o.subject == old.subject) (periods table s))) 1
              && is_needed table s old.subject)
            last_delete)
          _ (rw known at allowed)).1).0
  where
    not_when : (b : Bool) (c : ErrorCode) → when b c ≡ [] → b ≡ false
    not_when false c h = refl
    not_when true c h = absurd (grind (arith, h))

-- If ownerships and building owners tile the timelines and the subject of each period is known,
-- they do so after `delete_ownership` or `delete_building_owner`, unless it is rejected.
pub delete_period-IsTiled :
    (table : PeriodPeopleTable) (id : ℕ) (s : Store)
    → ((o : Period) → In o (periods table s) → subject_known table s o.subject ≡ true)
    → IsTiled s
    → Ensures (λ _ s'. IsTiled s') (delete_period table id s)
unfolding delete_period
delete_period-IsTiled table id s known i =
    found_keeps (find_row id (periods table s))
      (λ old found. (find_row-In id (periods table s) old found).0)
  where
    found_keeps :
        (found : Option Period)
        → ((old : Period) → found ≡ some old → In old (periods table s))
        → Ensures (λ _ s'. IsTiled s') (delete_found table found s)
    found_keeps none listed = ok-Ensures Kept false s i
    found_keeps (some old) listed =
        demand-Ensures Kept
          (λ _.
            modify (set_periods table (remove_row old.id (periods table s)))
            >> (modify (set_links table (filter (λ l. not (l.period == old.id)) (links table s)))
                >> (modify (
                      cleanup_all
                        (map (λ l. l.person) (filter (λ l. l.period == old.id) (links table s))))
                    >> pure true)))
          (guards table s old) s
          (λ allowed. ok-Ensures Kept true _ (
            cleanup_all-Of IsTiledPair _ _ (
              links-Of IsTiledPair table _ _ (
                set_periods-IsTiled table _ s i (
                  remove-IsChain (periods table s) (periods-IsChain table s i) old (listed old refl)
                    (guards_middle table s old (known old (listed old refl)) allowed))))))
