-- ===== src/Db/Periods/Steps.antt =====
-- The timelines after the row of an ownership or a building owner is inserted or stored again.
use kehrkraft.Prelude.{
  ℕ, ◌≤◌, ◌≡◌, refl, sym, inl, inr, Bool, true, not, List, [], ◌∷◌, ◌++◌, Option, none, some, Text,
  arith, ◌==◌, any, In, Bool-cases, Option-cases, subst,
}
use kehrkraft.Db.Period.{
  Period, ErrorCode, far, last_day, chain_violations, when, find_row, replace_row, requires_person,
}
use kehrkraft.Db.Period.Days.{IsAccepted, chain_violations-IsAccepted, any-false}
use kehrkraft.Db.Period.Tiling.{IsChain, Meets}
use kehrkraft.Db.Period.Moves.{IsStorable, insert-IsChain, replace-IsChain}
use kehrkraft.Db.Store.{
  Store, Tx, continue, demand, require, modify, ◌>>◌, PeriodPeopleTable, ownership, building_owner,
  periods, set_periods, links,
}
use kehrkraft.Db.People.{NewPeriod}
use kehrkraft.Db.Periods.{exclusion, end_day, row_ending, row_from, insert_period, store_row}
use kehrkraft.Db.Periods.Hoare.{
  Ensures, Keeps, err-Ensures, demand-Ensures, require-Ensures, ok-Ensures,
}

-- The two tables of periods tile the timelines of their subjects.
abbrev pub IsTiledPair : List Period → List Period → Type 0
IsTiledPair owners building_owners = IsChain owners × IsChain building_owners

abbrev pub IsTiled : Store → Type 0
IsTiled s = IsTiledPair s.ownerships s.building_owners

abbrev pub Kept : {A : Type 0} → A → Store → Type 0
Kept _ s = IsTiled s

pub periods-IsChain :
    (table : PeriodPeopleTable) (s : Store) → IsTiled s → IsChain (periods table s)
periods-IsChain ownership s i = i.0
periods-IsChain building_owner s i = i.1

pub set_periods-IsTiled :
    (table : PeriodPeopleTable) (rows : List Period) (s : Store)
    → IsTiled s
    → IsChain rows
    → IsTiled (set_periods table rows s)
set_periods-IsTiled ownership rows s i chain = (chain, i.1)
set_periods-IsTiled building_owner rows s i chain = (i.0, chain)

pub no_codes : (xs ys : List ErrorCode) → xs ++ ys ≡ [] → (xs ≡ []) × (ys ≡ [])
no_codes [] ys h = (refl, h)
no_codes (x ∷ xs) ys h = absurd (grind (arith, h))

pub find_row-In :
    (id : ℕ) (rows : List Period) (o : Period) → find_row id rows ≡ some o → In o rows × (o.id ≡ id)
unfolding find_row
find_row-In id [] o h = absurd (grind (arith, h))
find_row-In id (x ∷ rows) o h = elim (Bool-cases (x.id == id)) [
  | inl t ↦
      let e : x ≡ o = grind (arith, t, h) in
      (inl (sym e), subst (λ (p : Period). p.id ≡ id) e (ground (arith, t)))
  | inr f ↦ let (i, e) = find_row-In id rows o (rw f at h) in (inr i, e)
]

module _ (canonical : Text → Option ℕ)
    (within : (t : Text) (d : ℕ) → canonical t ≡ some d → d ≤ far) where
  -- What a row with these dates is, if the dates have the right form.
  pub record IsRow (id subject : ℕ) (start : Option ℕ) (end : Option (Option ℕ)) (row : Period)
      : Type 0 where
    pub id_is : row.id ≡ id
    pub subject_is : row.subject ≡ subject
    pub start_is : start ≡ some row.start
    pub end_is : end ≡ some row.end
    pub end_within : last_day row ≤ far

  ending-Ensures :
      {B : Type 0} (Q : B → Store → Type 0) (f : Period → Tx B) (id subject start : ℕ)
      (e : Option (Option ℕ)) (s : Store)
      → ((d : ℕ) → e ≡ some (some d) → d ≤ far)
      → ((row : Period) → IsRow id subject (some start) e row → Ensures Q (f row s))
      → Ensures Q (continue f (row_ending canonical id subject start e s))
  unfolding Ensures
  ending-Ensures Q f id subject start none s w k = tt
  ending-Ensures Q f id subject start (some none) s w k = k _ (record {
    id_is = refl;
    subject_is = refl;
    start_is = refl;
    end_is = refl;
    end_within = omega arith;
  })
  ending-Ensures Q f id subject start (some (some d)) s w k = k _ (record {
    id_is = refl;
    subject_is = refl;
    start_is = refl;
    end_is = refl;
    end_within = w d refl;
  })

  end_within_of : (e : Option Text) (d : ℕ) → end_day canonical e ≡ some (some d) → d ≤ far
  end_within_of none d h = absurd (grind (arith, h))
  end_within_of (some t) d h = elim (Option-cases (canonical t)) [
    | inl none_is ↦ absurd (grind (arith, none_is, h))
    | inr (c, is) ↦ within t d (grind (arith, is, h))
  ]

  pub row-Ensures :
      {B : Type 0} (Q : B → Store → Type 0) (f : Period → Tx B) (id subject : ℕ) (start : Option ℕ)
      (e : Option Text) (s : Store)
      → ((row : Period) → IsRow id subject start (end_day canonical e) row → Ensures Q (f row s))
      → Ensures Q (continue f (row_from canonical id subject start e s))
  row-Ensures Q f id subject none e s k = err-Ensures Q _
  row-Ensures Q f id subject (some d) e s k =
      ending-Ensures Q f id subject d (end_day canonical e) s (end_within_of e) k

  pub insert_period-Keeps :
      (table : PeriodPeopleTable) (id subject : ℕ) (new : NewPeriod)
      → Keeps IsTiledPair (insert_period canonical table id subject new)
  unfolding insert_period
  insert_period-Keeps table id subject new s i =
      row-Ensures Kept
        (λ row.
          demand (codes row)
          >> (require unused >> modify (set_periods table (row ∷ periods table s))))
        id subject (canonical new.start_date) new.end_date s
        (λ row is.
          demand-Ensures Kept
            (λ _. require unused >> modify (set_periods table (row ∷ periods table s))) (codes row)
            s
            (λ accepted.
              require-Ensures Kept (λ _. modify (set_periods table (row ∷ periods table s))) unused
                s
                (λ free.
                  ok-Ensures Kept tt (set_periods table (row ∷ periods table s) s)
                    (stored row is accepted free))))
    where
      linked : List ErrorCode
      linked = when (not (any (λ l. l.period == id) (links table s))) requires_person

      codes : Period → List ErrorCode
      codes row = exclusion table s subject ++ (linked ++ chain_violations row (periods table s))

      unused : Bool
      unused = not (any (λ p. p.id == id) (periods table s))

      stored :
          (row : Period)
          → IsRow id subject (canonical new.start_date) (end_day canonical new.end_date) row
          → codes row ≡ []
          → unused ≡ true
          → IsTiled (set_periods table (row ∷ periods table s) s)
      stored row is accepted free = set_periods-IsTiled table (row ∷ periods table s) s i (
          insert-IsChain (periods table s) (periods-IsChain table s i) row
            (within new.start_date row.start is.start_is, is.end_within)
            (no_codes linked _ (no_codes (exclusion table s subject) _ accepted).1).1
            (λ o listed same. ground (
              arith,
              any-false (λ p. p.id == id) (periods table s) o (ground (arith, free)) listed,
              is.id_is,
              same,
            )))

  -- A row of the period's days, and what the update of the row asks of them.
  pub store_row-Keeps :
      (table : PeriodPeopleTable) (s : Store) (i : IsTiled s) (old row : Period)
      → In old (periods table s)
      → old.id ≡ row.id
      → IsStorable row
      → (IsAccepted row (periods table s) → Meets row old)
      → Ensures (λ _ s'. IsTiled s') (store_row canonical table row s)
  store_row-Keeps table s i old row listed same storable meets =
      demand-Ensures Kept (λ _. modify (set_periods table (replace_row row (periods table s))))
        (chain_violations row (periods table s)) s
        (λ accepted. ok-Ensures Kept tt (set_periods table (replace_row row (periods table s)) s) (
          set_periods-IsTiled table (replace_row row (periods table s)) s i (
            replace-IsChain (periods table s) (periods-IsChain table s i) row storable accepted old
              listed same
              (meets (chain_violations-IsAccepted row (periods table s) storable.0 accepted)))))
