-- ===== src/Db/Periods/Update.antt =====
-- The timelines after `update_ownership` and `update_building_owner` of src/db/queries.rs.
use kehrkraft.Prelude.{
  ℕ, ◌≤◌, ◌≡◌, refl, sym, ap, ◌∙◌, inl, inr, Bool, List, Option, none, some, Text, arith, ◌==◌, any,
  In, subst, Option-cases,
}
use kehrkraft.Db.Period.{Period, far, last_day, find_row}
use kehrkraft.Db.Store.{Store, PeriodPeopleTable, ownership, building_owner, periods, links}
use kehrkraft.Db.People.{NewPeriod}
use kehrkraft.Db.Periods.{end_day, store_row, update_found, update_dates, updated, update_period}
use kehrkraft.Db.Periods.Hoare.{Ensures, bind-Ensures, ok-Ensures, err-Ensures}
use kehrkraft.Db.Periods.Frame.{replace_period_people-Keeps}
use kehrkraft.Db.Periods.Steps.{
  IsTiled, IsTiledPair, row-Ensures, store_row-Keeps, find_row-In, periods-IsChain,
}

abbrev Kept : {A : Type 0} → A → Store → Type 0
Kept _ s = IsTiled s

-- The tables of periods are tiled and those of `s`.
abbrev IsUnchanged : Store → List Period → List Period → Type 0
IsUnchanged s owners building_owners =
    IsTiledPair owners building_owners
    × (owners ≡ s.ownerships)
    × (building_owners ≡ s.building_owners)

unchanged-periods :
    (table : PeriodPeopleTable) (s t : Store)
    → IsUnchanged s t.ownerships t.building_owners
    → periods table t ≡ periods table s
unchanged-periods ownership s t u = u.1
unchanged-periods building_owner s t u = u.2

-- The new dates leave the period a day of its old ones.
pub record IsNear (canonical : Text → Option ℕ) (old : Period) (new : NewPeriod) : Type 0 where
  pub starts : (a : ℕ) → canonical new.start_date ≡ some a → a ≤ last_day old
  pub ends : (e : Text) (b : ℕ) → new.end_date ≡ some e → canonical e ≡ some b → old.start ≤ b

module _ (canonical : Text → Option ℕ)
    (within : (t : Text) (d : ℕ) → canonical t ≡ some d → d ≤ far) where
  ends_after :
      (start : ℕ) (date : Option Text) (end : Option ℕ)
      → start ≤ far
      → ((e : Text) (b : ℕ) → date ≡ some e → canonical e ≡ some b → start ≤ b)
      → end_day canonical date ≡ some end
      → start ≤ elim end [ none ↦ far | some e ↦ e ]
  ends_after start date none h k is = h
  ends_after start none (some b) h k is = absurd (grind (arith, is))
  ends_after start (some e) (some b) h k is = elim (Option-cases (canonical e)) [
    | inl none_is ↦ absurd (grind (arith, none_is, is))
    | inr (c, c_is) ↦ k e b refl (grind (arith, c_is, is))
  ]

  update_found-Ensures :
      (table : PeriodPeopleTable) (new : NewPeriod) (s : Store) (old : Period)
      → IsTiled s
      → In old (periods table s)
      → IsNear canonical old new
      → Ensures Kept (update_found canonical table new.start_date new.end_date (some old) s)
  update_found-Ensures table new s old i listed near =
      row-Ensures canonical within Kept (store_row canonical table) old.id old.subject
        (canonical new.start_date) new.end_date s
        (λ row is.
          store_row-Keeps canonical within table s i old row listed (sym is.id_is)
            (within new.start_date row.start is.start_is, is.end_within)
            (λ accepted. (
              sym is.subject_is,
              near.starts row.start is.start_is,
              ends_after old.start new.end_date row.end old_far near.ends is.end_is,
            )))
    where
      ordered : (old.start ≤ last_day old) × (last_day old ≤ far)
      ordered = (periods-IsChain table s i).ordered old listed

      old_far : old.start ≤ far
      old_far = omega (arith, ordered.0, ordered.1)

  updated-Ensures :
      (sql_trim : Text → Text) (linked : Bool) (row : Option Period) (s : Store)
      → IsTiled s
      → Ensures Kept (updated canonical sql_trim linked row s)
  updated-Ensures sql_trim linked none s i = err-Ensures Kept _
  updated-Ensures sql_trim linked (some row) s i = ok-Ensures Kept row s i

  -- If ownerships and building owners tile the timelines, they do so after `update_ownership` or
  -- `update_building_owner` of a period that is there, unless it is rejected, if the new dates leave
  -- the period a day of its old ones.
  pub update_period-IsTiled :
      (sql_trim : Text → Text) (table : PeriodPeopleTable) (id : ℕ) (new : NewPeriod) (s : Store)
      (old : Period)
      → IsTiled s
      → find_row id (periods table s) ≡ some old
      → IsNear canonical old new
      → Ensures (λ _ s'. IsTiled s') (update_period canonical sql_trim table id new s)
  unfolding update_period update_dates
  update_period-IsTiled sql_trim table id new s old i found near =
      bind-Ensures (λ _ t. IsUnchanged s t.ownerships t.building_owners) Kept _ _
        (replace_period_people-Keeps (IsUnchanged s) sql_trim table id new s (i, refl, refl))
        (λ _ t u. bind-Ensures Kept Kept _ _ (dates t u) (λ _ t' i'.
          updated-Ensures sql_trim (any (λ l. l.period == id) (links table t'))
            (find_row id (periods table t')) t' i'))
    where
      dates :
          (t : Store)
          → IsUnchanged s t.ownerships t.building_owners
          → Ensures Kept (update_dates canonical table id new.start_date new.end_date t)
      dates t u =
          let here : find_row id (periods table t) ≡ some old =
            ap (find_row id) (unchanged-periods table s t u) ∙ found in
          subst (λ o. Ensures Kept (update_found canonical table new.start_date new.end_date o t))
            (sym here)
            (update_found-Ensures table new t old u.0 (find_row-In id (periods table t) old here).0
              near)
