-- ===== src/Admin/Owners/Branches.antt =====
-- The branches of the handler that creates an ownership (src/web/admin.rs).
use kehrkraft.Prelude.{
  ℕ, Bool, true, false, Option, none, some, [], ◌∷◌, Text, text_eq, if◌then◌else◌,
}
use kehrkraft.Models.Names.{chars}
use kehrkraft.Db.Period.{Period}
use kehrkraft.Db.Store.{PeriodPeopleTable, Store}
use kehrkraft.Db.People.{NewPeriod, PreviousPeriod}
use kehrkraft.Db.Periods.{create_period, create_closing_previous}
use kehrkraft.Db.Reads.{get_period_on, get_end_before}
use kehrkraft.Admin.Forms.{OwnerInput, Pairs, new_period, parse_owner_input}
use kehrkraft.Admin.Answers.{
  declined, Answer, keyed, show_error, Services, previous_day, next_day, seeded, key_of,
}
use kehrkraft.Admin.Owners.{
  period_created, create_directly, create_closing, closing, after_previous, after_gap,
  without_previous, with_previous, create_handled,
}

-- What holds of the database after every branch of a handler that creates an ownership.
module _ (services : Services) (canonical : Text → Option ℕ) (sql_trim : Text → Text)
    (table : PeriodPeopleTable) (s : Store) (P : Answer × Store → Type 0)
    (kept : (a : Answer) → P (a, s))
    (created : (form : OwnerInput) (subject : ℕ) (period : NewPeriod)
      → P (
          period_created services canonical sql_trim table form s
            (create_period canonical sql_trim table subject period s)))
    (closed : (form : OwnerInput) (subject : ℕ) (previous : PreviousPeriod) (period : NewPeriod)
      → P (
          period_created services canonical sql_trim table form s
            (create_closing_previous canonical sql_trim table subject previous period s))) where
  directly :
      (subject : ℕ) (form : OwnerInput) (o : Option NewPeriod)
      → P (create_directly services canonical sql_trim table subject form s o)
  directly subject form none = kept _
  directly subject form (some period) = created form subject period

  closing_each :
      (subject : ℕ) (form : OwnerInput) (previous : Period) (prev_end : Text) (answer : Option Text)
      → P (closing services canonical sql_trim table subject form previous prev_end s answer)
  closing_each subject form previous prev_end none = kept _
  closing_each subject form previous prev_end (some answer) =
      by_answer (text_eq answer (chars "yes")) (new_period form)
    where
      by_answer :
          (yes : Bool) (o : Option NewPeriod)
          → P (
              if yes
              then create_closing services canonical sql_trim table subject form
                  (record { id = previous.id; end_date = prev_end })
                  s
                  o
              else (show_error (declined previous prev_end) (some form), s))
      by_answer true none = kept _
      by_answer true (some period) =
          closed form subject (record { id = previous.id; end_date = prev_end }) period
      by_answer false o = kept _

  after_previous_each :
      (subject : ℕ) (form : OwnerInput) (previous : Period) (day : Option Text)
      → P (after_previous services canonical sql_trim table subject form previous s day)
  after_previous_each subject form previous none = directly subject form (new_period form)
  after_previous_each subject form previous (some prev_end) =
      closing_each subject form previous prev_end form.close_previous

  gap_each :
      (subject : ℕ) (form : OwnerInput) (prev_end : Text) (next : Option Text)
      → P (after_gap services canonical sql_trim table subject form s prev_end next)
  gap_each subject form prev_end none = directly subject form (new_period form)
  gap_each subject form prev_end (some next) = by_next (text_eq next form.start_date)
    where
      by_next :
          (same : Bool)
          → P (
              if same
              then create_directly services canonical sql_trim table subject form s
                  (new_period form)
              else (
                show_error
                    (keyed
                      (key_of table (chars "gap_dates"))
                      (prev_end ∷ next ∷ form.start_date ∷ []))
                    (some form),
                s,
              ))
      by_next true = directly subject form (new_period form)
      by_next false = kept _

  without_each :
      (subject : ℕ) (form : OwnerInput) (day : Option ℕ)
      → P (without_previous services canonical sql_trim table subject form s day)
  without_each subject form none = directly subject form (new_period form)
  without_each subject form (some day) =
      gap_each subject form (services.format day) (next_day services (services.format day))

  with_each :
      (subject : ℕ) (form : OwnerInput) (previous : Option Period)
      → P (with_previous services canonical sql_trim table subject form s previous)
  with_each subject form none =
      without_each subject form (get_end_before services.format table s subject form.start_date)
  with_each subject form (some previous) =
      after_previous_each subject form previous (previous_day services form.start_date)

  pub create_handled_each :
      (present : Bool) (subject : ℕ) (pairs : Pairs)
      → P (create_handled services canonical sql_trim table present subject pairs s)
  unfolding create_handled
  create_handled_each true subject pairs =
      let form = seeded (parse_owner_input pairs) in
      with_each subject form (get_period_on services.format table s subject form.start_date)
  create_handled_each false subject pairs = kept _
