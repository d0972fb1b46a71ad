-- ===== src/Scheduler/Weeks.antt =====
-- The loop of `schedule_for_year` in src/scheduler/mod.rs over the weeks of a year, and the whole
-- function. The fuel of 54 rounds is one more than the longest year has weeks.
use kehrkraft.Prelude.{
  ℕ, zero, suc, ◌+◌, ◌*◌, ◌≤◌, ◌<◌, ◌≡◌, refl, ap, ◌∙◌, subst, ◌⊎◌, inl, inr, List, [], ◌∷◌, none,
  some, arith, length, get_elem?,
}
use kehrkraft.Calendar.{Calendar}
use kehrkraft.Scheduler.{
  WeekAssignment, Outcome, ok, err, panic, building_not_found, ◌>>=◌, Roster, week_assignment,
  in_range, schedule_weeks, Queries, load_roster, schedule_for_year,
}
use kehrkraft.Scheduler.Duty.{IsAssigned, week_assignment-IsAssigned}

below_or_at : (k n : ℕ) → k ≤ n → (k < n) ⊎ (k ≡ n)
below_or_at k n h = grind arith

module _ (cal : Calendar) (r : Roster) (y : ℕ) where
  open cal use {week_one, weeks}

  -- The assignment of the year's week `k + 1`.
  pub record IsWeekOfYear (k : ℕ) (a : WeekAssignment) : Type 0 where
    pub year_is : a.year ≡ y
    pub iso_week_is : a.iso_week ≡ k + 1
    pub start_is : a.start ≡ week_one y + 7 * k
    pub end_is : a.end ≡ week_one y + 7 * k + 6
    pub duty : IsAssigned cal r y (week_one y + 7 * k) a

  -- The outcome is a list of the assignments of the weeks from `k` on to the end of the year.
  pub record IsRest (k : ℕ) (out : Outcome (List WeekAssignment)) : Type 0 where
    pub list : List WeekAssignment
    pub returns : out ≡ ok list
    pub length_is : length list + k ≡ weeks y
    pub each :
        (j : ℕ)
        → j < length list
        → (a : WeekAssignment) × (get_elem? list j ≡ some a) × IsWeekOfYear (k + j) a

-- The next year starts within the days of chrono.
module _ (cal : Calendar) (r : Roster) (y : ℕ) (reaches : cal.week_one (suc y) ≤ cal.max_day) where
  open cal use {
    iso_year, iso_week, max_day, week_one, weeks, weeks_range, week_one-suc, iso_year_of,
    iso_week_of,
  }

  in_year : (k : ℕ) → k < weeks y → iso_year (week_one y + 7 * k) ≡ y
  in_year k h =
      iso_year_of y (week_one y + 7 * k) (omega (arith, week_one-suc y)) (omega arith)
        (omega (arith, week_one-suc y))

  next_year : (k : ℕ) → k ≡ weeks y → iso_year (week_one y + 7 * k) ≡ suc y
  next_year k e =
      iso_year_of (suc y) (week_one y + 7 * k) (rw e (omega (arith, week_one-suc y)))
        (rw e (omega (arith, week_one-suc y)))
        (rw e (omega (arith, week_one-suc y, week_one-suc (suc y), weeks_range (suc y))))

  iso_week_at : (k : ℕ) → k < weeks y → iso_week (week_one y + 7 * k) ≡ k + 1
  iso_week_at k h =
      ap iso_week (omega arith) ∙ iso_week_of y k 0 (omega (arith, week_one-suc y)) h (omega arith)

  week_of_year :
      (k : ℕ)
      → k < weeks y
      → (a : WeekAssignment) × (week_assignment cal r y (week_one y + 7 * k) ≡ ok a)
        × IsWeekOfYear cal r y k a
  week_of_year k h =
      let (a, e, w, d) = week_assignment-IsAssigned cal r y (week_one y + 7 * k) in
      (
        a,
        e,
        record {
          year_is = w.year_is;
          iso_week_is = w.iso_week_is ∙ iso_week_at k h;
          start_is = w.start_is;
          end_is = w.end_is;
          duty = d;
        },
      )

  stop : (fuel w : ℕ) → iso_year w ≡ suc y → schedule_weeks cal (suc fuel) r y w ≡ ok []
  unfolding schedule_weeks
  stop fuel w h = ground arith

  in_range-ok : (d : ℕ) → d ≤ max_day → in_range cal d ≡ ok d
  unfolding in_range
  in_range-ok d h = ground arith

  go_on :
      (fuel w : ℕ) (a : WeekAssignment) (list : List WeekAssignment)
      → iso_year w ≡ y
      → w + 7 ≤ max_day
      → week_assignment cal r y w ≡ ok a
      → schedule_weeks cal fuel r y (w + 7) ≡ ok list
      → schedule_weeks cal (suc fuel) r y w ≡ ok (a ∷ list)
  unfolding schedule_weeks
  go_on fuel w a list h le e f =
      ground (arith, in_range-ok (w + 6) (omega arith), in_range-ok (w + 7) le)

  IsRest-cons :
      (fuel k : ℕ)
      → k < weeks y
      → IsRest cal r y (suc k) (schedule_weeks cal fuel r y (week_one y + 7 * suc k))
      → IsRest cal r y k (schedule_weeks cal (suc fuel) r y (week_one y + 7 * k))
  IsRest-cons fuel k h later =
      let (a, e, w) = week_of_year k h in
      record {
        list = a ∷ later.list;
        returns =
            go_on fuel _ a later.list (in_year k h) (omega (arith, week_one-suc y)) e
              (ap (schedule_weeks cal fuel r y) (omega arith) ∙ later.returns);
        length_is = omega (arith, later.length_is);
        each = each_of a w;
      }
    where
      each_of :
          (a : WeekAssignment)
          → IsWeekOfYear cal r y k a
          → (j : ℕ) → j < length (a ∷ later.list)
          → (b : WeekAssignment) × (get_elem? (a ∷ later.list) j ≡ some b)
            × IsWeekOfYear cal r y (k + j) b
      each_of a w zero lt = (a, refl, subst (λ i. IsWeekOfYear cal r y i a) (omega arith) w)
      each_of a w (suc j) lt =
          let (b, e, v) = later.each j (omega arith) in
          (b, e, subst (λ i. IsWeekOfYear cal r y i b) (omega arith) v)

  schedule_weeks-IsRest :
      (fuel k : ℕ)
      → k ≤ weeks y
      → weeks y < fuel + k
      → IsRest cal r y k (schedule_weeks cal fuel r y (week_one y + 7 * k))
  schedule_weeks-IsRest zero k h lt = absurd (omega arith)
  schedule_weeks-IsRest (suc fuel) k h lt = elim (below_or_at k (weeks y) h) [
    | inl below ↦ IsRest-cons fuel k below (schedule_weeks-IsRest fuel (suc k) below (omega arith))
    | inr end ↦ record {
      list = [];
      returns = stop fuel _ (next_year k end);
      length_is = omega arith;
      each = λ j lt'. absurd (omega arith);
    }
  ]

  -- The loop returns the assignments of all weeks of the year, in order.
  pub schedule_weeks-all : IsRest cal r y 0 (schedule_weeks cal 54 r y (week_one y))
  schedule_weeks-all =
      subst (λ w. IsRest cal r y 0 (schedule_weeks cal 54 r y w)) (omega arith)
        (schedule_weeks-IsRest 54 0 (omega arith) (omega (arith, weeks_range y)))

-- Once the records of the building are read, and where the next year starts within the days of
-- chrono, the schedule of the year is a list with one assignment for each ISO week of it, in order: the k-th has that year, ISO week k + 1,
-- starts on its Monday and ends on its Sunday; nobody serves it if no apartment has an owner in
-- it, and else it goes to the apartment whose turn it is in the rotation: to the tenant whose
-- tenancy contains the whole week, or to the apartment's owner if there is none.
pub schedule_for_year-IsRest :
    (cal : Calendar) (q : Queries) (building_id y : ℕ) (r : Roster)
    → cal.week_one (suc y) ≤ cal.max_day
    → load_roster cal q building_id ≡ ok r
    → IsRest cal r y 0 (schedule_for_year cal q building_id y)
unfolding schedule_for_year
schedule_for_year-IsRest cal q building_id y r reaches h =
    rw (h, in_range-ok cal r y reaches (cal.week_one y) (omega (arith, cal.week_one-suc y)), ◌>>=◌)
      (schedule_weeks-all cal r y reaches)

-- The schedule of a year that starts after the last day of chrono panics.
schedule_for_year-beyond :
    (cal : Calendar) (q : Queries) (building_id y : ℕ) (r : Roster)
    → load_roster cal q building_id ≡ ok r
    → cal.max_day < cal.week_one y
    → schedule_for_year cal q building_id y ≡ panic
unfolding schedule_for_year in_range
schedule_for_year-beyond cal q building_id y r h late = rw (h, beyond, ◌>>=◌) refl
  where
    beyond : in_range cal (cal.week_one y) ≡ panic
    beyond = ground arith

-- A building that is not there gives the error `building_not_found`, whatever the year.
schedule_for_year-missing :
    (cal : Calendar) (q : Queries) (building_id y : ℕ)
    → q.get_building building_id ≡ some none
    → schedule_for_year cal q building_id y ≡ err building_not_found
unfolding schedule_for_year load_roster
schedule_for_year-missing cal q building_id y h = rw (h, ◌>>=◌)
