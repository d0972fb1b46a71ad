-- ===== src/Scheduler/Tests.antt =====
-- The schedule of a small building over the Gregorian calendar, and the theorems of the scheduler
-- at concrete inputs.
use kehrkraft.Prelude.{
  ℕ, ◌+◌, ◌*◌, ◌≤◌, ◌<◌, ◌≡◌, refl, ◌⊎◌, Bool, true, false, List, [], ◌∷◌, map, Option, none, some,
  arith, Text, text_eq, take, In,
}
use kehrkraft.Prelude.Int.{pos, negsuc}
use kehrkraft.Calendar.Gregorian.{gregorian, running}
use kehrkraft.Models.Names.{chars}
use kehrkraft.Models.{label, tenant_effective_name}
use kehrkraft.Scheduler.{
  WeekAssignment, DatedPerson, Outcome, ok, Roster, overlap_days, majority_owner, covers_week,
  load_roster, in_range, schedule_for_year, schedule_weeks, week_assignment, rotation_index,
}
use kehrkraft.Scheduler.Loading.{schedule_for_year-total}
use kehrkraft.Scheduler.Weeks.{IsRest}
use kehrkraft.Scheduler.Overlap.{count_days, overlap_days-count_days, majority_owner-cases}
use kehrkraft.Scheduler.Transition.{three_owners-none}
use kehrkraft.Scheduler.Rotation.{rotation_fair, week_one-IsMonday}
use kehrkraft.Scheduler.Samples.{flat, sample, sample-IsReadable, week_one_2027-le}

abbrev scheduling : Unit {0}
unfolding running text_eq label tenant_effective_name overlap_days majority_owner covers_week
    load_roster in_range schedule_for_year schedule_weeks week_assignment
scheduling = tt

abbrev firsts : Outcome (List WeekAssignment) → List (ℕ × Option Text × Bool)
firsts (ok ws) = map (λ a. (a.iso_week, a.assignee_name, a.delegated)) (take 5 ws)
firsts _ = []

first_weeks :
    firsts (schedule_for_year gregorian sample 1 2026)
    ≡ (1, some (chars "Anna"), false)
      ∷ (2, some (chars "Tommy"), true)
      ∷ (3, some (chars "Anna"), false)
      ∷ (4, some (chars "Anna"), false)
      ∷ (5, some (chars "Tommy"), true)
      ∷ []
unfolding scheduling
first_weeks = refl

schedule_for_year-total_example :
    (r : Roster) × (load_roster gregorian sample 1 ≡ ok r)
    × IsRest gregorian r 2026 0 (schedule_for_year gregorian sample 1 2026)
schedule_for_year-total_example =
    schedule_for_year-total gregorian sample 1 2026 week_one_2027-le sample-IsReadable

-- 2026-01-05 is the Monday of the second week of 2026.
abbrev second_week : ℕ
second_week = gregorian.week_one 2026 + 7

abbrev anna : DatedPerson
anna = record {
  id = 21;
  apartment_id = 11;
  name = chars "Anna";
  email = chars "a@b.c";
  start = 739989;
  end = some 739992;
}

abbrev ben : DatedPerson
ben = record {
  id = 22;
  apartment_id = 11;
  name = chars "Ben";
  email = chars "b@b.c";
  start = 739993;
  end = none;
}

overlap_days-count_days_example : overlap_days anna 739990 (739990 + 6) ≡ count_days anna 739990 7
overlap_days-count_days_example = overlap_days-count_days anna 739990

anna_has_three_days : overlap_days anna 739990 (739990 + 6) ≡ 3
unfolding overlap_days
anna_has_three_days = refl

majority_owner-cases_example :
    ((majority_owner (anna ∷ ben ∷ []) 739990 739996 ≡ none)
      × ((o : DatedPerson) → In o (anna ∷ ben ∷ []) → overlap_days o 739990 739996 < 4))
    ⊎ ((m : DatedPerson) × (majority_owner (anna ∷ ben ∷ []) 739990 739996 ≡ some m)
        × In m (anna ∷ ben ∷ [])
        × (4 ≤ overlap_days m 739990 739996)
        × ((o : DatedPerson)
            → In o (anna ∷ ben ∷ [])
            → overlap_days o 739990 739996 ≤ overlap_days m 739990 739996))
majority_owner-cases_example = majority_owner-cases 739990 739996 (anna ∷ ben ∷ [])

majority_owner_is_ben : majority_owner (anna ∷ ben ∷ []) 739990 739996 ≡ some ben
unfolding scheduling
majority_owner_is_ben = refl

rotation_fair_example :
    (k : ℕ) × (k < 3)
    × (rotation_index gregorian (negsuc 4) (gregorian.week_one 2026 + 7 * k) 3 ≡ 1)
    × ((j : ℕ)
        → j < 3
        → rotation_index gregorian (negsuc 4) (gregorian.week_one 2026 + 7 * j) 3 ≡ 1
        → j ≡ k)
rotation_fair_example =
    rotation_fair gregorian (negsuc 4) 3 (omega arith) (gregorian.week_one 2026) 1
      (week_one-IsMonday gregorian 2026) (omega arith)

abbrev roster : Roster
roster = record {
  seed = pos 0;
  owners = (11, anna ∷ ben ∷ []) ∷ [];
  building_owners = [];
  tenancies = [];
  apartments = flat 11 [] ∷ [];
}

abbrev owned : ℕ → ℕ → Option ℕ → DatedPerson
owned id start end = record {
  id = id;
  apartment_id = 11;
  name = chars "Anna";
  email = chars "a@b.c";
  start = start;
  end = end;
}

three_owners-none_example :
    majority_owner
      (owned 1 700000 (some 739992) ∷ owned 2 739993 (some 739994) ∷ owned 3 739995 none ∷ [])
      739990
      (739990 + 6)
    ≡ none
three_owners-none_example =
    three_owners-none (owned 1 700000 (some 739992)) (owned 2 739993 (some 739994))
      (owned 3 739995 none) 739990 refl refl refl refl
