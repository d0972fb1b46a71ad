-- ===== src/Scheduler.antt =====
-- src/scheduler/mod.rs: the weekly assignments of a building and an ISO year. The queries that
-- the scheduler calls are the record `Queries`; dates come from `Calendar`.
use kehrkraft.Prelude.{
  ℕ, zero, suc, ◌+◌, ◌-◌, min, max, Bool, true, false, ◌&&◌, List, [], ◌∷◌, ◌++◌, map, Option, none,
  some, Text, text_eq, ltb, leb, ◌==◌, if◌then◌else◌, length, get_elem?, find,
}
use kehrkraft.Prelude.Int.{ℤ, sub_ℕ, ◌+ℤ◌, div_ℤ, rem_euclid}
use kehrkraft.Calendar.{Calendar}
use kehrkraft.Models.Names.{chars, join}
use kehrkraft.Models.{
  Building, Apartment, Ownership, Tenancy, BuildingOwner, PersonRef, label, tenant_effective_name,
}
pub mod Overlap
pub mod Transition
pub mod Rotation
pub mod Duty
pub mod Weeks
pub mod Loading
pub mod Samples
mod Tests

pub record WeekAssignment : Type 0 where
  pub year : ℕ
  pub iso_week : ℕ
  pub start : ℕ
  pub end : ℕ
  pub assignee_id : Option ℕ
  pub assignee_name : Option Text
  pub assignee_email : Option Text
  pub delegated : Bool

-- `db` stands for the `sqlx::Error` that a query returned.
pub data ScheduleError : Type 0 where
  db : ScheduleError
  building_not_found : ScheduleError
  date_parse : Text → ScheduleError

-- What a run of the scheduler comes to. `panic` is an index out of range or a day that chrono does not
-- have, `stuck` a loop of the model that ran out of fuel.
pub data Outcome (A : Type 0) : Type 0 where
  ok : A → Outcome A
  err : ScheduleError → Outcome A
  panic stuck : Outcome A

infixl 5 ◌>>=◌
abbrev pub ◌>>=◌ : {A B : Type 0} → Outcome A → (A → Outcome B) → Outcome B
ok a >>= f = f a
err e >>= f = err e
panic >>= f = panic
stuck >>= f = stuck

-- The trait `DatedRecord`.
pub record DatedRecord (P : Type 0) : Type 0 where
  pub id : P → ℕ
  pub apartment_id : P → ℕ
  pub name : P → Text
  pub email : P → Text
  pub start_date : P → Text
  pub end_date : P → Option Text

abbrev pub emails : List PersonRef → Text
emails people = join (chars ", ") (map (λ p. p.email) people)

instance abbrev pub ownership_dated : DatedRecord Ownership
ownership_dated = record {
  id = λ o. o.id;
  apartment_id = λ o. o.apartment_id;
  name = λ o. label o.people;
  email = λ o. emails o.people;
  start_date = λ o. o.start_date;
  end_date = λ o. o.end_date;
}

instance abbrev pub tenancy_dated : DatedRecord Tenancy
tenancy_dated = record {
  id = λ t. t.id;
  apartment_id = λ t. t.apartment_id;
  name = λ t. tenant_effective_name t;
  email = λ t. t.email;
  start_date = λ t. t.start_date;
  end_date = λ t. t.end_date;
}

instance abbrev pub building_owner_dated : DatedRecord BuildingOwner
building_owner_dated = record {
  id = λ o. o.id;
  apartment_id = λ o. o.building_id;
  name = λ o. label o.people;
  email = λ o. emails o.people;
  start_date = λ o. o.start_date;
  end_date = λ o. o.end_date;
}

pub record DatedPerson : Type 0 where
  pub id : ℕ
  pub apartment_id : ℕ
  pub name : Text
  pub email : Text
  pub start : ℕ
  pub end : Option ℕ

-- `p.end.unwrap_or(day)`.
abbrev pub end_or : Option ℕ → ℕ → ℕ
end_or none day = day
end_or (some e) day = e

-- Days of the week [week_start, week_end] inside the person's period.
unfoldable pub overlap_days : DatedPerson → ℕ → ℕ → ℕ
overlap_days p week_start week_end =
    let start = max p.start week_start in
    let end = min (end_or p.end week_end) week_end in if ltb end start then 0 else end - start + 1

-- `best.is_none_or(|(_, best_days)| days > best_days)`.
abbrev pub beats : ℕ → Option (DatedPerson × ℕ) → Bool
beats days none = true
beats days (some (_, best_days)) = ltb best_days days

-- The loop of `majority_owner` from the state `best`.
unfoldable pub majority_from :
    Option (DatedPerson × ℕ) → List DatedPerson → ℕ → ℕ → Option (DatedPerson × ℕ)
majority_from best [] week_start week_end = best
majority_from best (owner ∷ owners) week_start week_end =
    majority_from
      (if leb 4 (overlap_days owner week_start week_end)
          && beats (overlap_days owner week_start week_end) best
        then some (owner, overlap_days owner week_start week_end)
        else best)
      owners week_start week_end

abbrev pub owner_of : Option (DatedPerson × ℕ) → Option DatedPerson
owner_of none = none
owner_of (some (owner, _)) = some owner

unfoldable pub majority_owner : List DatedPerson → ℕ → ℕ → Option DatedPerson
unfolding majority_from
majority_owner owners week_start week_end = owner_of (majority_from none owners week_start week_end)

-- The period contains the whole week.
unfoldable pub covers_week : DatedPerson → ℕ → ℕ → Bool
covers_week p week_start week_end = leb p.start week_start && leb week_end (end_or p.end week_end)

-- The text order of two creation times.
unfoldable pub text_lt : Text → Text → Bool
text_lt [] [] = false
text_lt [] (d ∷ t) = true
text_lt (c ∷ s) [] = false
text_lt (c ∷ s) (d ∷ t) = if c == d then text_lt s t else ltb c d

-- `a` stands no later than `b` in the order by `created_at`, then `id`.
unfoldable pub created_le : Apartment → Apartment → Bool
unfolding text_lt
created_le a b =
    if text_eq a.created_at b.created_at then leb a.id b.id else text_lt a.created_at b.created_at

-- `sort_by`, a stable sort: each apartment goes before the first that it does not follow.
unfoldable pub insert_apartment : Apartment → List Apartment → List Apartment
unfolding created_le
insert_apartment a [] = a ∷ []
insert_apartment a (b ∷ bs) = if created_le a b then a ∷ b ∷ bs else b ∷ insert_apartment a bs

unfoldable pub sort_apartments : List Apartment → List Apartment
unfolding insert_apartment
sort_apartments [] = []
sort_apartments (a ∷ as') = insert_apartment a (sort_apartments as')

-- The map `owners_by_apartment`: `entry(k).or_default().push(owner)`, and `get`.
unfoldable pub push_owner : DatedPerson → List (ℕ × List DatedPerson) → List (ℕ × List DatedPerson)
push_owner owner [] = (owner.apartment_id, owner ∷ []) ∷ []
push_owner owner ((k, owners) ∷ m) =
    if k == owner.apartment_id
    then (k, owners ++ owner ∷ []) ∷ m
    else (k, owners) ∷ push_owner owner m

unfoldable pub group_owners :
    List DatedPerson → List (ℕ × List DatedPerson) → List (ℕ × List DatedPerson)
unfolding push_owner
group_owners [] m = m
group_owners (owner ∷ owners) m = group_owners owners (push_owner owner m)

unfoldable pub get_owners : ℕ → List (ℕ × List DatedPerson) → Option (List DatedPerson)
get_owners id [] = none
get_owners id ((k, owners) ∷ m) = if k == id then some owners else get_owners id m

-- `and_then(majority_owner)`, `or_else` the building's owner.
abbrev pub first_owner : Option DatedPerson → Option DatedPerson → Option DatedPerson
first_owner none fallback = fallback
first_owner (some o) fallback = some o

abbrev pub owner_in : Option (List DatedPerson) → ℕ → ℕ → Option DatedPerson
owner_in none week_start week_end = none
owner_in (some owners) week_start week_end = majority_owner owners week_start week_end

-- What the loop over the weeks reads: the parsed records, the apartments in rotation order.
pub record Roster : Type 0 where
  pub seed : ℤ
  pub apartments : List Apartment
  pub owners : List (ℕ × List DatedPerson)
  pub building_owners : List DatedPerson
  pub tenancies : List DatedPerson

unfoldable pub apartment_owner : Roster → Apartment → ℕ → ℕ → Option DatedPerson
unfolding get_owners majority_owner
apartment_owner r apartment week_start week_end =
    first_owner (owner_in (get_owners apartment.id r.owners) week_start week_end)
      (majority_owner r.building_owners week_start week_end)

-- The `filter_map` that yields `covered`.
unfoldable pub covered_from : Roster → List Apartment → ℕ → ℕ → List (Apartment × DatedPerson)
unfolding apartment_owner
covered_from r [] week_start week_end = []
covered_from r (a ∷ rest) week_start week_end = elim (apartment_owner r a week_start week_end) [
  | none ↦ covered_from r rest week_start week_end
  | some owner ↦ (a, owner) ∷ covered_from r rest week_start week_end
]

unfoldable pub covered : Roster → ℕ → ℕ → List (Apartment × DatedPerson)
unfolding covered_from
covered r week_start week_end = covered_from r r.apartments week_start week_end

-- The tenancy to which the week of the chosen apartment is delegated.
unfoldable pub delegate : Roster → Apartment → ℕ → ℕ → Option DatedPerson
unfolding covers_week
delegate r apartment week_start week_end =
    find (λ t. t.apartment_id == apartment.id && covers_week t week_start week_end) r.tenancies

abbrev pub assigned : ℕ → ℕ → ℕ → Option DatedPerson → Bool → WeekAssignment
assigned year iso_week week_start none delegated = record {
  year = year;
  iso_week = iso_week;
  start = week_start;
  end = week_start + 6;
  assignee_id = none;
  assignee_name = none;
  assignee_email = none;
  delegated = delegated;
}
assigned year iso_week week_start (some p) delegated = record {
  year = year;
  iso_week = iso_week;
  start = week_start;
  end = week_start + 6;
  assignee_id = some p.id;
  assignee_name = some p.name;
  assignee_email = some p.email;
  delegated = delegated;
}

module _ (cal : Calendar) where
  open cal use {iso_year, iso_week, max_day, week_one, from_ymd, parse_date}

  unfoldable pub global_week_index : ℕ → ℤ
  unfolding div_ℤ
  global_week_index week_start = div_ℤ (sub_ℕ week_start (from_ymd 2020 1 6)) 7

  -- The index of the week among `n` covered apartments.
  unfoldable pub rotation_index : ℤ → ℕ → ℕ → ℕ
  unfolding global_week_index rem_euclid ◌+ℤ◌
  rotation_index seed week_start n = rem_euclid (seed +ℤ global_week_index week_start) n

  -- The tenant if the week is delegated, else the owner.
  unfoldable pub duty : Roster → ℕ → ℕ → Apartment × DatedPerson → WeekAssignment
  unfolding delegate
  duty r year week_start (apartment, owner) =
      elim (delegate r apartment week_start (week_start + 6)) [
        | some t ↦ assigned year (iso_week week_start) week_start (some t) true
        | none ↦ assigned year (iso_week week_start) week_start (some owner) false
      ]

  -- `covered[idx]`, which panics out of range.
  unfoldable pub at_index :
      Roster → ℕ → ℕ → Option (Apartment × DatedPerson) → Outcome WeekAssignment
  unfolding duty
  at_index r year week_start none = panic
  at_index r year week_start (some chosen) = ok (duty r year week_start chosen)

  -- One round of the loop of `schedule_for_year`, on the `covered` of the week.
  unfoldable pub assign : Roster → ℕ → ℕ → List (Apartment × DatedPerson) → Outcome WeekAssignment
  unfolding rotation_index at_index
  assign r year week_start [] = ok (assigned year (iso_week week_start) week_start none false)
  assign r year week_start (c ∷ cs) =
      at_index r year week_start
        (get_elem? (c ∷ cs) (rotation_index r.seed week_start (length (c ∷ cs))))

  unfoldable pub week_assignment : Roster → ℕ → ℕ → Outcome WeekAssignment
  unfolding covered assign
  week_assignment r year week_start =
      assign r year week_start (covered r week_start (week_start + 6))

  -- The day itself, which panics where chrono has no such day.
  unfoldable pub in_range : ℕ → Outcome ℕ
  in_range day = if leb day max_day then ok day else panic

  -- `while week_start.iso_week().year() == year`. The sum that gives the end of the week is the one
  -- of `week_assignment`.
  unfoldable pub schedule_weeks : ℕ → Roster → ℕ → ℕ → Outcome (List WeekAssignment)
  schedule_weeks zero r year week_start = stuck
  schedule_weeks (suc fuel) r year week_start =
      let round : Outcome (List WeekAssignment) = do
        week_end ← in_range (week_start + 6)
        assignment ← week_assignment r year week_start
        next_start ← in_range (week_start + 7)
        weeks ← schedule_weeks fuel r year next_start
        ok (assignment ∷ weeks)
      in if iso_year week_start == year then round else ok []

  abbrev pub parsed : Text → Option ℕ → Outcome ℕ
  parsed message none = err (date_parse message)
  parsed message (some day) = ok day

  abbrev pub parse_end : Option Text → Outcome (Option ℕ)
  parse_end none = ok none
  parse_end (some s) = do
    day ← parsed (chars "invalid end_date " ++ s) (parse_date s)
    ok (some day)

  unfoldable pub parse_person : {P : Type 0} ⦃d : DatedRecord P⦄ → P → Outcome DatedPerson
  parse_person ⦃d⦄ p = do
    start ← parsed (chars "invalid start_date " ++ d.start_date p) (parse_date (d.start_date p))
    end ← parse_end (d.end_date p)
    ok (record {
      id = d.id p;
      apartment_id = d.apartment_id p;
      name = d.name p;
      email = d.email p;
      start = start;
      end = end;
    })

  unfoldable pub parse_people :
      {P : Type 0} ⦃d : DatedRecord P⦄ → List P → Outcome (List DatedPerson)
  unfolding parse_person
  parse_people [] = ok []
  parse_people (p ∷ ps) = do person ← parse_person p; people ← parse_people ps; ok (person ∷ people)

-- The reads of src/db/queries.rs, of one building; `none` is a `sqlx::Error`.
pub record Queries : Type 0 where
  pub get_building : ℕ → Option (Option Building)
  pub list_ownerships_for_building : ℕ → Option (List Ownership)
  pub list_tenancies_for_building : ℕ → Option (List Tenancy)
  pub list_building_owners : ℕ → Option (List BuildingOwner)
  pub list_apartments : ℕ → Option (List Apartment)

-- `?` on the result of a query.
abbrev pub queried : {A : Type 0} → Option A → Outcome A
queried none = err db
queried (some a) = ok a

abbrev pub found : Option Building → Outcome Building
found none = err building_not_found
found (some b) = ok b

module _ (cal : Calendar) (q : Queries) where
  unfoldable pub load_roster : ℕ → Outcome Roster
  unfolding parse_people sort_apartments group_owners
  load_roster building_id = do
    building_opt ← queried (q.get_building building_id)
    building ← found building_opt
    ownerships ← queried (q.list_ownerships_for_building building_id)
    tenancy_rows ← queried (q.list_tenancies_for_building building_id)
    building_owner_rows ← queried (q.list_building_owners building_id)
    owners ← parse_people cal ownerships
    tenancies ← parse_people cal tenancy_rows
    building_owners ← parse_people cal building_owner_rows
    apartments ← queried (q.list_apartments building_id)
    ok (record {
      seed = building.rotation_seed;
      apartments = sort_apartments apartments;
      owners = group_owners owners [];
      building_owners = building_owners;
      tenancies = tenancies;
    })

  unfoldable pub schedule_for_year : ℕ → ℕ → Outcome (List WeekAssignment)
  schedule_for_year building_id year = do
    roster ← load_roster building_id
    week_start ← in_range cal (cal.week_one year)
    schedule_weeks cal 54 roster year week_start
