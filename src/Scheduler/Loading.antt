-- ===== src/Scheduler/Loading.antt =====
-- Reading the records of a building: `parse_people` and the queries of `schedule_for_year` in
-- src/scheduler/mod.rs.
use kehrkraft.Prelude.{ℕ, suc, ◌≤◌, ◌≡◌, refl, List, [], ◌∷◌, Option, none, some, Text}
use kehrkraft.Calendar.{Calendar}
use kehrkraft.Models.{Building, Apartment, Ownership, Tenancy, BuildingOwner}
use kehrkraft.Scheduler.{
  ownership_dated, tenancy_dated, building_owner_dated, ok, ◌>>=◌, DatedRecord, DatedPerson,
  parse_end, parse_person, parse_people, Queries, queried, found, Roster, sort_apartments,
  group_owners, load_roster, schedule_for_year,
}
use kehrkraft.Scheduler.Weeks.{IsRest, schedule_for_year-IsRest}

module _ (cal : Calendar) where
  -- The end date is absent or a date.
  abbrev pub EndParses : Option Text → Type 0
  EndParses none = Unit
  EndParses (some s) = (day : ℕ) × (cal.parse_date s ≡ some day)

  abbrev pub Parses : {P : Type 0} ⦃d : DatedRecord P⦄ → P → Type 0
  Parses ⦃d⦄ p =
      ((day : ℕ) × (cal.parse_date (d.start_date p) ≡ some day)) × EndParses (d.end_date p)

  abbrev pub AllParse : {P : Type 0} ⦃d : DatedRecord P⦄ → List P → Type 0
  AllParse [] = Unit
  AllParse (p ∷ ps) = Parses p × AllParse ps

  parse_end_total : (e : Option Text) → EndParses e → (day : Option ℕ) × (parse_end cal e ≡ ok day)
  parse_end_total none h = (none, refl)
  parse_end_total (some s) (day, h) = (some day, rw h)

  parse_person_total :
      {P : Type 0} ⦃d : DatedRecord P⦄ (p : P)
      → Parses p
      → (person : DatedPerson) × (parse_person cal p ≡ ok person)
  unfolding parse_person
  parse_person_total ⦃d⦄ p ((day, h), e) =
      let (end, f) = parse_end_total (d.end_date p) e in
      (
        record {
          id = d.id p;
          apartment_id = d.apartment_id p;
          name = d.name p;
          email = d.email p;
          start = day;
          end = end;
        },
        rw (h, f, ◌>>=◌),
      )

  parse_people_total :
      {P : Type 0} ⦃d : DatedRecord P⦄ (ps : List P)
      → AllParse ps
      → (people : List DatedPerson) × (parse_people cal ps ≡ ok people)
  unfolding parse_people
  parse_people_total [] h = ([], refl)
  parse_people_total (p ∷ ps) (h, hs) =
      let (person, e) = parse_person_total p h in
      let (people, f) = parse_people_total ps hs in (person ∷ people, rw (e, f, ◌>>=◌))

-- The building exists, the queries succeed, and all dates that they return are dates.
pub record IsReadable (cal : Calendar) (q : Queries) (building_id : ℕ) : Type 0 where
  pub building : Building
  pub ownerships : List Ownership
  pub tenancies : List Tenancy
  pub building_owners : List BuildingOwner
  pub apartments : List Apartment
  pub building_is : q.get_building building_id ≡ some (some building)
  pub ownerships_are : q.list_ownerships_for_building building_id ≡ some ownerships
  pub tenancies_are : q.list_tenancies_for_building building_id ≡ some tenancies
  pub building_owners_are : q.list_building_owners building_id ≡ some building_owners
  pub apartments_are : q.list_apartments building_id ≡ some apartments
  pub ownerships_parse : AllParse cal ownerships
  pub tenancies_parse : AllParse cal tenancies
  pub building_owners_parse : AllParse cal building_owners

load_roster_total :
    (cal : Calendar) (q : Queries) (building_id : ℕ)
    → IsReadable cal q building_id
    → (r : Roster) × (load_roster cal q building_id ≡ ok r)
unfolding load_roster
load_roster_total cal q building_id h =
    let (owners, e) = parse_people_total cal h.ownerships h.ownerships_parse in
    let (tenants, f) = parse_people_total cal h.tenancies h.tenancies_parse in
    let (holders, g) = parse_people_total cal h.building_owners h.building_owners_parse in
    (
      record {
        seed = h.building.rotation_seed;
        apartments = sort_apartments h.apartments;
        owners = group_owners owners [];
        building_owners = holders;
        tenancies = tenants;
      },
      rw (
        h.building_is, h.ownerships_are, h.tenancies_are, h.building_owners_are, e, f, g,
        h.apartments_are, ◌>>=◌, found, queried,
      ),
    )

-- Where the building exists, the queries succeed, the stored dates are dates and the next year
-- starts within the days of chrono, the schedule of the year is a list: no error, no panic, and the
-- loop ends. The list has one assignment for each ISO week of the year, in order, as `IsRest` says.
pub schedule_for_year-total :
    (cal : Calendar) (q : Queries) (building_id y : ℕ)
    → cal.week_one (suc y) ≤ cal.max_day
    → IsReadable cal q building_id
    → (r : Roster) × (load_roster cal q building_id ≡ ok r)
      × IsRest cal r y 0 (schedule_for_year cal q building_id y)
schedule_for_year-total cal q building_id y reaches h =
    let (r, e) = load_roster_total cal q building_id h in
    (r, e, schedule_for_year-IsRest cal q building_id y r reaches e)
