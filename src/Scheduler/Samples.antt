-- ===== src/Scheduler/Samples.antt =====
-- A small building for the tests of the scheduler.
use kehrkraft.Prelude.{ℕ, ◌≤◌, arith, refl, [], ◌∷◌, Option, none, some, Text}
use kehrkraft.Prelude.Int.{pos}
use kehrkraft.Calendar.Gregorian.{gregorian, running}
use kehrkraft.Models.Names.{chars}
use kehrkraft.Models.{Building, Apartment, Ownership, Tenancy, PersonRef}
use kehrkraft.Scheduler.{Queries}
use kehrkraft.Scheduler.Loading.{IsReadable}

abbrev someone : Text → PersonRef
someone name = record {
  person_id = 1;
  name = name;
  display_name = none;
  email = chars "a@b.c";
  position = 0;
}

abbrev own : ℕ → ℕ → Text → Option Text → Text → Ownership
own id apartment from to name = record {
  id = id;
  apartment_id = apartment;
  start_date = from;
  end_date = to;
  created_at = chars "2026-01-01 00:00:00";
  people = someone name ∷ [];
}

abbrev pub flat : ℕ → Text → Apartment
flat id created = record {
  id = id;
  building_id = 1;
  name = chars "W";
  description = [];
  position = 0;
  created_at = created;
}

abbrev pub house : Building
house = record {
  id = 1;
  name = chars "Haus";
  description = [];
  secret_slug = chars "slug";
  rotation_seed = pos 0;
  created_at = [];
  updated_at = [];
}

abbrev lease : Tenancy
lease = record {
  id = 77;
  apartment_id = 12;
  person_id = 2;
  name = chars "Tom";
  display_name = some (chars " Tommy ");
  email = chars "t@b.c";
  start_date = chars "2026-01-05";
  end_date = some (chars "2026-06-30");
  created_at = [];
}

-- Three flats, the third listed first but created last.
abbrev pub sample : Queries
sample = record {
  get_building = λ id. some (some house);
  list_ownerships_for_building = λ id. some (
      own 21 11 (chars "2020-01-01") none (chars "Anna")
      ∷ own 22 12 (chars "2020-01-01") none (chars "Ben")
      ∷ own 23 13 (chars "2026-01-20") none (chars "Cid")
      ∷ []);
  list_tenancies_for_building = λ id. some (lease ∷ []);
  list_building_owners = λ id. some [];
  list_apartments = λ id. some (
      flat 13 (chars "2021-02-01")
      ∷ flat 11 (chars "2021-01-01")
      ∷ flat 12 (chars "2021-01-01")
      ∷ []);
}

abbrev pub sample-IsReadable : IsReadable gregorian sample 1
unfolding running
sample-IsReadable = record {
  building = house;
  ownerships = _;
  tenancies = _;
  building_owners = _;
  apartments = _;
  building_is = refl;
  ownerships_are = refl;
  tenancies_are = refl;
  building_owners_are = refl;
  apartments_are = refl;
  ownerships_parse = (((_, refl), tt), (((_, refl), tt), (((_, refl), tt), tt)));
  tenancies_parse = (((_, refl), (_, refl)), tt);
  building_owners_parse = tt;
}

pub week_one_2027-le : gregorian.week_one 2027 ≤ gregorian.max_day
unfolding running
week_one_2027-le = omega arith

pub week_one_2028-le : gregorian.week_one 2028 ≤ gregorian.max_day
unfolding running
week_one_2028-le = omega arith
