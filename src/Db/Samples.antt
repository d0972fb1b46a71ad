-- ===== src/Db/Samples.antt =====
-- A small database, and texts of dates as their days.
use kehrkraft.Prelude.{
  ℕ, ◌+◌, ◌≤◌, ◌≡◌, refl, List, [], ◌∷◌, Option, none, some, arith, Text, text_eq, leb,
  if◌then◌else◌,
}
use kehrkraft.Prelude.Int.{pos}
use kehrkraft.Calendar.Gregorian.{gregorian, running}
use kehrkraft.Models.Names.{chars}
use kehrkraft.Db.Period.{
  Period, far, chain_violations, date_order, others, overlaps, max_end_before, min_start_after,
}
use kehrkraft.Db.Period.Tiling.{IsChain}
use kehrkraft.Db.Period.Moves.{insert-IsChain}
use kehrkraft.Db.Store.{Store}
use kehrkraft.Db.People.{NewPeriod}

-- The dates of four-digit years.
abbrev pub bounded : Option ℕ → Option ℕ
bounded none = none
bounded (some d) = if leb d far then some d else none

abbrev pub canonical : Text → Option ℕ
canonical t = bounded (gregorian.parse_date t)

bounded-le : (o : Option ℕ) (d : ℕ) → bounded o ≡ some d → d ≤ far
bounded-le none d h = absurd (ground arith)
bounded-le (some e) d h = ground arith

pub canonical-le : (t : Text) (d : ℕ) → canonical t ≡ some d → d ≤ far
canonical-le t d h = bounded-le (gregorian.parse_date t) d h

abbrev pub row : ℕ → ℕ → Option ℕ → Period
row id start end = record { id = id; subject = 11; start = start; end = end }

-- 2020-01-01 to 2024-12-31.
abbrev pub past : Period
past = row 1 737790 (some 739616)

-- From 2025-01-01 on.
abbrev pub current : Period
current = row 2 739617 none

pub no_rows : IsChain []
no_rows = record {
  ordered = λ o i. absurd i;
  ids = λ o q i. absurd i;
  apart = λ o q i. absurd i;
  seamless = λ s a b c le le' covered. absurd covered.listed;
}

pub one_row : IsChain (past ∷ [])
unfolding running text_eq date_order others overlaps max_end_before min_start_after chain_violations
one_row = insert-IsChain [] no_rows past (omega arith, omega arith) refl (λ o i. absurd i)

-- One building with one apartment, whose owner since 2020 left at the end of 2024; its owner since
-- then is not in the table yet.
abbrev pub sample : List Period → Store
sample ownerships = record {
  today = 740000;
  token = λ n. 100 + n;
  drawn = 0;
  people =
      record { id = 5; name = chars "Anna"; display_name = none; email = chars "anna@b.c" } ∷ [];
  buildings =
      record {
        id = 1;
        name = chars "Haus";
        description = [];
        secret_slug = 2;
        rotation_seed = pos 0;
      }
      ∷ [];
  administrators = [];
  apartments =
      record { id = 11; building = 1; name = chars "W"; description = []; position = 0 } ∷ [];
  ownerships = ownerships;
  ownership_people = record { period = 1; person = 5; position = 0 } ∷ [];
  building_owners = [];
  building_owner_people = [];
  tenancies = [];
}

abbrev pub since_2025 : NewPeriod
since_2025 = record {
  people = record { name = chars "Ben"; email = chars "ben@b.c"; display_name = none } ∷ [];
  start_date = chars "2025-01-01";
  end_date = none;
}
