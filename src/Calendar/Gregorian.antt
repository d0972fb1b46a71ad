-- ===== src/Calendar/Gregorian.antt =====
-- A calendar that meets `Calendar`: the proleptic Gregorian one from 0000-01-01, a Saturday, on.
-- It is no model of chrono; it shows that the laws can hold, and lets the model run.
use native.Mathlib.Nat.{add-zero, le_refl}
use kehrkraft.Prelude.{
  ℕ, zero, suc, ◌+◌, ◌-◌, ◌*◌, ◌/◌, ◌%◌, ◌≤◌, ◌<◌, ◌≡◌, refl, ◌&&◌, [], ◌∷◌, Option, none, some,
  arith, Text, ltb, leb, ◌==◌, if◌then◌else◌,
}
use kehrkraft.Calendar.{Calendar}

-- The days from 0000-01-01 to the first of January.
unfoldable pub before : ℕ → ℕ
before y = 365 * y + (y + 3) / 4 + (y + 399) / 400 - (y + 99) / 100

before-suc : (y : ℕ) → (before y + 365 ≤ before (suc y)) × (before (suc y) ≤ before y + 366)
unfolding before
before-suc y = omega arith

-- The Monday of the week of a day.
unfoldable pub monday_of : ℕ → ℕ
monday_of d = d - (d + 5) % 7

monday_range : (d : ℕ) → 3 ≤ d → (monday_of d ≤ d) × (d ≤ monday_of d + 6) × (monday_of d % 7 ≡ 2)
unfolding monday_of
monday_range d h = omega arith

-- The week of the fourth of January.
unfoldable pub week_one : ℕ → ℕ
week_one y = monday_of (before y + 3)

unfoldable pub weeks : ℕ → ℕ
weeks y = (week_one (suc y) - week_one y) / 7

pub weeks_lem :
    (y : ℕ) → (52 ≤ weeks y) × (weeks y ≤ 53) × (week_one (suc y) ≡ week_one y + 7 * weeks y)
unfolding weeks week_one
weeks_lem y = omega (
  arith,
  before-suc y,
  monday_range (before y + 3) (omega arith),
  monday_range (before (suc y) + 3) (omega arith),
)

week_one-le : (y : ℕ) → week_one y ≤ 366 * y + 3
unfolding week_one before
week_one-le y = omega (arith, monday_range (before y + 3) (omega arith))

unfoldable pub find_year : ℕ → ℕ → ℕ → ℕ
find_year zero y d = y
find_year (suc fuel) y d =
    let later = find_year fuel (suc y) d in if ltb d (week_one (suc y)) then y else later

unfoldable pub iso_year : ℕ → ℕ
iso_year d = find_year d (d / 366 - 1) d

unfoldable pub iso_week : ℕ → ℕ
iso_week d = (d - week_one (iso_year d)) / 7 + 1

week_one_mono : (k y : ℕ) → week_one y ≤ week_one (y + k)
week_one_mono zero y = rw (add-zero y) (le_refl _)
week_one_mono (suc k) y =
    let e : y + suc k ≡ suc (y + k) = omega arith in
    rw e (omega (arith, week_one_mono k y, weeks_lem (y + k)))

week_one_later : (a b : ℕ) → a < b → week_one (suc a) ≤ week_one b
week_one_later a b h =
    let e : suc a + (b - suc a) ≡ b = omega arith in rw e at (week_one_mono (b - suc a) (suc a))

le-week_one : (y : ℕ) → y ≤ week_one y
le-week_one zero = omega arith
le-week_one (suc y) = omega (arith, le-week_one y, weeks_lem y)

find_year_lem :
    (fuel y' y d : ℕ)
    → y' ≤ y
    → y ≤ y' + fuel
    → week_one y ≤ d
    → d < week_one (suc y)
    → find_year fuel y' d ≡ y
unfolding find_year
find_year_lem zero y' y d le f lo hi = omega arith
find_year_lem (suc fuel) y' y d le f lo hi =
    ground (arith, week_one_later y' y, find_year_lem fuel (suc y') y d)

pub iso_year_lem : (y d : ℕ) → week_one y ≤ d → d < week_one (suc y) → iso_year d ≡ y
unfolding iso_year
iso_year_lem y d lo hi =
    find_year_lem d (d / 366 - 1) y d (omega (arith, week_one-le (suc y)))
      (omega (arith, le-week_one y)) lo hi

pub iso_week_lem : (y k i : ℕ) → k < weeks y → i < 7 → iso_week (week_one y + 7 * k + i) ≡ k + 1
unfolding iso_week
iso_week_lem y k i hk hi =
    let d = week_one y + 7 * k + i in
    let e : iso_year d ≡ y = iso_year_lem y d (omega arith) (omega (arith, weeks_lem y)) in
    rw e (omega arith)

unfoldable pub days_in_month : ℕ → ℕ → ℕ
days_in_month y m =
    let february = 28 + (before (suc y) - before y - 365) in
    let other = 30 + (if ltb m 8 then m % 2 else (m + 1) % 2) in if m == 2 then february else other

unfoldable pub before_month : ℕ → ℕ → ℕ
before_month y zero = 0
before_month y (suc m) = before_month y m + days_in_month y (suc m)

unfoldable pub from_ymd : ℕ → ℕ → ℕ → ℕ
from_ymd y m d = before y + before_month y (m - 1) + (d - 1)

pub from_ymd_epoch : from_ymd 2020 1 6 ≡ week_one 2020 + 7
unfolding from_ymd before_month before week_one monday_of
from_ymd_epoch = refl

-- The number of a text of digits, most significant first.
unfoldable pub digits_from : ℕ → Text → Option ℕ
digits_from n [] = some n
digits_from n (c ∷ s) =
    let rest = digits_from (n * 10 + (c - b'0')) s in
    if leb b'0' c && leb c b'9' then rest else none

unfoldable pub checked : Option ℕ → Option ℕ → Option ℕ → Option ℕ
checked (some y) (some m) (some d) =
    if leb 1 m && leb m 12 && leb 1 d && leb d (days_in_month y m)
    then some (from_ymd y m d)
    else none
checked _ _ _ = none

-- Ten characters, YYYY-MM-DD.
unfoldable pub parse_date : Text → Option ℕ
parse_date (a ∷ b ∷ c ∷ d ∷ p ∷ e ∷ f ∷ q ∷ g ∷ h ∷ []) =
    if (p == b'-') && (q == b'-')
    then checked (digits_from 0 (a ∷ b ∷ c ∷ d ∷ [])) (digits_from 0 (e ∷ f ∷ []))
        (digits_from 0 (g ∷ h ∷ []))
    else none
parse_date _ = none

abbrev pub gregorian : Calendar
gregorian = record {
  iso_year = iso_year;
  iso_week = iso_week;
  -- 262142-12-31.
  max_day = from_ymd 262142 12 31;
  week_one = week_one;
  weeks = weeks;
  from_ymd = from_ymd;
  parse_date = parse_date;
  weeks_range = λ y. ((weeks_lem y).0, (weeks_lem y).1);
  week_one-suc = λ y. (weeks_lem y).2;
  iso_year_of = λ y d in_range. iso_year_lem y d;
  iso_week_of = λ y k i in_range. iso_week_lem y k i;
  from_ymd_epoch = from_ymd_epoch;
}

-- To run the calendar.
unfoldable pub running : Unit {0}
unfolding before monday_of week_one weeks find_year iso_year iso_week days_in_month before_month
    from_ymd digits_from checked parse_date
running = tt
