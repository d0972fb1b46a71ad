-- ===== src/Calendar.antt =====
-- The calendar that the program takes from chrono and from SQLite. A day is its number since
-- 0000-01-01: the code uses of a date only its order, differences and sums of whole days, its
-- text and its ISO week, which are the fields.
pub mod Gregorian
use kehrkraft.Prelude.{ℕ, suc, ◌+◌, ◌*◌, ◌≤◌, ◌<◌, ◌≡◌, Option, Text}

pub record Calendar : Type 0 where
  -- `NaiveDate::iso_week().year()` and `.week()`.
  pub iso_year : ℕ → ℕ
  pub iso_week : ℕ → ℕ
  -- `NaiveDate::MAX`, the last day.
  pub max_day : ℕ
  -- The Monday of ISO week 1: `NaiveDate::from_isoywd_opt(year, 1, Weekday::Mon)` gives it unless it
  -- is after the last day.
  pub week_one : ℕ → ℕ
  -- How many ISO weeks the year has.
  pub weeks : ℕ → ℕ
  -- `NaiveDate::from_ymd_opt`, at a valid date.
  pub from_ymd : ℕ → ℕ → ℕ → ℕ
  -- `NaiveDate::parse_from_str(s, "%Y-%m-%d")`.
  pub parse_date : Text → Option ℕ
  -- An ISO year has 52 or 53 whole weeks, which start on a Monday, and the next year follows.
  pub weeks_range : (y : ℕ) → (52 ≤ weeks y) × (weeks y ≤ 53)
  pub week_one-suc : (y : ℕ) → week_one (suc y) ≡ week_one y + 7 * weeks y
  pub iso_year_of : (y d : ℕ) → d ≤ max_day → week_one y ≤ d → d < week_one (suc y) → iso_year d ≡ y
  pub iso_week_of :
      (y k i : ℕ)
      → week_one y + 7 * k + i ≤ max_day
      → k < weeks y
      → i < 7
      → iso_week (week_one y + 7 * k + i) ≡ k + 1
  -- 2020-01-06 is the Monday of ISO week 2 of 2020.
  pub from_ymd_epoch : from_ymd 2020 1 6 ≡ week_one 2020 + 7
