-- ===== src/Backup/Tests.antt =====
-- The names of backups at concrete times.
use kehrkraft.Prelude.{
  ℕ, suc, ◌+◌, ◌%◌, ◌<◌, ◌≡◌, ◌↔◌, refl, ◌⊎◌, true, arith, length, In, ◌==◌, if◌then◌else◌,
}
use kehrkraft.Models.Names.{chars}
use kehrkraft.Feed.{digits}
use kehrkraft.Backup.Naming.{
  daily, yearly, label, DateTime, last_sunday_of_year, slot_of, slot_object_part, object_name,
  latest_alias_name,
}
use kehrkraft.Backup.Retention.{retained, object_name-retained, last_sunday_of_year_iff}

-- Day 0, 0000-01-01, is a Saturday.
abbrev weekday : ℕ → ℕ
weekday d = (d + 6) % 7

-- 2026-12-31, whatever the year.
abbrev december_31 : ℕ → ℕ
december_31 year = 740346

weekday-lt : (d : ℕ) → weekday d < 7
weekday-lt d = omega arith

weekday-suc : (d : ℕ) → weekday (suc d) ≡ (if weekday d == 6 then 0 else suc (weekday d))
weekday-suc d = ground arith

-- 2026-12-27, a Sunday, at 4 o'clock.
abbrev sunday : DateTime
sunday = record { year = 2026; day = 740342; iso_week = 52; hour = 4 }

-- The day after, at 14 o'clock.
abbrev monday : DateTime
monday = record { year = 2026; day = 740343; iso_week = 53; hour = 14 }

name_of_sunday :
    object_name weekday december_31 (chars "kehrkraft") sunday
    ≡ chars "kehrkraft.yearly-2026.db.age"
unfolding object_name slot_object_part slot_of last_sunday_of_year digits
name_of_sunday = refl

name_of_monday :
    object_name weekday december_31 (chars "kehrkraft") monday ≡ chars "kehrkraft.hourly-14.db.age"
unfolding object_name slot_object_part slot_of last_sunday_of_year digits
name_of_monday = refl

alias_of_daily : latest_alias_name (chars "kehrkraft") daily ≡ chars "kehrkraft.daily-latest.alias"
unfolding latest_alias_name label
alias_of_daily = refl

object_name-retained_example :
    (length (retained (chars "kehrkraft")) ≡ 84)
    × ((slot_of weekday december_31 monday ≡ yearly)
        ⊎ In
            (object_name weekday december_31 (chars "kehrkraft") monday)
            (retained (chars "kehrkraft")))
object_name-retained_example =
    object_name-retained weekday december_31 weekday-lt (chars "kehrkraft") monday
      (record { hour_lt = omega arith; week_from = omega arith; week_to = omega arith })

last_sunday_of_year_iff_example :
    (last_sunday_of_year weekday december_31 sunday ≡ true) ↔ (december_31 2026 < 740342 + 7)
last_sunday_of_year_iff_example =
    last_sunday_of_year_iff weekday december_31 weekday-lt weekday-suc sunday refl (omega arith)
