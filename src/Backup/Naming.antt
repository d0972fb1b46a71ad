-- ===== src/Backup/Naming.antt =====
-- src/backup/naming.rs: the slot of a backup and the names of its objects. What the code reads of a
-- `DateTime<Utc>` is a record; the weekday of a day and December 31 of a year come from chrono.
use kehrkraft.Prelude.{ℕ, ◌-◌, Bool, [], ◌∷◌, ◌++◌, Text, ltb, ◌==◌, if◌then◌else◌}
use kehrkraft.Models.Names.{chars}
use kehrkraft.Feed.{to_string, two_digits}

pub data Slot : Type 0 where
  hourly daily weekly yearly : Slot

unfoldable pub label : Slot → Text
label hourly = chars "hourly"
label daily = chars "daily"
label weekly = chars "weekly"
label yearly = chars "yearly"

-- `iso_week` is the week of `iso_week()`, `day` the number of the day of `date_naive()`.
pub record DateTime : Type 0 where
  pub year : ℕ
  pub day : ℕ
  pub iso_week : ℕ
  pub hour : ℕ

abbrev pub four_digits : ℕ → Text
four_digits n =
    (if ltb n 1000 then b'0' ∷ [] else [])
    ++ ((if ltb n 100 then b'0' ∷ [] else [])
        ++ ((if ltb n 10 then b'0' ∷ [] else []) ++ to_string n))

-- The format `%A`.
unfoldable pub weekday_name : ℕ → Text
weekday_name n =
    if n == 0
    then chars "Sunday"
    else if n == 1
    then chars "Monday"
    else if n == 2
    then chars "Tuesday"
    else if n == 3
    then chars "Wednesday"
    else if n == 4
    then chars "Thursday"
    else if n == 5
    then chars "Friday"
    else chars "Saturday"

-- `num_days_from_sunday` is the weekday of a day, `dec31` the day of December 31 of a year.
module _ (num_days_from_sunday : ℕ → ℕ) (dec31 : ℕ → ℕ) where
  unfoldable pub last_sunday_of_year : DateTime → Bool
  last_sunday_of_year now = now.day == (dec31 now.year - num_days_from_sunday (dec31 now.year))

  unfoldable pub slot_of : DateTime → Slot
  slot_of now =
      if now.hour == 4
      then if num_days_from_sunday now.day == 0
        then if last_sunday_of_year now then yearly else weekly
        else daily
      else hourly

  abbrev pub part_of : Slot → DateTime → Text
  part_of yearly now = chars "yearly-" ++ four_digits now.year
  part_of weekly now = chars "weekly-" ++ two_digits now.iso_week
  part_of daily now = chars "daily-" ++ weekday_name (num_days_from_sunday now.day)
  part_of hourly now = chars "hourly-" ++ two_digits now.hour

  unfoldable pub slot_object_part : DateTime → Text
  slot_object_part now = part_of (slot_of now) now

  unfoldable pub object_name : Text → DateTime → Text
  object_name prefix now = prefix ++ (b'.' ∷ (slot_object_part now ++ chars ".db.age"))

unfoldable pub latest_alias_name : Text → Slot → Text
latest_alias_name prefix slot = prefix ++ (b'.' ∷ (label slot ++ chars "-latest.alias"))
