-- ===== src/Backup/Retention.antt =====
-- The names under which backups are stored (src/backup/naming.rs).
use kehrkraft.Prelude.{
  ℕ, zero, suc, ◌+◌, ◌-◌, ◌≤◌, ◌<◌, ◌≡◌, ◌↔◌, refl, ap, ◌∙◌, inl, inr, ◌⊎◌, true, List, [], ◌∷◌,
  ◌++◌, Text, arith, ◌==◌, if◌then◌else◌, length, In, Bool-cases, subst,
}
use kehrkraft.Models.Names.{chars}
use kehrkraft.Feed.{two_digits}
use kehrkraft.Backup.Naming.{
  Slot, hourly, daily, weekly, yearly, DateTime, weekday_name, last_sunday_of_year, slot_of,
  part_of, slot_object_part, object_name,
}

-- The names `f 0` to `f (n - 1)`.
abbrev names : {A : Type 0} → (ℕ → A) → ℕ → List A
names f zero = []
names f (suc n) = f n ∷ names f n

In-names : {A : Type 0} (f : ℕ → A) (n k : ℕ) → k < n → In (f k) (names f n)
In-names f zero k h = absurd (omega (arith, h))
In-names f (suc n) k h = elim (Bool-cases (k == n)) [
  | inl t ↦ inl (ap f (ground (arith, t)))
  | inr differ ↦ inr (In-names f n k (ground (arith, h, differ)))
]

In-left : {A : Type 0} (x : A) (xs ys : List A) → In x xs → In x (xs ++ ys)
In-left x [] ys h = absurd h
In-left x (y ∷ xs) ys (inl e) = inl e
In-left x (y ∷ xs) ys (inr h) = inr (In-left x xs ys h)

In-right : {A : Type 0} (x : A) (xs ys : List A) → In x ys → In x (xs ++ ys)
In-right x [] ys h = h
In-right x (y ∷ xs) ys h = inr (In-right x xs ys h)

abbrev hourly_name : Text → ℕ → Text
hourly_name prefix k = prefix ++ (b'.' ∷ ((chars "hourly-" ++ two_digits k) ++ chars ".db.age"))

abbrev daily_name : Text → ℕ → Text
daily_name prefix k = prefix ++ (b'.' ∷ ((chars "daily-" ++ weekday_name k) ++ chars ".db.age"))

abbrev weekly_name : Text → ℕ → Text
weekly_name prefix k =
    prefix ++ (b'.' ∷ ((chars "weekly-" ++ two_digits (k + 1)) ++ chars ".db.age"))

-- 24 hourly, 7 daily and 53 weekly names.
unfoldable pub retained : Text → List Text
retained prefix =
    names (hourly_name prefix) 24 ++ (names (daily_name prefix) 7 ++ names (weekly_name prefix) 53)

-- The fields of a point in time are in their ranges.
pub record IsDateTime (now : DateTime) : Type 0 where
  pub hour_lt : now.hour < 24
  pub week_from : 1 ≤ now.iso_week
  pub week_to : now.iso_week ≤ 53

module _ (num_days_from_sunday : ℕ → ℕ) (dec31 : ℕ → ℕ)
    (weekday_lt : (d : ℕ) → num_days_from_sunday d < 7) where
  -- A backup of another slot than the yearly one is stored under one of 84 names, whenever it is
  -- taken.
  pub object_name-retained :
      (prefix : Text) (now : DateTime)
      → IsDateTime now
      → (length (retained prefix) ≡ 84)
        × ((slot_of num_days_from_sunday dec31 now ≡ yearly)
            ⊎ In (object_name num_days_from_sunday dec31 prefix now) (retained prefix))
  unfolding object_name slot_object_part retained
  object_name-retained prefix now is = (refl, in_slot (slot_of num_days_from_sunday dec31 now))
    where
      hours : List Text
      hours = names (hourly_name prefix) 24

      days : List Text
      days = names (daily_name prefix) 7

      weeks : List Text
      weeks = names (weekly_name prefix) 53

      week_name : Text
      week_name =
          prefix ++ (b'.' ∷ (part_of num_days_from_sunday dec31 weekly now ++ chars ".db.age"))

      in_weeks : In week_name weeks
      in_weeks =
          subst
            (λ w.
              In (prefix ++ (b'.' ∷ ((chars "weekly-" ++ two_digits w) ++ chars ".db.age"))) weeks)
            (omega (arith, is.week_from))
            (In-names (weekly_name prefix) 53 (now.iso_week - 1)
              (omega (arith, is.week_from, is.week_to)))

      in_slot :
          (slot : Slot)
          → (slot ≡ yearly)
            ⊎ In
                (prefix
                  ++ (b'.' ∷ (part_of num_days_from_sunday dec31 slot now ++ chars ".db.age")))
                (hours ++ (days ++ weeks))
      in_slot yearly = inl refl
      in_slot hourly =
          inr
            (In-left _ hours (days ++ weeks) (In-names (hourly_name prefix) 24 now.hour is.hour_lt))
      in_slot daily = inr (
          In-right _ hours (days ++ weeks) (
            In-left _ days weeks
              (In-names (daily_name prefix) 7 (num_days_from_sunday now.day) (weekday_lt now.day))))
      in_slot weekly = inr (In-right _ hours (days ++ weeks) (In-right _ days weeks in_weeks))

  -- The weekdays count up from Sunday and start over after Saturday.
  abbrev CountsWeekdays : Type 0
  CountsWeekdays =
      (d : ℕ)
      → num_days_from_sunday (suc d)
        ≡ (if num_days_from_sunday d == 6 then 0 else suc (num_days_from_sunday d))

  weekday_after :
      CountsWeekdays
      → (d : ℕ) → num_days_from_sunday d ≡ 0
      → (k : ℕ) → k < 7
      → num_days_from_sunday (d + k) ≡ k
  weekday_after counts d sunday zero h =
      let here : d + 0 ≡ d = omega arith in ap num_days_from_sunday here ∙ sunday
  weekday_after counts d sunday (suc k) h =
      let next : d + suc k ≡ suc (d + k) = omega arith in
      ap num_days_from_sunday next
      ∙ ground (arith, counts (d + k), weekday_after counts d sunday k (omega (arith, h)), h)

  -- Where weekdays count up from Sunday and start over after Saturday, a Sunday is the last Sunday of
  -- its year if and only if the Sunday after it is not in the year any more.
  pub last_sunday_of_year_iff :
      CountsWeekdays
      → (now : DateTime) → num_days_from_sunday now.day ≡ 0
      → now.day ≤ dec31 now.year
      → (last_sunday_of_year num_days_from_sunday dec31 now ≡ true) ↔ (dec31 now.year < now.day + 7)
  unfolding last_sunday_of_year
  last_sunday_of_year_iff counts now sunday within = (
    (λ h. ground (arith, h, within, weekday_lt (dec31 now.year))),
    (λ h. ground (
      arith,
      h,
      within,
      weekday_after counts now.day sunday (dec31 now.year - now.day) (omega (arith, h)),
      ap num_days_from_sunday (later h),
    )),
  )
    where
      later : dec31 now.year < now.day + 7 → now.day + (dec31 now.year - now.day) ≡ dec31 now.year
      later h = omega (arith, within)
