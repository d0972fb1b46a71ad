-- ===== src/Db/Period.antt =====
-- The period tables `ownerships`, `building_owners` and `tenancies` of migrations/ and their
-- triggers, in the form of migrations/0012_validation_error_codes.sql. `subject` is the apartment
-- or the building of a period. Stored dates have the form YYYY-MM-DD, by the triggers on their
-- format, so that their text order is that of their days: a stored date is its day, counted from
-- 0000-01-01. SQLite fires the BEFORE triggers of a statement in no documented order, so a check
-- lists the codes of all triggers that reject; a row is accepted if there is none.
use kehrkraft.Prelude.{
  ℕ, suc, ◌+◌, ◌-◌, Bool, true, false, not, ◌&&◌, List, [], ◌∷◌, ◌++◌, map, Option, none, some, min,
  max, ltb, leb, ◌==◌, if◌then◌else◌, any, filter, length,
}
pub mod Days
pub mod Tiling
pub mod Moves
pub mod Removal

pub record Period : Type 0 where
  pub id : ℕ
  pub subject : ℕ
  pub start : ℕ
  pub end : Option ℕ

-- The codes of migrations/0012_validation_error_codes.sql that this development meets; the
-- codes of the period tables are named once, without the name of the table.
pub data ErrorCode : Type 0 where
  start_date_format end_date_format start_after_end overlap gap_next_start gap_prev_end : ErrorCode
  last_delete middle_delete current_delete requires_person : ErrorCode
  forbidden_when_building_owner forbidden_when_apartment_owners : ErrorCode
  apartment_requires_owner : ErrorCode
  name_empty name_too_long email_at email_dot person_email_taken : ErrorCode

-- The day of '9999-12-31'.
abbrev pub far : ℕ
far = 3652424

-- COALESCE(end_date, '9999-12-31').
abbrev pub last_day : Period → ℕ
last_day p = elim p.end [ none ↦ far | some e ↦ e ]

unfoldable pub overlaps : Period → Period → Bool
overlaps new o = leb new.start (last_day o) && leb o.start (last_day new)

-- The other rows of the same subject: WHERE o.apartment_id = NEW.apartment_id AND o.id != OLD.id.
unfoldable pub others : Period → List Period → List Period
others new rows = filter (λ o. (o.subject == new.subject) && not (o.id == new.id)) rows

-- SELECT MAX(o.end_date) WHERE o.end_date IS NOT NULL AND o.end_date < day.
abbrev pub ended_before : ℕ → Period → Option ℕ
ended_before day o = elim o.end [ none ↦ none | some e ↦ if ltb e day then some e else none ]

abbrev pub max_of : Option ℕ → Option ℕ → Option ℕ
max_of none b = b
max_of (some a) none = some a
max_of (some a) (some b) = some (max a b)

unfoldable pub max_end_before : ℕ → List Period → Option ℕ
max_end_before day [] = none
max_end_before day (o ∷ rows) = max_of (ended_before day o) (max_end_before day rows)

-- SELECT MIN(o.start_date) WHERE o.start_date > day.
abbrev pub started_after : ℕ → Period → Option ℕ
started_after day o = if ltb day o.start then some o.start else none

abbrev pub min_of : Option ℕ → Option ℕ → Option ℕ
min_of none b = b
min_of (some a) none = some a
min_of (some a) (some b) = some (min a b)

unfoldable pub min_start_after : ℕ → List Period → Option ℕ
min_start_after day [] = none
min_start_after day (o ∷ rows) = min_of (started_after day o) (min_start_after day rows)

-- The code, if its trigger fires.
abbrev pub when : Bool → ErrorCode → List ErrorCode
when true code = code ∷ []
when false code = []

-- `date(previous_end, '+1 day') != NEW.start_date`; no previous period, no objection.
abbrev pub misses_start : ℕ → Option ℕ → Bool
misses_start start none = false
misses_start start (some e) = not (e + 1 == start)

-- `date(next_start, '-1 day') != COALESCE(NEW.end_date, '9999-12-31')`.
abbrev pub misses_end : ℕ → Option ℕ → Bool
misses_end end none = false
misses_end end (some s) = not (s - 1 == end)

unfoldable pub date_order : Period → List ErrorCode
date_order new = elim new.end [ none ↦ [] | some e ↦ when (ltb e new.start) start_after_end ]

-- The triggers `*_date_order_*`, `*_chain_overlap_*`, `*_chain_gap_prev_*`, `*_chain_gap_next_*`
-- on `ownerships` and `building_owners`, for an insert and, where the row is there, an update.
unfoldable pub chain_violations : Period → List Period → List ErrorCode
chain_violations new rows =
    date_order new
    ++ (when (any (overlaps new) (others new rows)) overlap
        ++ (when (misses_start new.start (max_end_before new.start (others new rows)))
              gap_next_start
            ++ when (misses_end (last_day new) (min_start_after (last_day new) (others new rows)))
                gap_prev_end))

-- The triggers `tenancies_date_order_*` and `tenancies_no_overlap_*`.
unfoldable pub tenancy_violations : Period → List Period → List ErrorCode
tenancy_violations new rows = date_order new ++ when (any (overlaps new) (others new rows)) overlap

-- `*_guard_middle`: another period ends before the deleted one, and another starts after its end.
unfoldable pub is_middle : Period → List Period → Bool
is_middle old rows =
    any (λ o. elim o.end [ none ↦ false | some e ↦ ltb e old.start ]) (others old rows)
    && any (λ o. elim old.end [ none ↦ false | some e ↦ ltb e o.start ]) (others old rows)

-- start_date <= day AND (end_date IS NULL OR end_date >= day).
abbrev pub covers : ℕ → Period → Bool
covers day p = leb p.start day && elim p.end [ none ↦ true | some e ↦ leb day e ]

-- UPDATE … SET start_date, end_date WHERE id: the row with the id of `new` is replaced.
unfoldable pub replace_row : Period → List Period → List Period
replace_row new [] = []
replace_row new (o ∷ rows) = (if o.id == new.id then new else o) ∷ replace_row new rows

-- DELETE … WHERE id.
unfoldable pub remove_row : ℕ → List Period → List Period
remove_row id rows = filter (λ o. not (o.id == id)) rows

unfoldable pub find_row : ℕ → List Period → Option Period
find_row id [] = none
find_row id (o ∷ rows) = if o.id == id then some o else find_row id rows
