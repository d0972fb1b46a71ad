-- ===== src/Pdf.antt =====
-- src/web/pdf.rs: the texts and the layout of the printed schedule.
use kehrkraft.Prelude.{
  ℕ, ◌+◌, ◌-◌, ◌/◌, ◌%◌, Bool, true, false, not, ◌&&◌, ◌||◌, List, [], ◌∷◌, ◌++◌, map, Option, none,
  some, Text, ltb, leb, ◌==◌, if◌then◌else◌, take, drop, length,
}
use kehrkraft.Models.Names.{chars, join}
use kehrkraft.Scheduler.{WeekAssignment}
use kehrkraft.Feed.{to_string}
pub mod Columns
pub mod Quoting
mod Tests

-- `str::replace` of one character.
unfoldable pub replace : ℕ → Text → Text → Text
replace c new [] = []
replace c new (d ∷ s) = (if d == c then new else d ∷ []) ++ replace c new s

unfoldable pub escape_typst_str : Text → Text
escape_typst_str s = replace b'"' (b'\\' ∷ b'"' ∷ []) (replace b'\\' (b'\\' ∷ b'\\' ∷ []) s)

unfoldable pub is_ascii_alphanumeric : ℕ → Bool
is_ascii_alphanumeric c =
    (leb b'0' c && leb c b'9') || (leb b'A' c && leb c b'Z') || (leb b'a' c && leb c b'z')

unfoldable pub sanitize_filename : Text → Text
sanitize_filename s = map (λ c. if is_ascii_alphanumeric c then c else b'-') s

abbrev pub bool_text : Bool → Text
bool_text true = chars "true"
bool_text false = chars "false"

-- A row of the table; `date` is the date format of the language.
unfoldable pub row_source : (ℕ → Text) → ℕ → WeekAssignment → Text
row_source date year w =
    let name : Text = elim w.assignee_name [ none ↦ [] | some n ↦ n ] in
    chars "(week: "
    ++ (to_string w.iso_week
        ++ (chars ", start: \""
            ++ (date w.start
                ++ (chars "\", end: \""
                    ++ (date w.end
                        ++ (chars "\", name: \""
                            ++ (escape_typst_str name
                                ++ (chars "\", info: "
                                    ++ (bool_text (not (w.year == year)) ++ chars ")")))))))))

unfoldable pub rows_source : (ℕ → Text) → ℕ → List WeekAssignment → Text
rows_source date year rows =
    chars "(\n" ++ (join (chars ",\n") (map (row_source date year) rows) ++ chars "\n)")

abbrev pub last : {A : Type 0} → List A → Option A
last [] = none
last (x ∷ []) = some x
last (x ∷ y ∷ xs) = last (y ∷ xs)

-- The two columns of a year with an odd number of weeks, with the last week of the year before.
abbrev pub odd_columns : {A : Type 0} → Option A → List A → List A → Option (List A × List A)
odd_columns none current next = none
odd_columns (some week) current next =
    let left_current = (length current + 3) / 2 - 1 in
    if leb left_current (length current) && leb 2 (length next)
    then some (week ∷ take left_current current, drop left_current current ++ take 2 next)
    else none

-- `none` is a panic: no week in the year before, or fewer than two in the next one. The element
-- type stands for `&WeekAssignment`, into which the code does not look.
unfoldable pub balanced_columns : {A : Type 0} → List A → List A → List A → Option (List A × List A)
balanced_columns prev current next =
    if length current % 2 == 0
    then some (take (length current / 2) current, drop (length current / 2) current)
    else odd_columns (last prev) current next

abbrev pub url_for : Text → Option Text → Text → Text
url_for name none secret_slug = []
url_for name (some base) secret_slug = base ++ (chars "/p/" ++ (secret_slug ++ (b'/' ∷ name)))

unfoldable pub pdf_url_for : Option Text → Text → Text
pdf_url_for public_url secret_slug = url_for (chars "kehrwoche.pdf") public_url secret_slug

unfoldable pub ical_url_for : Option Text → Text → Text
ical_url_for public_url secret_slug = url_for (chars "kehrwoche.ics") public_url secret_slug
