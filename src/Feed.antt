-- ===== src/Feed.antt =====
-- src/web/ical.rs: the iCalendar document of a building. The texts of the user interface
-- (src/i18n.rs) and the formats of chrono are the fields of `Ui`; a text is its list of code points,
-- and `len_utf8` is the number of octets of one in UTF-8.
use kehrkraft.Prelude.{
  ℕ, ◌+◌, ◌/◌, ◌%◌, zero, suc, Bool, true, false, not, List, [], ◌∷◌, ◌++◌, map, Option, none, some,
  Text, ltb, leb, ◌==◌, if◌then◌else◌,
}
use kehrkraft.Models.Names.{chars}
use kehrkraft.Scheduler.{WeekAssignment}
pub mod Escape
pub mod Fold
pub mod Unfold
pub mod Public
mod Tests

pub record Ui : Type 0 where
  -- `lang_code().to_uppercase()`.
  pub lang_code : Text
  -- The messages `schedule.unassigned`, `ical.summary` of a week and a name, `ical.building`.
  pub unassigned : Text
  pub summary : Text → Text → Text
  pub building : Text → Text
  -- The date format of the language, and "%Y%m%d".
  pub date : ℕ → Text
  pub basic_date : ℕ → Text
  -- The time of the request as "%Y%m%dT%H%M%SZ".
  pub now : Text

-- The digits of a number, with fuel for each of them: `n` is enough for `n`.
unfoldable pub digits : ℕ → ℕ → Text
digits zero n = []
digits (suc fuel) n =
    let rest = digits fuel (n / 10) in (if ltb n 10 then [] else rest) ++ (48 + n % 10) ∷ []

abbrev pub to_string : ℕ → Text
to_string n = digits (suc n) n

-- The format `{:02}`.
abbrev pub two_digits : ℕ → Text
two_digits n = if ltb n 10 then 48 ∷ to_string n else to_string n

abbrev pub len_utf8 : ℕ → ℕ
len_utf8 c = if ltb c 128 then 1 else if ltb c 2048 then 2 else if ltb c 65536 then 3 else 4

-- `str::len`.
unfoldable pub octets : Text → ℕ
octets [] = 0
octets (c ∷ s) = len_utf8 c + octets s

abbrev pub escape_char : ℕ → Text
escape_char c =
    if c == b'\\'
    then b'\\' ∷ b'\\' ∷ []
    else if c == b';'
    then b'\\' ∷ b';' ∷ []
    else if c == b','
    then b'\\' ∷ b',' ∷ []
    else if c == 10
    then b'\\' ∷ b'n' ∷ []
    else c ∷ []

unfoldable pub escape_ical : Text → Text
escape_ical [] = []
escape_ical (c ∷ s) = escape_char c ++ escape_ical s

abbrev pub crlf : Text
crlf = 13 ∷ 10 ∷ []

-- The line break of a folded line.
abbrev pub fold_break : Text
fold_break = 13 ∷ 10 ∷ 32 ∷ []

-- The loop over the characters, from the flag `first` and the text `current` on: what it appends.
unfoldable pub fold_chars : ℕ → Text → Text → Text
fold_chars limit current [] = current
fold_chars limit current (c ∷ s) = elim (ltb limit (octets current + len_utf8 c)) [
  | true ↦ current ++ (fold_break ++ fold_chars 74 (c ∷ []) s)
  | false ↦ fold_chars limit (current ++ c ∷ []) s
]

unfoldable pub fold_line : Text → Text
fold_line line = if leb (octets line) 75 then line else fold_chars 75 [] line

-- What `push_ical_line` appends.
unfoldable pub push_ical_line : Text → Text → Text
push_ical_line name value = fold_line (name ++ b':' ∷ escape_ical value) ++ crlf

unfoldable pub uid_for : Text → ℕ → ℕ → Text
uid_for slug year iso_week =
    chars "kehrwoche-"
    ++ (to_string year ++ b'-' ∷ (two_digits iso_week ++ b'-' ∷ (slug ++ chars "@kehrkraft")))

unfoldable pub event_block : Ui → Text → Text → WeekAssignment → Text
event_block ui building_name slug w =
    let name : Text = elim w.assignee_name [ none ↦ ui.unassigned | some n ↦ n ] in
    let description =
      ui.building building_name ++ 10 ∷ (ui.date w.start ++ (32 ∷ 8211 ∷ 32 ∷ ui.date w.end)) in
    (chars "BEGIN:VEVENT" ++ crlf)
    ++ (push_ical_line (chars "UID") (uid_for slug w.year w.iso_week)
        ++ (push_ical_line (chars "DTSTAMP") ui.now
            ++ (push_ical_line (chars "DTSTART;VALUE=DATE") (ui.basic_date w.start)
                ++ (push_ical_line (chars "DTEND;VALUE=DATE") (ui.basic_date (w.end + 1))
                    ++ (push_ical_line (chars "SUMMARY") (ui.summary (to_string w.iso_week) name)
                        ++ (push_ical_line (chars "DESCRIPTION") description
                            ++ (chars "END:VEVENT" ++ crlf)))))))

-- The inner loop, over the weeks of a schedule.
unfoldable pub schedule_blocks : Ui → Text → Text → List WeekAssignment → Text
schedule_blocks ui building_name slug [] = []
schedule_blocks ui building_name slug (w ∷ weeks) =
    event_block ui building_name slug w ++ schedule_blocks ui building_name slug weeks

unfoldable pub all_blocks : Ui → Text → Text → List (List WeekAssignment) → Text
all_blocks ui building_name slug [] = []
all_blocks ui building_name slug (weeks ∷ schedules) =
    schedule_blocks ui building_name slug weeks ++ all_blocks ui building_name slug schedules

unfoldable pub ical_document : Ui → Text → Text → List (List WeekAssignment) → Text
ical_document ui building_name slug schedules =
    (chars "BEGIN:VCALENDAR" ++ crlf)
    ++ (push_ical_line (chars "VERSION") (chars "2.0")
        ++ (push_ical_line (chars "PRODID") (chars "-//Kehrkraft//Kehrwoche//" ++ ui.lang_code)
            ++ (push_ical_line (chars "CALSCALE") (chars "GREGORIAN")
                ++ (push_ical_line (chars "X-WR-CALNAME") (chars "Kehrwoche " ++ building_name)
                    ++ (all_blocks ui building_name slug schedules
                        ++ (chars "END:VCALENDAR" ++ crlf))))))
