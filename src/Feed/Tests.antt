-- ===== src/Feed/Tests.antt =====
-- The iCalendar document at concrete inputs.
use kehrkraft.Prelude.{◌≡◌, refl, true, false, [], ◌∷◌, ◌++◌, none, some, Text}
use kehrkraft.Models.Names.{chars}
use kehrkraft.Scheduler.{WeekAssignment}
use kehrkraft.Feed.{Ui, digits, octets, fold_chars, fold_line, uid_for, ical_document}
use kehrkraft.Feed.Fold.{is_narrow, ical_document-is_narrow}
use kehrkraft.Feed.Unfold.{read_folded, nothing, read_folded-fold_line}

abbrev english : Ui
english = record {
  lang_code = chars "EN";
  unassigned = chars "unassigned";
  summary = λ week name. chars "Week " ++ (week ++ (chars ": " ++ name));
  building = λ name. chars "Building " ++ name;
  date = λ day. chars "2026-01-05";
  basic_date = λ day. chars "20260105";
  now = chars "20260101T000000Z";
}

abbrev week : WeekAssignment
week = record {
  year = 2026;
  iso_week = 2;
  start = 739990;
  end = 739996;
  assignee_id = some 1;
  assignee_name = some (chars "Anna, Ben; & Cid");
  assignee_email = none;
  delegated = false;
}

uid_of_week : uid_for (chars "slug") 2026 2 ≡ chars "kehrwoche-2026-02-slug@kehrkraft"
unfolding uid_for digits
uid_of_week = refl

-- A line of 85 octets.
abbrev long : Text
long = chars "DESCRIPTION:0123456789012345678901234567890123456789012345678901234567890123456789012"

long_is_folded :
    fold_line long
    ≡ chars
        "DESCRIPTION:012345678901234567890123456789012345678901234567890123456789012\r\n 3456789012"
unfolding fold_line fold_chars octets
long_is_folded = refl

read_folded-fold_line_example : read_folded nothing (fold_line long) ≡ long
read_folded-fold_line_example = read_folded-fold_line long refl

ical_document-is_narrow_example :
    is_narrow 0 (ical_document english (chars "Haus") (chars "slug") ((week ∷ []) ∷ [])) ≡ true
ical_document-is_narrow_example =
    ical_document-is_narrow english (chars "Haus") (chars "slug") ((week ∷ []) ∷ [])
