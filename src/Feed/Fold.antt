-- ===== src/Feed/Fold.antt =====
-- The physical lines that `fold_line` of src/web/ical.rs makes.
use kehrkraft.Prelude.{
  ℕ, ◌+◌, ◌≤◌, ◌≡◌, refl, sym, ap, ◌∙◌, inl, inr, Bool, true, false, ◌&&◌, List, [], ◌∷◌, ◌++◌,
  Text, arith, leb, ltb, ◌==◌, Bool-cases, append_assoc, append-nil,
}
use kehrkraft.Models.Names.{chars}
use kehrkraft.Scheduler.{WeekAssignment}
use kehrkraft.Feed.{
  Ui, len_utf8, octets, escape_ical, crlf, fold_break, fold_chars, fold_line, push_ical_line,
  event_block, schedule_blocks, all_blocks, ical_document,
}
use kehrkraft.Feed.Escape.{has_no_lf, escape_ical-has_no_lf}

-- Every physical line has at most 75 octets, its line break (CR, LF) not counted, if `n` octets of
-- the first one came before.
unfoldable pub is_narrow : ℕ → Text → Bool
is_narrow n [] = leb n 75
is_narrow n (c ∷ s) = elim (c == 10) [
  | true ↦ leb n 76 && is_narrow 0 s
  | false ↦ is_narrow (n + len_utf8 c) s
]

pub has_no_lf-append :
    (s t : Text) → has_no_lf s ≡ true → has_no_lf t ≡ true → has_no_lf (s ++ t) ≡ true
has_no_lf-append [] t h k = k
has_no_lf-append (c ∷ s) t h k = ground (arith, has_no_lf-append s t)

octets-append : (s t : Text) → octets (s ++ t) ≡ octets s + octets t
unfolding octets
octets-append [] t = omega arith
octets-append (c ∷ s) t = omega (arith, octets-append s t)

narrow_text :
    (n : ℕ) (s r : Text) → has_no_lf s ≡ true → is_narrow n (s ++ r) ≡ is_narrow (n + octets s) r
unfolding is_narrow octets
narrow_text n [] r h = ap (λ m. is_narrow m r) (omega arith)
narrow_text n (c ∷ s) r h =
    let rest : has_no_lf s ≡ true = ground (arith, h) in
    let other : (c == 10) ≡ false = ground (arith, h) in
    rw (other, is_narrow)
      (narrow_text (n + len_utf8 c) s r rest ∙ ap (λ m. is_narrow m r) (omega arith))

narrow_crlf : (n : ℕ) (r : Text) → n ≤ 75 → is_narrow n (crlf ++ r) ≡ is_narrow 0 r
unfolding is_narrow
narrow_crlf n r h = ground (arith, h)

narrow_break : (n : ℕ) (r : Text) → n ≤ 75 → is_narrow n (fold_break ++ r) ≡ is_narrow 1 r
unfolding is_narrow
narrow_break n r h = ground (arith, h)

len_utf8-le : (c : ℕ) → len_utf8 c ≤ 4
len_utf8-le c = ground arith

octets_one : (c : ℕ) → octets (c ∷ []) ≡ len_utf8 c
unfolding octets
octets_one c = omega arith

none_le : (n : ℕ) → octets [] ≤ n
unfolding octets
none_le n = omega arith

pub fold_over :
    (limit : ℕ) (current s : Text) (c : ℕ)
    → ltb limit (octets current + len_utf8 c) ≡ true
    → fold_chars limit current (c ∷ s) ≡ current ++ (fold_break ++ fold_chars 74 (c ∷ []) s)
unfolding fold_chars
fold_over limit current s c h = rw (h, fold_chars) refl

pub fold_under :
    (limit : ℕ) (current s : Text) (c : ℕ)
    → ltb limit (octets current + len_utf8 c) ≡ false
    → fold_chars limit current (c ∷ s) ≡ fold_chars limit (current ++ c ∷ []) s
unfolding fold_chars
fold_under limit current s c h = rw (h, fold_chars) refl

narrow_fold_chars :
    (o limit : ℕ) (current s r : Text)
    → o + limit ≡ 75
    → octets current ≤ limit
    → has_no_lf current ≡ true
    → has_no_lf s ≡ true
    → is_narrow o (fold_chars limit current s ++ (crlf ++ r)) ≡ is_narrow 0 r
unfolding fold_chars
narrow_fold_chars o limit current [] r e fits h k =
    narrow_text o current (crlf ++ r) h
    ∙ narrow_crlf (o + octets current) r (omega (arith, e, fits))
narrow_fold_chars o limit current (c ∷ s) r e fits h k =
    elim (Bool-cases (ltb limit (octets current + len_utf8 c))) [
      | inl over ↦
          ap (λ t. is_narrow o (t ++ (crlf ++ r))) (fold_over limit current s c over)
          ∙ ap (is_narrow o)
              (append_assoc current (fold_break ++ fold_chars 74 (c ∷ []) s) (crlf ++ r))
          ∙ narrow_text o current (fold_break ++ (fold_chars 74 (c ∷ []) s ++ (crlf ++ r))) h
          ∙ narrow_break (o + octets current) (fold_chars 74 (c ∷ []) s ++ (crlf ++ r))
              (omega (arith, e, fits))
          ∙ narrow_fold_chars 1 74 (c ∷ []) s r (omega arith)
              (omega (arith, octets_one c, len_utf8-le c)) alone rest
      | inr under ↦
          ap (λ t. is_narrow o (t ++ (crlf ++ r))) (fold_under limit current s c under)
          ∙ narrow_fold_chars o limit (current ++ c ∷ []) s r e
              (ground (arith, octets-append current (c ∷ []), octets_one c, under))
              (has_no_lf-append current (c ∷ []) h alone) rest
    ]
  where
    rest : has_no_lf s ≡ true
    rest = ground (arith, k)

    alone : has_no_lf (c ∷ []) ≡ true
    alone = ground (arith, k)

narrow_fold_line :
    (line r : Text)
    → has_no_lf line ≡ true
    → is_narrow 0 (fold_line line ++ (crlf ++ r)) ≡ is_narrow 0 r
unfolding fold_line
narrow_fold_line line r h = elim (Bool-cases (leb (octets line) 75)) [
  | inl short ↦
      rw short
        (narrow_text 0 line (crlf ++ r) h ∙ narrow_crlf (0 + octets line) r (ground (arith, short)))
  | inr long ↦ rw long (narrow_fold_chars 0 75 [] line r (omega arith) (none_le 75) refl h)
]

-- Whole physical lines that have at most 75 octets each.
record IsLines (t : Text) : Type 0 where
  before : (r : Text) → is_narrow 0 (t ++ r) ≡ is_narrow 0 r

append-IsLines : (s t : Text) → IsLines s → IsLines t → IsLines (s ++ t)
append-IsLines s t h k = record {
  before = λ r. ap (is_narrow 0) (append_assoc s t r) ∙ h.before (t ++ r) ∙ k.before r;
}

push_ical_line-IsLines :
    (name value : Text) → has_no_lf name ≡ true → IsLines (push_ical_line name value)
unfolding push_ical_line
push_ical_line-IsLines name value h = record {
  before = λ r.
      ap (is_narrow 0) (append_assoc (fold_line (name ++ b':' ∷ escape_ical value)) crlf r)
      ∙ narrow_fold_line (name ++ b':' ∷ escape_ical value) r
          (has_no_lf-append name (b':' ∷ escape_ical value) h (escape_ical-has_no_lf value));
}

event_block-IsLines :
    (ui : Ui) (building_name slug : Text) (w : WeekAssignment)
    → IsLines (event_block ui building_name slug w)
unfolding event_block is_narrow
event_block-IsLines ui building_name slug w =
    append-IsLines (chars "BEGIN:VEVENT" ++ crlf) _ (record { before = λ r. refl })
      (append-IsLines _ _ (push_ical_line-IsLines (chars "UID") _ refl) (
        append-IsLines _ _ (push_ical_line-IsLines (chars "DTSTAMP") _ refl) (
          append-IsLines _ _ (push_ical_line-IsLines (chars "DTSTART;VALUE=DATE") _ refl) (
            append-IsLines _ _ (push_ical_line-IsLines (chars "DTEND;VALUE=DATE") _ refl) (
              append-IsLines _ _ (push_ical_line-IsLines (chars "SUMMARY") _ refl) (
                append-IsLines _ (chars "END:VEVENT" ++ crlf)
                  (push_ical_line-IsLines (chars "DESCRIPTION") _ refl)
                  (record { before = λ r. refl })))))))

schedule_blocks-IsLines :
    (ui : Ui) (building_name slug : Text) (weeks : List WeekAssignment)
    → IsLines (schedule_blocks ui building_name slug weeks)
unfolding schedule_blocks
schedule_blocks-IsLines ui building_name slug [] = record { before = λ r. refl }
schedule_blocks-IsLines ui building_name slug (w ∷ weeks) =
    append-IsLines _ _ (event_block-IsLines ui building_name slug w)
      (schedule_blocks-IsLines ui building_name slug weeks)

all_blocks-IsLines :
    (ui : Ui) (building_name slug : Text) (schedules : List (List WeekAssignment))
    → IsLines (all_blocks ui building_name slug schedules)
unfolding all_blocks
all_blocks-IsLines ui building_name slug [] = record { before = λ r. refl }
all_blocks-IsLines ui building_name slug (weeks ∷ schedules) =
    append-IsLines _ _ (schedule_blocks-IsLines ui building_name slug weeks)
      (all_blocks-IsLines ui building_name slug schedules)

document-IsLines :
    (ui : Ui) (building_name slug : Text) (schedules : List (List WeekAssignment))
    → IsLines (ical_document ui building_name slug schedules)
unfolding ical_document is_narrow
document-IsLines ui building_name slug schedules =
    append-IsLines (chars "BEGIN:VCALENDAR" ++ crlf) _ (record { before = λ r. refl })
      (append-IsLines _ _ (push_ical_line-IsLines (chars "VERSION") _ refl) (
        append-IsLines _ _ (push_ical_line-IsLines (chars "PRODID") _ refl) (
          append-IsLines _ _ (push_ical_line-IsLines (chars "CALSCALE") _ refl) (
            append-IsLines _ _ (push_ical_line-IsLines (chars "X-WR-CALNAME") _ refl) (
              append-IsLines _ (chars "END:VCALENDAR" ++ crlf)
                (all_blocks-IsLines ui building_name slug schedules)
                (record { before = λ r. refl }))))))

-- No physical line of an iCalendar document has more than 75 octets, its line break not counted,
-- whatever the name of the building, the slug, the schedules and the messages are.
pub ical_document-is_narrow :
    (ui : Ui) (building_name slug : Text) (schedules : List (List WeekAssignment))
    → is_narrow 0 (ical_document ui building_name slug schedules) ≡ true
unfolding is_narrow
ical_document-is_narrow ui building_name slug schedules =
    sym (ap (is_narrow 0) (append-nil (ical_document ui building_name slug schedules)))
    ∙ (document-IsLines ui building_name slug schedules).before []
