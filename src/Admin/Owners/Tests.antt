-- ===== src/Admin/Owners/Tests.antt =====
-- The handlers of ownerships on a small database.
use kehrkraft.Prelude.{
  ◌≡◌, refl, inl, inr, true, none, some, [], ◌∷◌, text_eq, In, ◌==◌, if◌then◌else◌,
}
use kehrkraft.Calendar.Gregorian.{gregorian, running, digits_from}
use kehrkraft.Models.Names.{chars, trim, trim_start, is_whitespace}
use kehrkraft.Strings.{strip_prefix}
use kehrkraft.Strings.Numbers.{parse_unsigned}
use kehrkraft.Scheduler.{text_lt}
use kehrkraft.Db.Period.{
  Period, chain_violations, is_middle, date_order, others, overlaps, max_end_before,
  min_start_after, find_row,
}
use kehrkraft.Db.Samples.{canonical, canonical-le, past, no_rows, one_row, sample}
use kehrkraft.Db.Store.{
  gen_token, after_at, lower, identity, person_violations, insert_person, update_person_row,
  ownership, row_not_found,
}
use kehrkraft.Db.People.{
  find_person, rename_person, set_display_name, resolve_existing, resolve_new, resolve_person,
  resolve_people, insert_link, insert_links, insert_period_with_people,
}
use kehrkraft.Db.Periods.{
  subject_known, building_covered, apartment_covered, exclusion, insert_period, create_period,
}
use kehrkraft.Db.Periods.Steps.{IsTiled}
use kehrkraft.Db.Reads.{
  get_apartment, has_people, latest_start, get_period_on, max_end, get_end_before,
}
use kehrkraft.Admin.Forms.{
  Pairs, normalize_end_date, new_people, new_period, form_value, change_at, collect_people,
  parse_people_fields, display_names_in, parse_owner_input,
}
use kehrkraft.Admin.Answers.{
  to_subject, not_found, internal_error, Services, previous_day, next_day,
}
use kehrkraft.Admin.Owners.{
  create_handled, building_owners_create, building_owners_delete, ownerships_create,
  ownerships_delete,
}
use kehrkraft.Admin.Owners.Tiled.{owners_handled-IsTiled}

-- The days that the tests meet.
abbrev services : Services
services = record {
  read_back_error = none;
  parse = gregorian.parse_date;
  format = λ d.
      if d == 739616
      then chars "2024-12-31"
      else if d == 739617
      then chars "2025-01-01"
      else chars "2020-01-01";
}

abbrev ben : Pairs
ben =
    (chars "person_0_name", chars "Ben")
    ∷ (chars "person_0_email", chars "ben@b.c")
    ∷ (chars "start_date", chars "2025-01-01")
    ∷ []

two_fields :
    (form_value ben (chars "start_date") ≡ chars "2025-01-01")
    × (form_value ben (chars "end_date") ≡ [])
unfolding form_value text_eq
two_fields = (refl, refl)

-- The read after the commit fails.
abbrev unread : Services
unread = record services { read_back_error = some row_not_found }

-- The new owner follows the one who left, and is stored also where the answer is an error.
follows :
    ((ownerships_create services canonical trim 1 11 ben (sample (past ∷ []))).0 ≡ to_subject)
    × ((ownerships_create unread canonical trim 1 11 ben (sample (past ∷ []))).0
        ≡ internal_error (chars "error.ownership_create"))
    × ((ownerships_create unread canonical trim 1 11 ben (sample (past ∷ []))).1
        ≡ (ownerships_create services canonical trim 1 11 ben (sample (past ∷ []))).1)
unfolding create_handled running text_eq text_lt trim trim_start is_whitespace strip_prefix
    parse_unsigned digits_from find_row date_order others overlaps max_end_before min_start_after
    chain_violations is_middle gen_token after_at lower identity person_violations insert_person
    update_person_row find_person rename_person set_display_name resolve_existing resolve_new
    resolve_person resolve_people insert_link insert_links insert_period_with_people subject_known
    building_covered apartment_covered exclusion insert_period create_period get_apartment
    has_people latest_start get_period_on max_end get_end_before normalize_end_date new_people
    new_period form_value change_at collect_people parse_people_fields display_names_in
    parse_owner_input previous_day next_day
follows = (refl, refl, refl)

known :
    (o : Period) → In o (past ∷ []) → subject_known ownership (sample (past ∷ [])) o.subject ≡ true
unfolding subject_known
known o (inl e) = rw e refl
known o (inr h) = absurd h

owners_handled-IsTiled_example :
    IsTiled (ownerships_create services canonical trim 1 11 ben (sample (past ∷ []))).1
    × IsTiled (building_owners_create services canonical trim 1 ben (sample (past ∷ []))).1
    × IsTiled (ownerships_delete 1 11 1 (sample (past ∷ []))).1
    × IsTiled (building_owners_delete 1 1 (sample (past ∷ []))).1
owners_handled-IsTiled_example =
    owners_handled-IsTiled services canonical canonical-le trim 1 11 1 ben (sample (past ∷ []))
      known (λ o i. absurd i) (one_row, no_rows)

-- There is no such building.
refused : (building_owners_create services canonical trim 2 ben (sample (past ∷ []))).0 ≡ not_found
unfolding create_handled subject_known
refused = refl
