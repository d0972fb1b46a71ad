-- ===== src/Db/Tests.antt =====
-- The operations on a small store, and the theorems on the tables of periods at concrete inputs.
use kehrkraft.Prelude.{
  ℕ, ◌≤◌, ◌≡◌, refl, sym, subst, ap, inl, inr, true, List, [], ◌∷◌, none, some, arith, Text,
  text_eq, In,
}
use kehrkraft.Calendar.Gregorian.{running}
use kehrkraft.Models.Names.{chars, trim}
use kehrkraft.Db.Period.{
  Period, chain_violations, is_middle, replace_row, remove_row, date_order, others, overlaps,
  max_end_before, min_start_after, find_row,
}
use kehrkraft.Db.Samples.{
  canonical, canonical-le, row, past, current, no_rows, one_row, sample, since_2025,
}
use kehrkraft.Db.Period.Tiling.{IsChain}
use kehrkraft.Db.Period.Moves.{insert-IsChain, replace-IsChain}
use kehrkraft.Db.Period.Removal.{remove-IsChain, moved_period_leaves_gap, three, moved}
use kehrkraft.Db.Store.{
  Store, Result, ok, err, ownership, gen_token, after_at, lower, identity, person_violations,
  insert_person, update_person_row, has_role, cleanup, cleanup_all,
}
use kehrkraft.Db.People.{
  NewPeriod, find_person, rename_person, set_display_name, resolve_existing, resolve_new,
  resolve_person, resolve_people, insert_link, insert_links, upsert_links, delete_link,
  delete_links, insert_period_with_people, replace_period_people,
}
use kehrkraft.Db.Periods.{
  subject_known, building_covered, apartment_covered, building_has_apartment_owners,
  has_uncovered_apartment, exclusion, is_needed, guards, insert_period, update_dates, close_period,
  create_period, create_closing_previous, update_period, delete_period,
}
use kehrkraft.Db.Periods.Hoare.{Ensures}
use kehrkraft.Db.Periods.Steps.{IsTiled}
use kehrkraft.Db.Periods.Chains.{
  create_period-IsTiled, create_closing_previous-IsTiled, delete_period-IsTiled,
}
use kehrkraft.Db.Periods.Update.{IsNear, update_period-IsTiled}
use kehrkraft.Db.Buildings.{create_building_impl}
use kehrkraft.Db.Buildings.Tiled.{create_building_impl-IsTiled}
use kehrkraft.Db.Apartments.{create_apartment}
use kehrkraft.Db.Apartments.Coverage.{create_apartment-IsTiled}

abbrev storing : Unit {0}
unfolding running text_eq trim find_row date_order others overlaps max_end_before min_start_after
    chain_violations is_middle replace_row remove_row gen_token after_at lower identity
    person_violations insert_person update_person_row has_role cleanup cleanup_all find_person
    rename_person set_display_name resolve_existing resolve_new resolve_person resolve_people
    insert_link insert_links upsert_links delete_link delete_links insert_period_with_people
    replace_period_people subject_known building_covered apartment_covered
    building_has_apartment_owners has_uncovered_apartment exclusion is_needed guards insert_period
    update_dates close_period create_period create_closing_previous update_period delete_period
storing = tt

two_rows-IsChain : IsChain (current ∷ past ∷ [])
unfolding storing
two_rows-IsChain =
    insert-IsChain (past ∷ []) one_row current (omega arith, omega arith) refl
      (λ o. elim [ inl e ↦ λ same. ground (arith, e, same) | inr i ↦ absurd i ])

replace-IsChain_example : IsChain (replace_row (row 2 739617 (some 750000)) (current ∷ past ∷ []))
unfolding storing
replace-IsChain_example =
    replace-IsChain (current ∷ past ∷ []) two_rows-IsChain (row 2 739617 (some 750000))
      (omega arith, omega arith) refl current (inl refl) refl (refl, omega arith, omega arith)

remove-IsChain_example : IsChain (remove_row 2 (current ∷ past ∷ []))
unfolding storing
remove-IsChain_example =
    remove-IsChain (current ∷ past ∷ []) two_rows-IsChain current (inl refl) refl

moved_period_leaves_gap_example :
    IsChain (three 11 1 2 3 10 19 29 39 49)
    × (chain_violations (moved 11 1 2 3 10 19 29 39 49) (three 11 1 2 3 10 19 29 39 49) ≡ [])
    × (¬ IsChain (replace_row (moved 11 1 2 3 10 19 29 39 49) (three 11 1 2 3 10 19 29 39 49)))
moved_period_leaves_gap_example =
    moved_period_leaves_gap 11 1 2 3 10 19 29 39 49 (omega arith, omega arith, omega arith)
      (omega arith, omega arith, omega arith, omega arith, omega arith)

abbrev ownerships_of : {A : Type 0} → Result (A × Store) → List Period
ownerships_of (ok (a, s)) = s.ownerships
ownerships_of (err e) = []

create_period_stores :
    ownerships_of (create_period canonical trim ownership 11 since_2025 (sample (past ∷ [])))
    ≡ row 100 739617 none ∷ past ∷ []
unfolding storing
create_period_stores = refl

create_closing_previous_stores :
    ownerships_of (
      create_closing_previous canonical trim ownership 11
        (record { id = 1; end_date = chars "2024-12-31" })
        since_2025
        (sample (row 1 737790 none ∷ [])))
    ≡ row 100 739617 none ∷ past ∷ []
unfolding storing
create_closing_previous_stores = refl

-- The only period of the apartment cannot be deleted.
delete_period_guards : ownerships_of (delete_period ownership 1 (sample (past ∷ []))) ≡ []
unfolding storing
delete_period_guards = refl

create_period-IsTiled_example :
    Ensures
      (λ _ s. IsTiled s)
      (create_period canonical trim ownership 11 since_2025 (sample (past ∷ [])))
create_period-IsTiled_example =
    create_period-IsTiled canonical canonical-le trim ownership 11 since_2025 (sample (past ∷ []))
      (one_row, no_rows)

create_closing_previous-IsTiled_example :
    Ensures
      (λ _ s. IsTiled s)
      (create_closing_previous canonical trim ownership 11
        (record { id = 1; end_date = chars "2024-12-31" })
        since_2025
        (sample (past ∷ [])))
create_closing_previous-IsTiled_example =
    create_closing_previous-IsTiled canonical canonical-le trim ownership 11
      (record { id = 1; end_date = chars "2024-12-31" }) since_2025 (sample (past ∷ []))
      (one_row, no_rows)

known :
    (o : Period)
    → In o (current ∷ past ∷ [])
    → subject_known ownership (sample (current ∷ past ∷ [])) o.subject ≡ true
unfolding subject_known
known o (inl e) = ground (arith, ap (λ (p : Period). p.subject) e)
known o (inr (inl e)) = ground (arith, ap (λ (p : Period). p.subject) e)
known o (inr (inr i)) = absurd i

delete_period-IsTiled_example :
    Ensures (λ _ s. IsTiled s) (delete_period ownership 1 (sample (current ∷ past ∷ [])))
delete_period-IsTiled_example =
    delete_period-IsTiled ownership 1 (sample (current ∷ past ∷ [])) known
      (two_rows-IsChain, no_rows)

create_apartment-IsTiled_example :
    Ensures
      (λ _ s. IsTiled s)
      (create_apartment trim canonical 1 (chars "W2") [] since_2025 (sample (past ∷ [])))
create_apartment-IsTiled_example =
    create_apartment-IsTiled trim canonical canonical-le 1 (chars "W2") [] since_2025
      (sample (past ∷ [])) (one_row, no_rows)

create_building_impl-IsTiled_example :
    Ensures
      (λ _ s. IsTiled s)
      (create_building_impl canonical trim
        (chars "Haus 2")
        []
        []
        []
        (some since_2025)
        (sample (past ∷ [])))
create_building_impl-IsTiled_example =
    create_building_impl-IsTiled canonical canonical-le trim (chars "Haus 2") [] [] []
      (some since_2025) (sample (past ∷ [])) (one_row, no_rows)

-- The first owner's period, until the end of 2023 instead of 2024.
abbrev until_2023 : NewPeriod
until_2023 = record {
  people = record { name = chars "Anna"; email = chars "anna@b.c"; display_name = none } ∷ [];
  start_date = chars "2020-01-01";
  end_date = some (chars "2023-12-31");
}

near : IsNear canonical past until_2023
unfolding storing
near = record {
  starts = λ a is. ground (arith, is);
  ends = λ e b is_date is. near_end e b is_date is;
}
  where
    near_end :
        (e : Text) (b : ℕ) → some (chars "2023-12-31") ≡ some e → canonical e ≡ some b → 737790 ≤ b
    near_end e b is_date is =
        let date : chars "2023-12-31" ≡ e = grind (arith, is_date) in
        let day : canonical (chars "2023-12-31") ≡ some b =
          subst (λ t. canonical t ≡ some b) (sym date) is in
        ground (arith, day)

update_period_stores :
    ownerships_of (update_period canonical trim ownership 1 until_2023 (sample (past ∷ [])))
    ≡ row 1 737790 (some 739250) ∷ []
unfolding storing
update_period_stores = refl

update_period-IsTiled_example :
    Ensures
      (λ _ s. IsTiled s)
      (update_period canonical trim ownership 1 until_2023 (sample (past ∷ [])))
unfolding find_row
update_period-IsTiled_example =
    update_period-IsTiled canonical canonical-le trim ownership 1 until_2023 (sample (past ∷ []))
      past (one_row, no_rows) refl near
