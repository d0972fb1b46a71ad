-- ===== src/Admin/Owners/Tiled.antt =====
-- The timelines after the handlers of ownerships (src/web/admin.rs).
use kehrkraft.Prelude.{ℕ, ◌≡◌, ◌≤◌, Bool, true, false, Option, none, some, Text, In}
use kehrkraft.Db.Period.{Period, far}
use kehrkraft.Db.Store.{
  PeriodPeopleTable, building_owner, periods, Store, Result, ok, err, rejected, constraint,
  row_not_found, panicked, ownership,
}
use kehrkraft.Db.Periods.{subject_known}
use kehrkraft.Db.Periods.Hoare.{Ensures}
use kehrkraft.Db.Periods.Steps.{IsTiled}
use kehrkraft.Db.Periods.Chains.{
  create_period-IsTiled, create_closing_previous-IsTiled, delete_period-IsTiled,
}
use kehrkraft.Db.Periods.{create_period, create_closing_previous, delete_period}
use kehrkraft.Db.Reads.{get_apartment, get_period}
use kehrkraft.Admin.Forms.{OwnerInput, Pairs}
use kehrkraft.Admin.Answers.{Services, owned_by, period_in}
use kehrkraft.Admin.Owners.{
  period_created, create_handled, delete_handled, ownerships_create, building_owners_create,
  building_owners_delete, period_deleted, delete_in, ownerships_delete,
}
use kehrkraft.Admin.Owners.Branches.{create_handled_each}

-- The database after an owner is created, from what the transaction ensures.
created-IsTiled :
    (services : Services) (canonical : Text → Option ℕ) (sql_trim : Text → Text)
    (table : PeriodPeopleTable) (form : OwnerInput) (s : Store) (r : Result (ℕ × Store))
    → IsTiled s
    → Ensures (λ _ s'. IsTiled s') r
    → IsTiled (period_created services canonical sql_trim table form s r).1
unfolding Ensures
created-IsTiled services canonical sql_trim table form s (ok (id, s')) tiled h = h
created-IsTiled services canonical sql_trim table form s (err (rejected codes)) tiled h = tiled
created-IsTiled services canonical sql_trim table form s (err constraint) tiled h = tiled
created-IsTiled services canonical sql_trim table form s (err row_not_found) tiled h = tiled
created-IsTiled services canonical sql_trim table form s (err panicked) tiled h = tiled

deleted-IsTiled :
    (table : PeriodPeopleTable) (s : Store) (r : Result (Bool × Store))
    → IsTiled s
    → Ensures (λ _ s'. IsTiled s') r
    → IsTiled (period_deleted table s r).1
unfolding Ensures
deleted-IsTiled table s (ok (gone, s')) tiled h = h
deleted-IsTiled table s (err (rejected codes)) tiled h = tiled
deleted-IsTiled table s (err constraint) tiled h = tiled
deleted-IsTiled table s (err row_not_found) tiled h = tiled
deleted-IsTiled table s (err panicked) tiled h = tiled

-- The subject of each period of the table is known.
abbrev Known : PeriodPeopleTable → Store → Type 0
Known table s = (o : Period) → In o (periods table s) → subject_known table s o.subject ≡ true

delete_in-IsTiled :
    (table : PeriodPeopleTable) (s : Store) (p : Option Period)
    → Known table s
    → IsTiled s
    → IsTiled (delete_in table s p).1
delete_in-IsTiled table s none known tiled = tiled
delete_in-IsTiled table s (some p) known tiled =
    deleted-IsTiled table s (delete_period table p.id s) tiled
      (delete_period-IsTiled table p.id s known tiled)

delete_handled-IsTiled :
    (table : PeriodPeopleTable) (present : Bool) (subject id : ℕ) (s : Store)
    → Known table s
    → IsTiled s
    → IsTiled (delete_handled table present subject id s).1
unfolding delete_handled
delete_handled-IsTiled table true subject id s known tiled =
    delete_in-IsTiled table s (period_in subject (get_period table s id)) known tiled
delete_handled-IsTiled table false subject id s known tiled = tiled

create_handled-IsTiled :
    (services : Services) (canonical : Text → Option ℕ)
    (canonical_le : (t : Text) (d : ℕ) → canonical t ≡ some d → d ≤ far) (sql_trim : Text → Text)
    (table : PeriodPeopleTable) (present : Bool) (subject : ℕ) (pairs : Pairs) (s : Store)
    → IsTiled s
    → IsTiled (create_handled services canonical sql_trim table present subject pairs s).1
create_handled-IsTiled services canonical canonical_le sql_trim table present subject pairs s
      tiled =
    create_handled_each services canonical sql_trim table s (λ r. IsTiled r.1) (λ a. tiled)
      (λ form a period.
        created-IsTiled services canonical sql_trim table form s
          (create_period canonical sql_trim table a period s) tiled
          (create_period-IsTiled canonical canonical_le sql_trim table a period s tiled))
      (λ form a previous period.
        created-IsTiled services canonical sql_trim table form s
          (create_closing_previous canonical sql_trim table a previous period s) tiled
          (create_closing_previous-IsTiled canonical canonical_le sql_trim table a previous period s
            tiled))
      present subject pairs

-- If ownerships and building owners tile the timelines, they do so after any request to create an
-- ownership or a building owner and, where the subject of each period is known, to delete one.
pub owners_handled-IsTiled :
    (services : Services) (canonical : Text → Option ℕ)
    (canonical_le : (t : Text) (d : ℕ) → canonical t ≡ some d → d ≤ far) (sql_trim : Text → Text)
    (building apartment id : ℕ) (pairs : Pairs) (s : Store)
    → ((o : Period) → In o s.ownerships → subject_known ownership s o.subject ≡ true)
    → ((o : Period) → In o s.building_owners → subject_known building_owner s o.subject ≡ true)
    → IsTiled s
    → IsTiled (ownerships_create services canonical sql_trim building apartment pairs s).1
      × IsTiled (building_owners_create services canonical sql_trim building pairs s).1
      × IsTiled (ownerships_delete building apartment id s).1
      × IsTiled (building_owners_delete building id s).1
owners_handled-IsTiled services canonical canonical_le sql_trim building apartment id pairs s known
      known' tiled =
    (
      create_handled-IsTiled services canonical canonical_le sql_trim ownership
          (owned_by building (get_apartment s apartment)) apartment pairs s tiled,
      create_handled-IsTiled services canonical canonical_le sql_trim building_owner
          (subject_known building_owner s building) building pairs s tiled,
      delete_handled-IsTiled ownership (owned_by building (get_apartment s apartment)) apartment id
          s known tiled,
      delete_handled-IsTiled building_owner (subject_known building_owner s building) building id s
          known' tiled,
    )
