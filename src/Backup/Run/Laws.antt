-- ===== src/Backup/Run/Laws.antt =====
-- Runs of the backup, whatever becomes of the calls that they make (src/backup/mod.rs).
use kehrkraft.Prelude.{
  ℕ, ◌≡◌, ◌≢◌, refl, sym, ◌∙◌, ap, Bool, true, false, List, [], some, Text, if◌then◌else◌,
  Bool-cases, inl, inr, text_eq_refl, arith, ◌==◌, ◌∷◌, ◌++◌,
}
use kehrkraft.Models.Names.{chars}
use kehrkraft.Feed.{two_digits}
use kehrkraft.Backup.Naming.{hourly, slot_of, part_of, slot_object_part, object_name}
use kehrkraft.Backup.Config.{sqlx_error, Attempt, done, failed, dropped, panicked, Config}
use kehrkraft.Backup.Vault.{Event, Vault, Run, next, await, pure, gets}
use kehrkraft.Backup.Vault.Ends.{Ends, done-Ends, bind-Ends, await-Ends}
use kehrkraft.Backup.Run.{
  Libraries, Draw, RunOutcome, stored, skipped, slot_at, name_at, instant_of, canary_backed_up_at,
  is_covered, back_up, run_once_inner, timed_out, run_once,
}
use kehrkraft.Backup.Run.Linked.{IsLinked}
use kehrkraft.Backup.Run.Ready.{AtEnd}
use kehrkraft.Backup.Run.Stages.{Linked, Outcome, back_up-Ends}

module _ {Bytes : Type 0} (l : Libraries Bytes) (config : Config) (draw : Draw) (now : ℕ) where
  abbrev Links : Vault Bytes → Type 0
  Links v = IsLinked l config v.objects

  -- A call on the database before the canary is written.
  sqlx-Ends :
      {A : Type 0} (m : Run Bytes A) (v : Vault Bytes)
      → ((es : List Event) → Ends (AtEnd l config draw now) (λ _. Links) (m (next es v)))
      → ((es : List Event) → Links (m (next es v)).1)
      → Links v
      → Ends (AtEnd l config draw now) (λ _. Links) (await sqlx_error m v)
  sqlx-Ends m v ends keeps links =
      await-Ends (AtEnd l config draw now) (λ _. Links) sqlx_error m v ends
        (λ es. (λ e. (links, tt), (links, tt))) (λ es. (λ e. (keeps es, tt), (keeps es, tt)))

  return-Ends :
      {A : Type 0} (a : A) (v : Vault Bytes)
      → Links v
      → Ends (AtEnd l config draw now) (λ _. Links) (await sqlx_error (pure a) v)
  return-Ends a v links =
      sqlx-Ends (pure a) v
        (λ es. done-Ends (AtEnd l config draw now) (λ _. Links) a (next es v) links) (λ es. links)
        links

  canary-Ends :
      (v : Vault Bytes)
      → Links v
      → Ends (AtEnd l config draw now) (λ _. Links) (canary_backed_up_at l v)
  unfolding canary_backed_up_at
  canary-Ends v links =
      sqlx-Ends (gets (λ v. instant_of l v.database.canary)) v
        (λ es.
          done-Ends (AtEnd l config draw now) (λ _. Links) (instant_of l v.database.canary)
            (next es v) links)
        (λ es. links) links

  decide-Ends :
      (covered : Bool) (v : Vault Bytes)
      → Links v
      → Ends
          (AtEnd l config draw now)
          (Outcome l config draw now)
          ((if covered then pure (skipped (slot_at l now)) else back_up l config draw now) v)
  decide-Ends true v links =
      done-Ends (AtEnd l config draw now) (Outcome l config draw now) (skipped (slot_at l now)) v
        links
  decide-Ends false v links = back_up-Ends l config draw now v links

  pub run_once_inner-Ends :
      (v : Vault Bytes)
      → Links v
      → Ends
          (AtEnd l config draw now)
          (Outcome l config draw now)
          (run_once_inner l config draw now v)
  unfolding run_once_inner
  run_once_inner-Ends v links =
      bind-Ends (AtEnd l config draw now) (λ _. Links) (Outcome l config draw now) _ _
        (return-Ends tt v links)
        λ _ a ha.
          bind-Ends (AtEnd l config draw now) (λ _. Links) (Outcome l config draw now) _ _
            (return-Ends tt a ha)
            λ _ b hb.
              bind-Ends (AtEnd l config draw now) (λ _. Links) (Outcome l config draw now) _ _
                (return-Ends tt b hb)
                λ _ c hc.
                  bind-Ends (AtEnd l config draw now) (λ _. Links) (Outcome l config draw now) _ _
                    (canary-Ends c hc)
                    λ previous d hd. decide-Ends (is_covered l config.prefix now previous) d hd

  Outcome-Links : (r : RunOutcome) (w : Vault Bytes) → Outcome l config draw now r w → Links w
  Outcome-Links (stored name) w h = h.1.0.0.0
  Outcome-Links (skipped slot) w h = h

  timed_out-Links :
      (r : Attempt RunOutcome × Vault Bytes)
      → Ends (AtEnd l config draw now) (Outcome l config draw now) r
      → Links (timed_out l r).1
  unfolding Ends
  timed_out-Links (done r, w) h = Outcome-Links r w h
  timed_out-Links (failed e, w) h = h.0
  timed_out-Links (dropped, w) h = h.0
  timed_out-Links (panicked, w) h = absurd h

  -- Whatever becomes of its calls, a run leaves aliases that name stored backups.
  pub run_once-IsLinked :
      (v : Vault Bytes)
      → IsLinked l config v.objects
      → IsLinked l config (run_once l config draw now v).1.objects
  unfolding run_once
  run_once-IsLinked v links =
      timed_out-Links (run_once_inner l config draw now v) (run_once_inner-Ends v links)

  -- What a run returns, from what it ends with.
  stored-Linked :
      (r : Attempt RunOutcome × Vault Bytes) (name : Text)
      → Ends (AtEnd l config draw now) (Outcome l config draw now) r
      → (timed_out l r).0 ≡ done (stored name)
      → (name ≡ name_at l config.prefix now) × Linked l config draw now (timed_out l r).1
  unfolding Ends
  stored-Linked (done (stored n), u) name h e = let same = h.0 in (cc, h.1)
  stored-Linked (done (skipped slot), u) name h e = absurd (ground (arith, e))
  stored-Linked (failed c, u) name h e = absurd (ground (arith, e))
  stored-Linked (dropped, u) name h e = absurd (ground (arith, e))
  stored-Linked (panicked, u) name h e = absurd h

  -- A run that stores a backup leaves it under the name of the instant, and the alias of the slot
  -- names it.
  pub run_once-stored :
      (v : Vault Bytes) (name : Text)
      → IsLinked l config v.objects
      → (run_once l config draw now v).0 ≡ done (stored name)
      → (name ≡ name_at l config.prefix now)
        × Linked l config draw now (run_once l config draw now v).1
  unfolding run_once
  run_once-stored v name links e =
      stored-Linked (run_once_inner l config draw now v) name (run_once_inner-Ends v links) e

-- Runs whose slot the canary covers.
module _ {Bytes : Type 0} (l : Libraries Bytes) (config : Config) where
  -- With a canary whose object has the same name, nothing is done.
  covered-skipped :
      (draw : Draw) (now previous : ℕ) (v : Vault Bytes)
      → instant_of l v.database.canary ≡ some previous
      → name_at l config.prefix previous ≡ name_at l config.prefix now
      → run_once l config draw now (next [] v) ≡ (done (skipped (slot_at l now)), next [] v)
  unfolding run_once run_once_inner await canary_backed_up_at
  covered-skipped draw now previous v canary same =
      rw (canary, same, text_eq_refl (name_at l config.prefix now)) refl

  slot-hourly : (t : ℕ) → (l.utc t).hour ≢ 4 → slot_at l t ≡ hourly
  unfolding slot_at slot_of
  slot-hourly t other = elim (Bool-cases ((l.utc t).hour == 4)) [
    | inl e ↦ absurd (other (ground (arith, e)))
    | inr e ↦ rw e refl
  ]

  name-hourly :
      (t : ℕ)
      → (l.utc t).hour ≢ 4
      → name_at l config.prefix t
        ≡ config.prefix
          ++ (b'.' ∷ ((chars "hourly-" ++ two_digits (l.utc t).hour) ++ chars ".db.age"))
  unfolding name_at object_name slot_object_part slot_at
  name-hourly t other =
      ap
        (λ s.
          config.prefix
          ++ (b'.' ∷ (part_of l.num_days_from_sunday l.dec31 s (l.utc t) ++ chars ".db.age")))
        (slot-hourly t other)

  -- A run is skipped where the canary is of the same hour, though not four, of any day.
  pub same_hour-skipped :
      (draw : Draw) (now previous : ℕ) (v : Vault Bytes)
      → instant_of l v.database.canary ≡ some previous
      → (l.utc previous).hour ≡ (l.utc now).hour
      → (l.utc now).hour ≢ 4
      → run_once l config draw now (next [] v) ≡ (done (skipped hourly), next [] v)
  same_hour-skipped draw now previous v canary hours other =
      covered-skipped draw now previous v canary same
      ∙ ap (λ s. (done (skipped s), next [] v)) (slot-hourly now other)
    where
      other' : (l.utc previous).hour ≢ 4
      other' e = other (sym hours ∙ e)

      same : name_at l config.prefix previous ≡ name_at l config.prefix now
      same =
          name-hourly previous other'
          ∙ ap
              (λ h.
                config.prefix ++ (b'.' ∷ ((chars "hourly-" ++ two_digits h) ++ chars ".db.age")))
              hours
          ∙ sym (name-hourly now other)
