-- ===== src/Backup/Run/Stages.antt =====
-- A run of the backup from its snapshot on (src/backup/mod.rs).
use kehrkraft.Prelude.{ℕ, ◌≡◌, refl, ◌∙◌, ap, Bool, true, false, ◌∷◌, some, Text, if◌then◌else◌}
use kehrkraft.Models.Names.{chars}
use kehrkraft.Backup.Config.{sqlx_error, store_error, encrypt_error, msg, Config}
use kehrkraft.Backup.Naming.{latest_alias_name}
use kehrkraft.Backup.Vault.{Vault, lookup, next, put, pure, fail}
use kehrkraft.Backup.Vault.Lookup.{lookup-same}
use kehrkraft.Backup.Vault.Ends.{Ends, done-Ends, failed-Ends, bind-Ends, weaken-Ends, await-Ends}
use kehrkraft.Backup.Run.{
  Libraries, Draw, RunOutcome, stored, skipped, slot_at, name_at, write_canary, checked_path,
  encrypted, back_up,
}
use kehrkraft.Backup.Run.Ready.{
  written, HasWritten, Ready, AtEnd, Ready-AtEnd, Still, Ready-await, IsSnapshot, Snapshot,
  snapshot-Ends,
}
use kehrkraft.Backup.Run.Linked.{IsBackup, IsLinked, name-IsLinked, alias-IsLinked, lookup-alias}

module _ {Bytes : Type 0} (l : Libraries Bytes) (config : Config) (draw : Draw) (now : ℕ) where
  abbrev pub Encrypted : Bytes → Vault Bytes → Type 0
  Encrypted bytes w = (Ready l config draw now) w × IsBackup l config now bytes

  snapshot-IsBackup :
      (bytes : Bytes)
      → (IsSnapshot l config draw now) bytes
      → IsBackup l config now (l.encrypt draw.salt bytes config.passphrase)
  snapshot-IsBackup bytes (d, is, e) = record {
    salt = draw.salt;
    database = d;
    canary = (written l config draw now);
    is_canary = is;
    at_instant = refl;
    is_encrypted = ap (λ b. l.encrypt draw.salt b config.passphrase) e;
  }

  pub encrypted-Ends :
      (bytes : Bytes) (v : Vault Bytes)
      → (Snapshot l config draw now) bytes v
      → Ends (Still l config draw now) Encrypted (encrypted l draw.salt config.passphrase bytes v)
  unfolding encrypted
  encrypted-Ends bytes v (ready, is) =
      bind-Ends (Still l config draw now) (λ _. (Ready l config draw now)) Encrypted _ _
        ((Ready-await l config draw now) (λ _. (Ready l config draw now)) _ (pure tt) v ready
          (λ es. ready)
          (λ es.
            done-Ends (Still l config draw now) (λ _. (Ready l config draw now)) tt (next es v)
              ready))
        λ _ w h.
          (Ready-await l config draw now) Encrypted encrypt_error _ w h (λ es. h)
            (λ es.
              done-Ends (Still l config draw now) Encrypted _ (next es w)
                (h, snapshot-IsBackup bytes is))

  checked_path-Ends :
      (path : Text) (v : Vault Bytes)
      → (Ready l config draw now) v
      → Ends (Still l config draw now) (λ _. (Ready l config draw now)) (checked_path l path v)
  checked_path-Ends path v ready = by_utf8 l.is_utf8
    where
      by_utf8 :
          (b : Bool)
          → Ends
              (Still l config draw now)
              (λ _. (Ready l config draw now))
              ((if b then pure path else fail (msg (chars "temporary path is not valid UTF-8"))) v)
      by_utf8 true =
          done-Ends (Still l config draw now) (λ _. (Ready l config draw now)) path v ready
      by_utf8 false =
          failed-Ends (Still l config draw now) (λ _. (Ready l config draw now)) _ v ready

  -- The object is stored, and then its alias.
  abbrev pub Stored : Vault Bytes → Type 0
  Stored w =
      (Ready l config draw now) w
      × ((bytes : Bytes) × (lookup (name_at l config.prefix now) w.objects ≡ some bytes)
          × IsBackup l config now bytes)

  abbrev pub Linked : Vault Bytes → Type 0
  Linked w =
      Stored w
      × (lookup (latest_alias_name config.prefix (slot_at l now)) w.objects
          ≡ some (l.as_bytes (name_at l config.prefix now)))

  name-Ends :
      (bytes : Bytes) (v : Vault Bytes)
      → Encrypted bytes v
      → Ends (Still l config draw now) (λ _. Stored) (put (name_at l config.prefix now) bytes v)
  unfolding put
  name-Ends bytes v ((links, has), is) =
      (Ready-await l config draw now) (λ _. Stored) store_error _ v (links, has) (λ es. after)
        (λ es.
          done-Ends (Still l config draw now) (λ _. Stored) tt _
            (after, (bytes, lookup-same (name_at l config.prefix now) bytes v.objects, is)))
    where
      after :
          IsLinked l config ((name_at l config.prefix now, bytes) ∷ v.objects)
          × (HasWritten l config draw now) v.database
      after = (name-IsLinked l config v.objects now bytes is links, has)

  alias-Ends :
      (v : Vault Bytes)
      → Stored v
      → Ends
          (Still l config draw now)
          (λ _. Linked)
          (put
            (latest_alias_name config.prefix (slot_at l now))
            (l.as_bytes (name_at l config.prefix now))
            v)
  unfolding put
  alias-Ends v ((links, has), (bytes, e, is)) =
      (Ready-await l config draw now) (λ _. Linked) store_error _ v (links, has) (λ es. after)
        (λ es.
          done-Ends (Still l config draw now) (λ _. Linked) tt _
            (
              (after, (bytes, lookup-alias l config v.objects now (slot_at l now) payload ∙ e, is)),
              lookup-same key payload v.objects,
            ))
    where
      key : Text
      key = latest_alias_name config.prefix (slot_at l now)

      payload : Bytes
      payload = l.as_bytes (name_at l config.prefix now)

      after :
          IsLinked l config ((key, payload) ∷ v.objects) × (HasWritten l config draw now) v.database
      after = (
        alias-IsLinked l config v.objects (slot_at l now) (name_at l config.prefix now)
            (record { instant = now; bytes = bytes; is_name = refl; is_object = e; is_backup = is })
            links,
        has,
      )

  -- How a run ends: its backup is stored and linked, or the slot was covered before.
  abbrev pub Outcome : RunOutcome → Vault Bytes → Type 0
  Outcome (stored name) w = (name ≡ name_at l config.prefix now) × Linked w
  Outcome (skipped slot) w = IsLinked l config w.objects

  write_canary-Ends :
      (v : Vault Bytes)
      → IsLinked l config v.objects
      → Ends
          (AtEnd l config draw now)
          (λ _. (Ready l config draw now))
          (write_canary l draw.job_id now v)
  unfolding write_canary
  write_canary-Ends v links =
      await-Ends (AtEnd l config draw now) (λ _. (Ready l config draw now)) sqlx_error _ v
        (λ es.
          done-Ends (AtEnd l config draw now) (λ _. (Ready l config draw now)) tt _ (links, refl))
        (λ es. (λ e. (links, tt), (links, tt))) (λ es. (λ e. (links, tt), (links, tt)))

  pub back_up-Ends :
      (v : Vault Bytes)
      → IsLinked l config v.objects
      → Ends (AtEnd l config draw now) Outcome (back_up l config draw now v)
  unfolding back_up
  back_up-Ends v links =
      bind-Ends (AtEnd l config draw now) (λ _. (Ready l config draw now)) Outcome _ _
        (write_canary-Ends v links)
        λ _ a ha.
          weaken-Ends (Still l config draw now) (AtEnd l config draw now) Outcome _
            (Ready-AtEnd l config draw now)
            (bind-Ends (Still l config draw now) (λ _. (Ready l config draw now)) Outcome _ _
              (checked_path-Ends _ a ha)
              λ path b hb.
                bind-Ends (Still l config draw now) (Snapshot l config draw now) Outcome _ _
                  ((snapshot-Ends l config draw now) path b hb)
                  λ bytes c hc.
                    bind-Ends (Still l config draw now) Encrypted Outcome _ _
                      (encrypted-Ends bytes c hc)
                      λ cipher d hd.
                        bind-Ends (Still l config draw now) (λ _. Stored) Outcome _ _
                          (name-Ends cipher d hd)
                          λ _ e he.
                            bind-Ends (Still l config draw now) (λ _. Linked) Outcome _ _
                              (alias-Ends e he)
                              λ _ f hf.
                                done-Ends (Still l config draw now) Outcome
                                  (stored (name_at l config.prefix now)) f (refl, hf))
