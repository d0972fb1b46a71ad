-- ===== src/Backup/Run/Ready.antt =====
-- A run of the backup up to its snapshot (src/backup/mod.rs).
use kehrkraft.Prelude.{
  some_injective, ℕ, ◌≡◌, refl, sym, ◌∙◌, List, Option, none, some, Text, subst,
}
use kehrkraft.Backup.Config.{
  BackupError, sqlx_error, store_error, encrypt_error, io_error, msg, Config,
}
use kehrkraft.Backup.Vault.{
  Canary, Database, Event, Vault, Run, lookup, next, await, pure, fail, ignore, found, read_file,
  remove_file,
}
use kehrkraft.Backup.Vault.Lookup.{lookup-same}
use kehrkraft.Backup.Vault.Ends.{
  Ends, done-Ends, failed-Ends, bind-Ends, ignored-Ends, handled-Ends, await-Ends,
}
use kehrkraft.Backup.Run.{Libraries, Draw, clean_up, vacuum_into, snapshot}
use kehrkraft.Backup.Run.Linked.{IsLinked}

module _ {Bytes : Type 0} (l : Libraries Bytes) (config : Config) (draw : Draw) (now : ℕ) where
  -- The canary that the run writes.
  abbrev pub written : Canary
  written = record { job_id = draw.job_id; backed_up_at = l.to_rfc3339 now }

  abbrev pub HasWritten : Database → Type 0
  HasWritten database = database.canary ≡ some written

  -- The links hold, and the canary is written.
  abbrev pub Ready : Vault Bytes → Type 0
  Ready v = IsLinked l config v.objects × HasWritten v.database

  -- An error of the bucket means that the canary is written.
  abbrev pub Covered : Option BackupError → Vault Bytes → Type 0
  Covered (some (store_error e)) v = HasWritten v.database
  Covered _ v = Unit

  abbrev pub AtEnd : Option BackupError → Vault Bytes → Type 0
  AtEnd o v = IsLinked l config v.objects × Covered o v

  pub Ready-AtEnd : (o : Option BackupError) (v : Vault Bytes) → Ready v → AtEnd o v
  Ready-AtEnd none v h = (h.0, tt)
  Ready-AtEnd (some (store_error e)) v h = h
  Ready-AtEnd (some (BackupError.config m)) v h = (h.0, tt)
  Ready-AtEnd (some (msg m)) v h = (h.0, tt)
  Ready-AtEnd (some (sqlx_error e)) v h = (h.0, tt)
  Ready-AtEnd (some (encrypt_error e)) v h = (h.0, tt)
  Ready-AtEnd (some (BackupError.decrypt_error e)) v h = (h.0, tt)
  Ready-AtEnd (some (io_error e)) v h = (h.0, tt)

  -- After the canary is written, the run stays ready however it ends.
  abbrev pub Still : Option BackupError → Vault Bytes → Type 0
  Still _ v = Ready v

  -- An awaited step of a run that is ready, whose effect leaves it ready.
  pub Ready-await :
      {A : Type 0} (Q : A → Vault Bytes → Type 0) (wrap : ℕ → BackupError) (m : Run Bytes A)
      (v : Vault Bytes)
      → Ready v
      → ((es : List Event) → Ready (m (next es v)).1)
      → ((es : List Event) → Ends Still Q (m (next es v)))
      → Ends Still Q (await wrap m v)
  Ready-await Q wrap m v ready keeps ends =
      await-Ends Still Q wrap m v ends (λ es. (λ e. ready, ready)) (λ es. (λ e. keeps es, keeps es))

  remove-Ready :
      (Q : Unit {0} → Vault Bytes → Type 0) (path : Text) (v : Vault Bytes)
      → ((w : Vault Bytes) → Ready w → Q tt w)
      → Ready v
      → Ends Still Q (ignore (await io_error (remove_file path)) v)
  remove-Ready Q path v k ready =
      ignored-Ends Still (λ _. Ready) Q (await io_error (remove_file path) v)
        (Ready-await (λ _. Ready) io_error (remove_file path) v ready (λ es. ready)
          (λ es. done-Ends Still (λ _. Ready) tt (remove_file path (next es v)).1 ready))
        (λ _ w h. k w h) (λ e w h. k w h)

  clean_up-Ready :
      {A : Type 0} (Q : A → Vault Bytes → Type 0) (path : Text) (e : BackupError) (v : Vault Bytes)
      → Ready v
      → Ends Still Q (clean_up l path e v)
  clean_up-Ready Q path e v ready =
      bind-Ends Still (λ _. Ready) Q (λ _. fail e) (ignore (await io_error (remove_file path)) v)
        (remove-Ready (λ _. Ready) path v (λ w h. h) ready) (λ _ w h. failed-Ends Still Q e w h)

  -- The bytes are a snapshot of a database with the canary of this run.
  abbrev pub IsSnapshot : Bytes → Type 0
  IsSnapshot bytes = (d : Database) × HasWritten d × (bytes ≡ l.vacuum d)

  abbrev pub InFile : Text → Vault Bytes → Type 0
  InFile path v = (bytes : Bytes) × (lookup path v.files ≡ some bytes) × IsSnapshot bytes

  -- Ready, with the snapshot in a file, and with the snapshot read.
  abbrev Wrote : Text → Vault Bytes → Type 0
  Wrote path w = Ready w × InFile path w

  abbrev pub Snapshot : Bytes → Vault Bytes → Type 0
  Snapshot bytes w = Ready w × IsSnapshot bytes

  vacuum-Ends :
      (path : Text) (v : Vault Bytes)
      → Ready v
      → Ends Still (λ _. Wrote path) (await sqlx_error (vacuum_into l path) v)
  vacuum-Ends path v ready =
      Ready-await (λ _. Wrote path) sqlx_error (vacuum_into l path) v ready (λ es. ready)
        λ es.
          done-Ends Still (λ _. Wrote path) tt (vacuum_into l path (next es v)).1
            (
              ready,
              (
                l.vacuum v.database,
                lookup-same path (l.vacuum v.database) v.files,
                (v.database, ready.1, refl),
              ),
            )

  found-Ends :
      (e : BackupError) (o : Option Bytes) (w : Vault Bytes)
      → Ready w
      → ((bytes : Bytes) → o ≡ some bytes → IsSnapshot bytes)
      → Ends Still Snapshot (found e o w)
  found-Ends e none w ready is = failed-Ends Still Snapshot e w ready
  found-Ends e (some bytes) w ready is = done-Ends Still Snapshot bytes w (ready, is bytes refl)

  found-state : (e : BackupError) (o : Option Bytes) (w : Vault Bytes) → (found e o w).1 ≡ w
  found-state e none w = refl
  found-state e (some bytes) w = refl

  read-Ends :
      (path : Text) (v : Vault Bytes)
      → Wrote path v
      → Ends Still Snapshot (await io_error (read_file path) v)
  read-Ends path v (ready, (bytes, e, is)) =
      Ready-await Snapshot io_error (read_file path) v ready
        (λ es. subst Ready (sym (found-state (io_error 0) (lookup path v.files) (next es v))) ready)
        λ es.
          found-Ends (io_error 0) (lookup path v.files) (next es v) ready
            λ b eb. subst IsSnapshot (some_injective bytes b (sym e ∙ eb)) is

  -- The file is read back as it was written, and removed.
  pub snapshot-Ends :
      (path : Text) (v : Vault Bytes) → Ready v → Ends Still Snapshot (snapshot l path v)
  unfolding snapshot
  snapshot-Ends path v ready =
      bind-Ends Still (λ _. Wrote path) Snapshot _ _
        (handled-Ends Still (λ _. Wrote path) (clean_up l path) _ (vacuum-Ends path v ready)
          (clean_up-Ready (λ _. Wrote path) path))
        λ _ w h.
          bind-Ends Still Snapshot Snapshot _ _
            (handled-Ends Still Snapshot (clean_up l path) _ (read-Ends path w h)
              (clean_up-Ready Snapshot path))
            λ bytes u (i, snap).
              bind-Ends Still (λ _. Ready) Snapshot (λ _. pure bytes) _
                (remove-Ready (λ _. Ready) path u (λ _ j. j) i)
                (λ _ x j. done-Ends Still Snapshot bytes x (j, snap))
