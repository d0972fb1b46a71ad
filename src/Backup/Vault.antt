-- ===== src/Backup/Vault.antt =====
-- What a backup changes: the canary row of the database, the files of the temporary directory and
-- the objects of the bucket; and its steps, each of which awaits a library (src/backup/mod.rs,
-- src/backup/store.rs). The objects are listed under the keys that they are put and got with.
pub mod Ends
pub mod Lookup
use kehrkraft.Prelude.{
  ℕ, Bool, not, List, [], ◌∷◌, Option, none, some, Text, text_eq, if◌then◌else◌, filter,
}
use kehrkraft.Backup.Config.{
  BackupError, store_error, io_error, Attempt, done, failed, dropped, panicked,
}

-- What becomes of an awaited call: it returns, it fails without or with its effect, or the
-- deadline passes while it runs, without or with its effect.
pub data Event : Type 0 where
  returns : Event
  fails fails_after : ℕ → Event
  elapses elapses_after : Event

-- The row of `backup_canary` with the id 1.
pub record Canary : Type 0 where
  pub job_id : Text
  pub backed_up_at : Text

-- `tables` stands for all other rows.
pub record Database : Type 0 where
  pub canary : Option Canary
  pub tables : ℕ

-- A table of texts, the newest entry first.
module _ {A : Type 0} where
  unfoldable pub lookup : Text → List (Text × A) → Option A
  lookup key [] = none
  lookup key ((k, a) ∷ rest) =
      let found = lookup key rest in if text_eq k key then some a else found

  unfoldable pub without : Text → List (Text × A) → List (Text × A)
  without key rows = filter (λ row. not (text_eq row.0 key)) rows

-- `Bytes` stands for `Vec<u8>`; `events` says what becomes of the next calls, all others return.
pub record Vault (Bytes : Type 0) : Type 0 where
  pub database : Database
  pub files : List (Text × Bytes)
  pub objects : List (Text × Bytes)
  pub events : List Event

abbrev pub Run : Type 0 → Type 0 → Type 0
Run Bytes A = Vault Bytes → Attempt A × Vault Bytes

module _ {Bytes : Type 0} where
  abbrev pub pure : {A : Type 0} → A → Run Bytes A
  pure a v = (done a, v)

  abbrev pub fail : {A : Type 0} → BackupError → Run Bytes A
  fail e v = (failed e, v)

  abbrev pub continue :
      {A B : Type 0} → (A → Run Bytes B) → Attempt A × Vault Bytes → Attempt B × Vault Bytes
  continue f (done a, v) = f a v
  continue f (failed e, v) = (failed e, v)
  continue f (dropped, v) = (dropped, v)
  continue f (panicked, v) = (panicked, v)

  infixl 5 ◌>>=◌ ◌>>◌
  abbrev pub ◌>>=◌ : {A B : Type 0} → Run Bytes A → (A → Run Bytes B) → Run Bytes B
  ◌>>=◌ m f v = continue f (m v)

  abbrev pub ◌>>◌ : {A B : Type 0} → Run Bytes A → Run Bytes B → Run Bytes B
  m >> k = m >>= λ _. k

  abbrev pub gets : {A : Type 0} → (Vault Bytes → A) → Run Bytes A
  gets f v = (done (f v), v)

  abbrev pub modify : (Vault Bytes → Vault Bytes) → Run Bytes (Unit {0})
  modify f v = (done tt, f v)

  -- The rest of the events.
  abbrev pub next : List Event → Vault Bytes → Vault Bytes
  next es v = record v { events = es }

  abbrev pub happens :
      {A : Type 0}
      → (ℕ → BackupError)
      → Run Bytes A
      → List Event
      → Vault Bytes
      → Attempt A × Vault Bytes
  happens wrap m [] v = m v
  happens wrap m (returns ∷ es) v = m (next es v)
  happens wrap m (fails e ∷ es) v = (failed (wrap e), next es v)
  happens wrap m (fails_after e ∷ es) v = (failed (wrap e), (m (next es v)).1)
  happens wrap m (elapses ∷ es) v = (dropped, next es v)
  happens wrap m (elapses_after ∷ es) v = (dropped, (m (next es v)).1)

  -- `.await?` on the call of a library whose errors `wrap` converts.
  unfoldable pub await : {A : Type 0} → (ℕ → BackupError) → Run Bytes A → Run Bytes A
  await wrap m v = happens wrap m v.events v

  abbrev pub ignored : {A : Type 0} → Attempt A × Vault Bytes → Attempt (Unit {0}) × Vault Bytes
  ignored (done a, v) = (done tt, v)
  ignored (failed e, v) = (done tt, v)
  ignored (dropped, v) = (dropped, v)
  ignored (panicked, v) = (panicked, v)

  -- `let _ = ….await`.
  abbrev pub ignore : {A : Type 0} → Run Bytes A → Run Bytes (Unit {0})
  ignore m v = ignored (m v)

  abbrev pub handled :
      {A : Type 0} → (BackupError → Run Bytes A) → Attempt A × Vault Bytes → Attempt A × Vault Bytes
  handled h (done a, v) = (done a, v)
  handled h (failed e, v) = h e v
  handled h (dropped, v) = (dropped, v)
  handled h (panicked, v) = (panicked, v)

  -- `if let Err(err) = …`.
  abbrev pub or_else : {A : Type 0} → (BackupError → Run Bytes A) → Run Bytes A → Run Bytes A
  or_else h m v = handled h (m v)

  abbrev pub held : {A : Type 0} → Attempt A × Vault Bytes → Attempt (Attempt A) × Vault Bytes
  held (done a, v) = (done (done a), v)
  held (failed e, v) = (done (failed e), v)
  held (dropped, v) = (dropped, v)
  held (panicked, v) = (panicked, v)

  -- A result that is looked at later, by `?`.
  abbrev pub hold : {A : Type 0} → Run Bytes A → Run Bytes (Attempt A)
  hold m v = held (m v)

  abbrev pub release : {A : Type 0} → Attempt A → Run Bytes A
  release r v = (r, v)

  abbrev pub found : {A : Type 0} → BackupError → Option A → Run Bytes A
  found e none = fail e
  found e (some a) = pure a

  -- The number stands for "not found".
  abbrev pub read_file : Text → Run Bytes Bytes
  read_file path = do files ← gets (λ v. v.files); found (io_error 0) (lookup path files)

  abbrev pub write_file : Text → Bytes → Run Bytes (Unit {0})
  write_file path bytes = modify (λ v. record v { files = (path, bytes) ∷ v.files })

  abbrev pub remove_file : Text → Run Bytes (Unit {0})
  remove_file path = modify (λ v. record v { files = without path v.files })

  unfoldable pub put : Text → Bytes → Run Bytes (Unit {0})
  put key payload =
      await store_error (modify (λ v. record v { objects = (key, payload) ∷ v.objects }))

  unfoldable pub get : Text → Run Bytes Bytes
  get key =
      await store_error
        do objects ← gets (λ v. v.objects); found (store_error 0) (lookup key objects)
