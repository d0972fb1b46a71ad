-- ===== src/Backup/Run.antt =====
-- src/backup/mod.rs: one run of the backup. What the code calls of chrono, age, SQLite and the
-- operating system is a record of functions; an instant is a number of nanoseconds.
pub mod Linked
pub mod Ready
pub mod Stages
pub mod Laws
mod Tests
use kehrkraft.Prelude.{
  ℕ, ◌+◌, ◌-◌, ◌*◌, ◌^◌, Bool, true, false, not, ◌∷◌, [], ◌++◌, Option, none, some, Text, text_eq,
  ltb, if◌then◌else◌,
}
use kehrkraft.Prelude.Int.{ℤ, pos, negsuc}
use kehrkraft.Models.Names.{chars, trim, is_empty}
use kehrkraft.Backup.Config.{
  BackupError, msg, sqlx_error, encrypt_error, decrypt_error, io_error, Attempt, done, failed,
  dropped, panicked, Config,
}
use kehrkraft.Backup.Naming.{Slot, hourly, DateTime, slot_of, object_name, latest_alias_name}
use kehrkraft.Backup.Vault.{
  Canary, Database, Vault, Run, pure, fail, ◌>>=◌, ◌>>◌, gets, modify, await, ignore, or_else,
  read_file, write_file, remove_file, put, get,
}

pub record Libraries (Bytes : Type 0) : Type 0 where
  -- chrono: the fields of an instant, the weekday of a day and December 31 of a year.
  pub utc : ℕ → DateTime
  pub num_days_from_sunday : ℕ → ℕ
  pub dec31 : ℕ → ℕ
  -- `to_rfc3339_opts(SecondsFormat::Secs, true)`, and the reading of such a text.
  pub to_rfc3339 : ℕ → Text
  pub parse_from_rfc3339 : Text → Option ℕ
  -- `ChronoDuration::hours` in nanoseconds; `none` is its panic.
  pub hours : ℤ → Option ℤ
  -- What a library says of its error, and of a text that it cannot read.
  pub cause : ℕ → Text
  pub complaint : Text → Text
  -- Strings and bytes.
  pub as_bytes : Text → Bytes
  pub from_utf8 : Bytes → Option Text
  -- The path of a file in the temporary directory; whether it is UTF-8.
  pub in_temp_dir : Text → Text
  pub is_utf8 : Bool
  -- SQLite: the file that `VACUUM INTO` writes, and the connection to a file.
  pub vacuum : Database → Bytes
  pub connect : Bytes → Option Database
  pub integrity_check : Bytes → Text
  -- age, by the random salt that it draws.
  pub encrypt : ℕ → Bytes → Text → Bytes
  pub decrypt : Bytes → Text → Option Bytes

-- What `rand_hex` and age draw in one run.
pub record Draw : Type 0 where
  pub job_id : Text
  pub nonce : Text
  pub salt : ℕ

pub data RunOutcome : Type 0 where
  stored : Text → RunOutcome
  skipped : Slot → RunOutcome

module _ {Bytes : Type 0} (l : Libraries Bytes) where
  unfoldable pub slot_at : ℕ → Slot
  slot_at t = slot_of l.num_days_from_sunday l.dec31 (l.utc t)

  unfoldable pub name_at : Text → ℕ → Text
  name_at prefix t = object_name l.num_days_from_sunday l.dec31 prefix (l.utc t)

  abbrev pub instant_of : Option Canary → Option ℕ
  instant_of none = none
  instant_of (some row) = l.parse_from_rfc3339 row.backed_up_at

  -- An unreadable canary counts as none.
  unfoldable pub canary_backed_up_at : Run Bytes (Option ℕ)
  canary_backed_up_at = await sqlx_error (gets (λ v. instant_of v.database.canary))

  unfoldable pub write_canary : Text → ℕ → Run Bytes (Unit {0})
  write_canary job_id now = await sqlx_error (
      modify λ v. record v {
        database = record v.database {
          canary = some (record { job_id = job_id; backed_up_at = l.to_rfc3339 now });
        };
      })

  abbrev pub is_covered : Text → ℕ → Option ℕ → Bool
  is_covered prefix now none = false
  is_covered prefix now (some previous) = text_eq (name_at prefix previous) (name_at prefix now)

  -- The file of a snapshot.
  abbrev pub temp_path : Config → Draw → Text
  temp_path config draw = l.in_temp_dir (config.prefix ++ (b'-' ∷ (draw.nonce ++ chars ".db")))

  abbrev pub checked_path : Text → Run Bytes Text
  checked_path path =
      if l.is_utf8 then pure path else fail (msg (chars "temporary path is not valid UTF-8"))

  -- The file is removed whether a step on it fails or not.
  abbrev pub clean_up : {A : Type 0} → Text → BackupError → Run Bytes A
  clean_up path e = do ignore (await io_error (remove_file path)); fail e

  -- `VACUUM INTO` a new file.
  abbrev pub vacuum_into : Text → Run Bytes (Unit {0})
  vacuum_into path = do database ← gets (λ v. v.database); write_file path (l.vacuum database)

  -- A snapshot in a new file, which is read and removed.
  unfoldable pub snapshot : Text → Run Bytes Bytes
  snapshot path = do
    or_else (clean_up path) (await sqlx_error (vacuum_into path))
    plaintext ← or_else (clean_up path) (await io_error (read_file path))
    ignore (await io_error (remove_file path))
    pure plaintext

  -- A blocking task, which may not be joined and may fail.
  unfoldable pub encrypted : ℕ → Text → Bytes → Run Bytes Bytes
  encrypted salt passphrase plaintext = do
    await (λ e. msg (chars "encryption task failed: " ++ l.cause e)) (pure tt)
    await encrypt_error (pure (l.encrypt salt plaintext passphrase))

  -- What follows when the slot is not covered yet.
  unfoldable pub back_up : Config → Draw → ℕ → Run Bytes RunOutcome
  back_up config draw now = do
    write_canary draw.job_id now
    path ← checked_path (temp_path config draw)
    plaintext ← snapshot path
    ciphertext ← encrypted draw.salt config.passphrase plaintext
    put (name_at config.prefix now) ciphertext
    put (latest_alias_name config.prefix (slot_at now)) (l.as_bytes (name_at config.prefix now))
    pure (stored (name_at config.prefix now))

  unfoldable pub run_once_inner : Config → Draw → ℕ → Run Bytes RunOutcome
  run_once_inner config draw now = do
    await sqlx_error (pure tt)
    await sqlx_error (pure tt)
    await sqlx_error (pure tt)
    previous ← canary_backed_up_at
    (if is_covered config.prefix now previous
        then pure (skipped (slot_at now))
        else back_up config draw now)

  abbrev pub timed_out : Attempt RunOutcome × Vault Bytes → Attempt RunOutcome × Vault Bytes
  timed_out (dropped, v) = (failed (msg (chars "backup timed out after 120s")), v)
  timed_out r = r

  -- `tokio::time::timeout`: the run is dropped where its deadline passes.
  unfoldable pub run_once : Config → Draw → ℕ → Run Bytes RunOutcome
  run_once config draw now v = timed_out (run_once_inner config draw now v)
