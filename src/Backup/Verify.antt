-- ===== src/Backup/Verify.antt =====
-- src/backup/mod.rs: the verification of the latest hourly backup.
pub mod Laws
use kehrkraft.Prelude.{
  ℕ, ◌-◌, ◌^◌, ◌*◌, Bool, true, false, not, ◌∷◌, [], ◌++◌, Option, none, some, Text, text_eq, ltb,
  if◌then◌else◌,
}
use kehrkraft.Prelude.Int.{ℤ, pos, negsuc}
use kehrkraft.Models.Names.{chars, trim, is_empty}
use kehrkraft.Feed.{to_string}
use kehrkraft.Backup.Config.{
  BackupError, msg, sqlx_error, decrypt_error, io_error, done, failed, panicked, Config,
}
use kehrkraft.Backup.Naming.{hourly, latest_alias_name}
use kehrkraft.Backup.Vault.{
  Canary, Vault, Run, pure, fail, ◌>>=◌, ◌>>◌, await, ignore, found, write_file, remove_file, get,
  hold, release,
}
use kehrkraft.Backup.Run.{Libraries}

-- `u64 as i64`.
abbrev pub as_i64 : ℕ → ℤ
as_i64 n = if ltb n (2 ^ 63) then pos n else negsuc (2 ^ 64 - n - 1)

-- Whether an age, which is not negative, is more than a duration.
abbrev pub is_older : ℕ → ℤ → Bool
is_older age (pos d) = ltb d age
is_older age (negsuc d) = true

module _ {Bytes : Type 0} (l : Libraries Bytes) where
  abbrev pub refuse_if : Bool → Text → Run Bytes (Unit {0})
  refuse_if true message = fail (msg message)
  refuse_if false message = pure tt

  -- The object that the hourly alias names.
  unfoldable pub latest_name : Text → Run Bytes Text
  latest_name alias = do
    alias_bytes ← get alias
    name ←
        found (msg (chars "alias " ++ (alias ++ chars " is not valid UTF-8")))
          (l.from_utf8 alias_bytes)
    refuse_if (is_empty (trim name)) (chars "alias " ++ (alias ++ chars " is empty"))
    pure (trim name)

  -- A blocking task, which may not be joined and may fail.
  unfoldable pub decrypted : Text → Bytes → Run Bytes Bytes
  decrypted passphrase ciphertext = do
    await (λ e. msg (chars "decryption task failed: " ++ l.cause e)) (pure tt)
    await decrypt_error (found (decrypt_error 0) (l.decrypt ciphertext passphrase))

  -- The canary of a database in a file, whose integrity is checked first.
  unfoldable pub inspect : Text → Bytes → Run Bytes (Option Canary)
  inspect name plaintext = do
    database ← await sqlx_error (found (sqlx_error 0) (l.connect plaintext))
    integrity ← await sqlx_error (pure (l.integrity_check plaintext))
    refuse_if (not (text_eq integrity (chars "ok")))
        (chars "integrity check failed for " ++ (name ++ (chars ": " ++ integrity)))
    await sqlx_error (pure database.canary)

  abbrev pub expect_canary : Text → Option Canary → Run Bytes Canary
  expect_canary name row = found (msg (chars "backup " ++ (name ++ chars " has no canary row"))) row

  abbrev pub checked_age : Config → Text → ℕ → Option ℤ → Run Bytes (Unit {0})
  checked_age config backed_up_at age none v = (panicked, v)
  checked_age config backed_up_at age (some limit) v =
      refuse_if (is_older age limit)
        (chars "backup canary too old: "
          ++ (backed_up_at
              ++ (chars " (max age " ++ (to_string config.max_age_hours ++ chars "h)"))))
        v

  -- The age of the canary is not more than the configured one.
  unfoldable pub check_age : Config → ℕ → Text → Run Bytes (Unit {0})
  check_age config now backed_up_at = do
    timestamp ←
        found (msg (chars "cannot parse canary timestamp " ++ l.complaint backed_up_at))
          (l.parse_from_rfc3339 backed_up_at)
    checked_age config backed_up_at (now - timestamp) (l.hours (as_i64 config.max_age_hours))

  -- What follows once the backup is decrypted, in a temporary file.
  unfoldable pub verify_plaintext : Config → Text → ℕ → Text → Bytes → Run Bytes (Unit {0})
  verify_plaintext config nonce now name plaintext = do
    let path = l.in_temp_dir (chars "kehrkraft-verify-" ++ (nonce ++ chars ".db"))
    await io_error (write_file path plaintext)
    result ← hold (inspect name plaintext)
    ignore (await io_error (remove_file path))
    backed_up_at ← release result
    row ← expect_canary name backed_up_at
    check_age config now row.backed_up_at

  unfoldable pub verify : Config → Text → ℕ → Run Bytes (Unit {0})
  verify config nonce now = do
    name ← latest_name (latest_alias_name config.prefix hourly)
    ciphertext ← get name
    plaintext ← decrypted config.passphrase ciphertext
    verify_plaintext config nonce now name plaintext
