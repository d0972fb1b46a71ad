-- ===== src/Backup/Config.antt =====
-- src/backup/mod.rs: the errors of a backup and its configuration. What a library says of its own
-- error, and how `{:?}` prints a text, are parameters.
pub mod Required
use kehrkraft.Prelude.{
  ℕ, ◌^◌, Bool, true, false, not, ◌&&◌, ◌||◌, List, [], ◌∷◌, ◌++◌, Option, none, some, Text, leb,
  ◌==◌, if◌then◌else◌, all,
}
use kehrkraft.Models.Names.{chars, trim, trim_option, non_empty, is_empty}
use kehrkraft.Strings.Numbers.{parse_unsigned}

-- The error of a library is a number that stands for it.
pub data BackupError : Type 0 where
  config msg : Text → BackupError
  sqlx_error store_error encrypt_error decrypt_error io_error : ℕ → BackupError

-- How a call ends: with `Ok`, with `Err`, dropped at its deadline, or in a panic.
pub data Attempt (A : Type 0) : Type 0 where
  done : A → Attempt A
  failed : BackupError → Attempt A
  dropped panicked : Attempt A

infixl 5 ◌>>=◌
abbrev pub ◌>>=◌ : {A B : Type 0} → Attempt A → (A → Attempt B) → Attempt B
done a >>= f = f a
failed e >>= f = failed e
dropped >>= f = dropped
panicked >>= f = panicked

-- `Display for BackupError`.
unfoldable pub display : (ℕ → Text) → BackupError → Text
display cause (config m) = m
display cause (msg m) = m
display cause (sqlx_error e) = chars "database error: " ++ cause e
display cause (store_error e) = chars "object store error: " ++ cause e
display cause (encrypt_error e) = chars "encryption error: " ++ cause e
display cause (decrypt_error e) = chars "decryption error: " ++ cause e
display cause (io_error e) = chars "I/O error: " ++ cause e

pub record Config : Type 0 where
  pub bucket : Text
  pub region : Text
  pub endpoint : Option Text
  pub access_key : Text
  pub secret_key : Text
  pub passphrase : Text
  pub prefix : Text
  pub max_age_hours : ℕ

-- `env::var`: the value of a variable of the process, if it is set and a text.
abbrev pub Environment : Type 0
Environment = Text → Option Text

unfoldable pub env_var : Environment → Text → Option Text
unfolding trim
env_var env name = non_empty (trim_option (env name))

-- `Option::ok_or_else`.
abbrev pub ok_or : Text → Option Text → Attempt Text
ok_or message none = failed (config message)
ok_or message (some v) = done v

unfoldable pub required_var : Environment → Text → Attempt Text
unfolding env_var
required_var env name = ok_or (name ++ chars " must be set") (env_var env name)

-- `Option::unwrap_or_else`.
abbrev pub unwrap_or : Text → Option Text → Text
unwrap_or default none = default
unwrap_or default (some v) = v

-- `char::is_ascii_alphanumeric`.
abbrev pub is_ascii_alphanumeric : ℕ → Bool
is_ascii_alphanumeric c =
    (leb b'0' c && leb c b'9') || (leb b'A' c && leb c b'Z') || (leb b'a' c && leb c b'z')

abbrev pub is_prefix_char : ℕ → Bool
is_prefix_char c = is_ascii_alphanumeric c || (c == b'.') || (c == b'-') || (c == b'_')

unfoldable pub is_valid_prefix : Text → Bool
is_valid_prefix prefix = not (is_empty prefix) && all is_prefix_char prefix

abbrev pub refuse_if : Bool → Text → Attempt (Unit {0})
refuse_if true message = failed (config message)
refuse_if false message = done tt

module _ (debug : Text → Text) where
  abbrev pub invalid_hours : Text → Text
  invalid_hours v =
      chars "invalid KEHRKRAFT_BACKUP_MAX_AGE_HOURS "
      ++ (debug v ++ chars ": expected hours as a number")

  abbrev pub parsed_hours : Text → Option ℕ → Attempt ℕ
  parsed_hours v (some n) = done n
  parsed_hours v none = failed (config (invalid_hours v))

  abbrev pub max_age : Option Text → Attempt ℕ
  max_age none = done 26
  max_age (some v) = parsed_hours v (parse_unsigned (2 ^ 64) v)

  -- The body of `from_env` once the bucket is known.
  unfoldable pub enabled : Environment → Text → Attempt (Option Config)
  unfolding required_var
  enabled env bucket = do
    access_key ← required_var env (chars "KEHRKRAFT_BACKUP_ACCESS_KEY")
    secret_key ← required_var env (chars "KEHRKRAFT_BACKUP_SECRET_KEY")
    passphrase ←
        ok_or
          (chars
            "KEHRKRAFT_BACKUP_PASSPHRASE must be set when backups are enabled; refusing to store unencrypted backups")
          (env_var env (chars "KEHRKRAFT_BACKUP_PASSPHRASE"))
    region ← done (unwrap_or (chars "us-east-1") (env_var env (chars "KEHRKRAFT_BACKUP_REGION")))
    _ ← refuse_if (is_empty region) (chars "KEHRKRAFT_BACKUP_REGION must not be empty")
    prefix ← done (unwrap_or (chars "kehrkraft") (env_var env (chars "KEHRKRAFT_BACKUP_PREFIX")))
    _ ← refuse_if (not (is_valid_prefix prefix)) (
        chars "invalid KEHRKRAFT_BACKUP_PREFIX "
        ++ (debug prefix ++ chars ": use only ASCII letters, digits, '.', '-' and '_'"))
    max_age_hours ← max_age (env_var env (chars "KEHRKRAFT_BACKUP_MAX_AGE_HOURS"))
    done (
        some (record {
          bucket = bucket;
          region = region;
          endpoint = env_var env (chars "KEHRKRAFT_BACKUP_ENDPOINT");
          access_key = access_key;
          secret_key = secret_key;
          passphrase = passphrase;
          prefix = prefix;
          max_age_hours = max_age_hours;
        }))

  abbrev pub from_bucket : Environment → Option Text → Attempt (Option Config)
  from_bucket env none = done none
  from_bucket env (some bucket) = enabled env bucket

  -- `Config::from_env`.
  unfoldable pub from_env : Environment → Attempt (Option Config)
  unfolding enabled
  from_env env = from_bucket env (env_var env (chars "KEHRKRAFT_BACKUP_BUCKET"))
