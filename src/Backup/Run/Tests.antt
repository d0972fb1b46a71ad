-- ===== src/Backup/Run/Tests.antt =====
-- Runs of the backup with concrete libraries: bytes are what was written to them.
use kehrkraft.Prelude.{
  ℕ, ◌+◌, ◌*◌, ◌/◌, ◌%◌, ◌≡◌, ◌≢◌, refl, true, List, [], ◌∷◌, ◌++◌, Option, none, some, Text,
  text_eq, text_eq_refl, arith, if◌then◌else◌, ◌⊎◌,
}
use kehrkraft.Prelude.Int.{ℤ, pos, negsuc}
use kehrkraft.Models.Names.{chars, trim, trim_start, is_whitespace}
use kehrkraft.Feed.{digits}
use kehrkraft.Calendar.Gregorian.{digits_from}
use kehrkraft.Strings.Numbers.{parse_unsigned}
use kehrkraft.Backup.Config.{
  done, Config, Environment, env_var, required_var, is_valid_prefix, enabled, from_env,
}
use kehrkraft.Backup.Config.Required.{IsConfig, IsRefused, IsRead, Lacks, from_env-IsRead}
use kehrkraft.Backup.Naming.{
  hourly, label, last_sunday_of_year, slot_of, slot_object_part, object_name, latest_alias_name,
}
use kehrkraft.Backup.Vault.{
  Event, returns, fails, Database, Vault, lookup, without, next, await, put,
}
use kehrkraft.Backup.Run.{
  Libraries, Draw, stored, skipped, slot_at, name_at, canary_backed_up_at, write_canary, snapshot,
  encrypted, back_up, run_once_inner, run_once,
}
use kehrkraft.Backup.Run.Linked.{IsLinked}
use kehrkraft.Backup.Run.Laws.{run_once-IsLinked, same_hour-skipped}
use kehrkraft.Backup.Verify.{verify}
use kehrkraft.Backup.Verify.Laws.{IsDocumented, verify-run_once}

data Blob : Type 0 where
  utf8 : Text → Blob
  file : Database → Blob
  sealed : ℕ → Blob → Text → Blob

abbrev parse_one : Text → Option ℕ
parse_one (t ∷ []) = some (t * 1000000000)
parse_one _ = none

abbrev text_of : Blob → Option Text
text_of (utf8 s) = some s
text_of _ = none

abbrev database_of : Blob → Option Database
database_of (file d) = some d
database_of _ = none

abbrev unseal : Blob → Text → Option Blob
unseal (sealed salt b p) q = if text_eq p q then some b else none
unseal _ q = none

abbrev hours_of : ℤ → Option ℤ
hours_of (pos h) = some (pos (3600000000000 * h))
hours_of (negsuc h) = none

-- Instants are counted from a Thursday, of 1970.
abbrev blobs : Libraries Blob
blobs = record {
  utc = λ t. record {
    year = 1970;
    day = t / 86400000000000;
    iso_week = 1;
    hour = t / 3600000000000 % 24;
  };
  num_days_from_sunday = λ d. (d + 4) % 7;
  dec31 = λ y. 364;
  to_rfc3339 = λ t. t / 1000000000 ∷ [];
  parse_from_rfc3339 = parse_one;
  hours = hours_of;
  cause = λ e. [];
  complaint = λ s. s;
  as_bytes = utf8;
  from_utf8 = text_of;
  in_temp_dir = λ name. chars "/tmp/" ++ name;
  is_utf8 = true;
  vacuum = file;
  connect = database_of;
  integrity_check = λ b. chars "ok";
  encrypt = sealed;
  decrypt = unseal;
}

blobs-IsDocumented : IsDocumented blobs
blobs-IsDocumented = record {
  parses = λ t. refl;
  decodes = λ s. refl;
  decrypts = λ salt b p. rw (text_eq_refl p) refl;
  connects = λ d. refl;
  is_integral = λ d. refl;
  seconds = λ h le. refl;
}

abbrev sample : Config
sample = record {
  bucket = chars "b";
  region = chars "r";
  endpoint = none;
  access_key = chars "a";
  secret_key = chars "s";
  passphrase = chars "p";
  prefix = chars "k";
  max_age_hours = 26;
}

abbrev draw : Draw
draw = record { job_id = chars "j"; nonce = chars "n"; salt = 7 }

-- The bucket is empty and the canary was never written.
abbrev fresh : List Event → Vault Blob
fresh events = record {
  database = record { canary = none; tables = 5 };
  files = [];
  objects = [];
  events = events;
}

fresh-IsLinked : (events : List Event) → IsLinked blobs sample (fresh events).objects
unfolding lookup
fresh-IsLinked events = record { linked = λ slot b h. absurd (ground (arith, h)) }

-- At two o'clock the hourly backup is stored.
two_oclock :
    (run_once blobs sample draw 7200500000000 (fresh [])).0
    ≡ done (stored (chars "k.hourly-02.db.age"))
unfolding run_once run_once_inner canary_backed_up_at back_up write_canary snapshot encrypted put
    await lookup without name_at slot_at object_name slot_object_part slot_of last_sunday_of_year
    latest_alias_name label digits text_eq
two_oclock = refl

-- The ninth call, the first upload, fails.
abbrev upload_fails : List Event
upload_fails =
    returns
    ∷ returns
    ∷ returns
    ∷ returns
    ∷ returns
    ∷ returns
    ∷ returns
    ∷ returns
    ∷ returns
    ∷ returns
    ∷ fails 9
    ∷ []

run_once-IsLinked_example :
    IsLinked blobs sample (run_once blobs sample draw 7200000000000 (fresh upload_fails)).1.objects
run_once-IsLinked_example =
    run_once-IsLinked blobs sample draw 7200000000000 (fresh upload_fails)
      (fresh-IsLinked upload_fails)

-- The canary of the day before, at two o'clock.
abbrev yesterday : Vault Blob
yesterday = record (fresh []) {
  database = record {
    canary = some (record { job_id = []; backed_up_at = 7200 ∷ [] });
    tables = 5;
  };
}

same_hour-skipped_example :
    run_once blobs sample draw 93600000000000 (next [] yesterday)
    ≡ (done (skipped hourly), next [] yesterday)
same_hour-skipped_example =
    same_hour-skipped blobs sample draw 93600000000000 7200000000000 yesterday refl refl
      (λ e. omega (arith, e))

hour_of_two : slot_at blobs 7200500000000 ≡ hourly
unfolding slot_at slot_of
hour_of_two = refl

prefix_k : is_valid_prefix (chars "k") ≡ true
unfolding is_valid_prefix
prefix_k = refl

verify-run_once_example :
    (verify blobs sample
      (chars "m")
      90000000000000
      (next [] (run_once blobs sample draw 7200500000000 (fresh [])).1)).0
    ≡ done tt
verify-run_once_example =
    verify-run_once blobs blobs-IsDocumented sample draw (chars "m") 7200500000000 90000000000000
      (fresh []) (chars "k.hourly-02.db.age") prefix_k (omega arith) (fresh-IsLinked []) two_oclock
      hour_of_two (omega arith)

-- An environment in which every variable has the same value.
abbrev constant : Text → Environment
constant value name = some value

from_env-IsRead_example :
    ((env_var (constant (chars " 7 ")) (chars "KEHRKRAFT_BACKUP_BUCKET") ≡ none)
      × (from_env (λ s. s) (constant (chars " 7 ")) ≡ done none))
    ⊎ (((c : Config) × (from_env (λ s. s) (constant (chars " 7 ")) ≡ done (some c))
          × IsConfig c
          × IsRead (λ s. s) (constant (chars " 7 ")) c
          × (¬ Lacks (λ s. s) (constant (chars " 7 "))))
        ⊎ ((env_var (constant (chars " 7 ")) (chars "KEHRKRAFT_BACKUP_BUCKET") ≢ none)
            × Lacks (λ s. s) (constant (chars " 7 "))
            × IsRefused (from_env (λ s. s) (constant (chars " 7 ")))))
from_env-IsRead_example = from_env-IsRead (λ s. s) (constant (chars " 7 "))

seven :
    from_env (λ s. s) (constant (chars " 7 "))
    ≡ done (
        some (record {
          bucket = chars "7";
          region = chars "7";
          endpoint = some (chars "7");
          access_key = chars "7";
          secret_key = chars "7";
          passphrase = chars "7";
          prefix = chars "7";
          max_age_hours = 7;
        }))
unfolding from_env enabled required_var env_var trim trim_start is_whitespace is_valid_prefix
    parse_unsigned digits_from
seven = refl
