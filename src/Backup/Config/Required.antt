-- ===== src/Backup/Config/Required.antt =====
-- What a configuration of the backups needs (src/backup/mod.rs, `Config::from_env`).
use kehrkraft.Prelude.{
  ℕ, ◌^◌, ◌<◌, ◌≡◌, ◌≢◌, ◌⊎◌, inl, inr, true, false, Option, none, some, Text, refl, arith,
  Bool-cases, Option-cases,
}
use kehrkraft.Models.Names.{chars, is_empty, non_empty, trim_option}
use kehrkraft.Strings.Numbers.{parse_unsigned, parse_unsigned-lt}
use kehrkraft.Backup.Config.{
  config, Attempt, done, failed, Config, Environment, env_var, required_var, unwrap_or,
  is_valid_prefix, invalid_hours, max_age, enabled, from_env,
}

-- The credentials and the passphrase are not empty, the prefix is valid, and the age is a `u64`.
pub record IsConfig (c : Config) : Type 0 where
  pub bucket_set : is_empty c.bucket ≡ false
  pub region_set : is_empty c.region ≡ false
  pub access_key_set : is_empty c.access_key ≡ false
  pub secret_key_set : is_empty c.secret_key ≡ false
  pub passphrase_set : is_empty c.passphrase ≡ false
  pub prefix_valid : is_valid_prefix c.prefix ≡ true
  pub max_age_lt : c.max_age_hours < 2 ^ 64

-- The attempt ends with `BackupError::Config`.
abbrev pub IsRefused : {A : Type 0} → Attempt A → Type 0
IsRefused (failed (config m)) = Unit
IsRefused _ = ⊥

module _ (debug : Text → Text) (env : Environment) where
  abbrev access_key : Option Text
  access_key = env_var env (chars "KEHRKRAFT_BACKUP_ACCESS_KEY")

  abbrev secret_key : Option Text
  secret_key = env_var env (chars "KEHRKRAFT_BACKUP_SECRET_KEY")

  abbrev passphrase : Option Text
  passphrase = env_var env (chars "KEHRKRAFT_BACKUP_PASSPHRASE")

  abbrev region : Text
  region = unwrap_or (chars "us-east-1") (env_var env (chars "KEHRKRAFT_BACKUP_REGION"))

  abbrev prefix : Text
  prefix = unwrap_or (chars "kehrkraft") (env_var env (chars "KEHRKRAFT_BACKUP_PREFIX"))

  abbrev hours : Option Text
  hours = env_var env (chars "KEHRKRAFT_BACKUP_MAX_AGE_HOURS")

  -- What makes the environment of enabled backups unusable.
  pub data Lacks : Type 0 where
    no_access_key : access_key ≡ none → Lacks
    no_secret_key : secret_key ≡ none → Lacks
    no_passphrase : passphrase ≡ none → Lacks
    bad_prefix : is_valid_prefix prefix ≡ false → Lacks
    bad_hours : (v : Text) → hours ≡ some v → parse_unsigned (2 ^ 64) v ≡ none → Lacks

  -- The age is the one of the variable, or 26 hours where it is not set.
  abbrev pub IsAge : ℕ → Type 0
  IsAge n =
      ((hours ≡ none) × (n ≡ 26))
      ⊎ ((v : Text) × (hours ≡ some v) × (parse_unsigned (2 ^ 64) v ≡ some n))

  -- Each field is what its variable says, without white space at its ends, or its default.
  pub record IsRead (c : Config) : Type 0 where
    pub bucket_is : env_var env (chars "KEHRKRAFT_BACKUP_BUCKET") ≡ some c.bucket
    pub access_key_is : access_key ≡ some c.access_key
    pub secret_key_is : secret_key ≡ some c.secret_key
    pub passphrase_is : passphrase ≡ some c.passphrase
    pub region_is : c.region ≡ region
    pub endpoint_is : c.endpoint ≡ env_var env (chars "KEHRKRAFT_BACKUP_ENDPOINT")
    pub prefix_is : c.prefix ≡ prefix
    pub age_is : IsAge c.max_age_hours

  IsRead-Lacks : (c : Config) → IsConfig c → IsRead c → ¬ Lacks
  IsRead-Lacks c is read (no_access_key e) = grind (arith, read.access_key_is, e)
  IsRead-Lacks c is read (no_secret_key e) = grind (arith, read.secret_key_is, e)
  IsRead-Lacks c is read (no_passphrase e) = grind (arith, read.passphrase_is, e)
  IsRead-Lacks c is read (bad_prefix e) = grind (arith, is.prefix_valid, read.prefix_is, e)
  IsRead-Lacks c is read (bad_hours v e bad) = elim read.age_is [
    | inl (none_is, n) ↦ grind (arith, none_is, e)
    | inr (w, some_is, good) ↦
        let same : w ≡ v = grind (arith, some_is, e) in
        let good' : parse_unsigned (2 ^ 64) v ≡ some c.max_age_hours = rw same at good in
        grind (arith, good', bad)
  ]

  non_empty-set : (o : Option Text) (v : Text) → non_empty o ≡ some v → is_empty v ≡ false
  non_empty-set none v h = ground (arith, h)
  non_empty-set (some s) v h = ground (arith, h)

  env_var-set : (name v : Text) → env_var env name ≡ some v → is_empty v ≡ false
  unfolding env_var
  env_var-set name v h = non_empty-set (trim_option (env name)) v h

  region-set : is_empty region ≡ false
  region-set = elim (Option-cases (env_var env (chars "KEHRKRAFT_BACKUP_REGION"))) [
    | inl e ↦ rw e refl
    | inr (v, e) ↦ rw e (env_var-set (chars "KEHRKRAFT_BACKUP_REGION") v e)
  ]

  -- The age parses, or the variable is set to something else.
  abbrev HoursCases : Type 0
  HoursCases =
      ((n : ℕ) × (max_age debug hours ≡ done n) × (n < 2 ^ 64) × IsAge n)
      ⊎ ((m v : Text) × (max_age debug hours ≡ failed (config m))
          × (hours ≡ some v)
          × (parse_unsigned (2 ^ 64) v ≡ none))

  hours_lem : HoursCases
  hours_lem = elim (Option-cases hours) [
    | inl e ↦ inl (26, rw e refl, omega arith, inl (e, refl))
    | inr (v, e) ↦ elim (Option-cases (parse_unsigned (2 ^ 64) v)) [
      | inl bad ↦ inr (invalid_hours debug v, v, rw (e, bad) refl, e, bad)
      | inr (n, good) ↦
          inl (n, rw (e, good) refl, parse_unsigned-lt (2 ^ 64) v n good, inr (v, e, good))
    ]
  ]

  abbrev Cases : Text → Type 0
  Cases b =
      ((c : Config) × (enabled debug env b ≡ done (some c)) × IsConfig c × IsRead c)
      ⊎ (IsRefused (enabled debug env b) × Lacks)

  enabled_lem :
      (b : Text)
      → env_var env (chars "KEHRKRAFT_BACKUP_BUCKET") ≡ some b
      → is_empty b ≡ false
      → Cases b
  unfolding enabled required_var
  enabled_lem b bucket set = elim (Option-cases access_key) [
    | inl e ↦ inr (rw e tt, no_access_key e)
    | inr (a, ea) ↦ elim (Option-cases secret_key) [
      | inl e ↦ inr (rw (ea, e) tt, no_secret_key e)
      | inr (k, ek) ↦ elim (Option-cases passphrase) [
        | inl e ↦ inr (rw (ea, ek, e) tt, no_passphrase e)
        | inr (p, ep) ↦ elim (Bool-cases (is_valid_prefix prefix)) [
          | inr e ↦ inr (rw (ea, ek, ep, region-set, e) tt, bad_prefix e)
          | inl ok ↦ elim hours_lem [
            | inr (m, v, eh, eo, bad) ↦
                inr (rw (ea, ek, ep, region-set, ok, eh) tt, bad_hours v eo bad)
            | inl (n, eh, lt, age) ↦ inl (
              record {
                bucket = b;
                region = region;
                endpoint = env_var env (chars "KEHRKRAFT_BACKUP_ENDPOINT");
                access_key = a;
                secret_key = k;
                passphrase = p;
                prefix = prefix;
                max_age_hours = n;
              },
              rw (ea, ek, ep, region-set, ok, eh) refl,
              record {
                bucket_set = set;
                region_set = region-set;
                access_key_set = env_var-set (chars "KEHRKRAFT_BACKUP_ACCESS_KEY") a ea;
                secret_key_set = env_var-set (chars "KEHRKRAFT_BACKUP_SECRET_KEY") k ek;
                passphrase_set = env_var-set (chars "KEHRKRAFT_BACKUP_PASSPHRASE") p ep;
                prefix_valid = ok;
                max_age_lt = lt;
              },
              record {
                bucket_is = bucket;
                access_key_is = ea;
                secret_key_is = ek;
                passphrase_is = ep;
                region_is = refl;
                endpoint_is = refl;
                prefix_is = refl;
                age_is = age;
              },
            )
          ]
        ]
      ]
    ]
  ]

  -- Just one of three cases holds, by the variables: the bucket is not set, and backups are disabled;
  -- it is set and something else is missing or unusable, and a configuration error is returned; or
  -- nothing is, and the configuration holds what the variables say, with credentials and a
  -- passphrase that are not empty, a valid prefix and an age below 2^64.
  pub from_env-IsRead :
      ((env_var env (chars "KEHRKRAFT_BACKUP_BUCKET") ≡ none) × (from_env debug env ≡ done none))
      ⊎ (((c : Config) × (from_env debug env ≡ done (some c)) × IsConfig c × IsRead c × (¬ Lacks))
          ⊎ ((env_var env (chars "KEHRKRAFT_BACKUP_BUCKET") ≢ none)
              × Lacks
              × IsRefused (from_env debug env)))
  unfolding from_env
  from_env-IsRead = elim (Option-cases (env_var env (chars "KEHRKRAFT_BACKUP_BUCKET"))) [
    | inl e ↦ inl (e, rw e refl)
    | inr (b, e) ↦ elim (enabled_lem b e (env_var-set (chars "KEHRKRAFT_BACKUP_BUCKET") b e)) [
      | inl (c, done_c, is, read) ↦
          inr (inl (c, rw (e, done_c) refl, is, read, IsRead-Lacks c is read))
      | inr (refused, lacks) ↦ inr (inr (λ n. grind (arith, e, n), lacks, rw e refused))
    ]
  ]
