-- ===== src/Backup/Verify/Laws.antt =====
-- The verification of a backup that a run has stored (src/backup/mod.rs).
use kehrkraft.Prelude.{
  ℕ, ◌-◌, ◌*◌, ◌/◌, ◌^◌, ◌≡◌, ◌≤◌, refl, ◌∙◌, ap, true, false, [], ◌∷◌, ◌++◌, some, Text, text_eq,
  arith, append_assoc, subst, lt→ltb, all,
}
use kehrkraft.Prelude.Int.{pos}
use kehrkraft.Models.Names.{chars, trim, is_empty, is_whitespace}
use kehrkraft.Strings.Trim.{trim_id}
use kehrkraft.Backup.Config.{done, Config, is_valid_prefix, is_prefix_char}
use kehrkraft.Backup.Naming.{hourly, latest_alias_name, object_name, slot_object_part}
use kehrkraft.Backup.Vault.{Canary, Database, Vault, lookup, next, await, get}
use kehrkraft.Backup.Run.{Libraries, Draw, stored, slot_at, name_at, run_once}
use kehrkraft.Backup.Run.Laws.{run_once-stored}
use kehrkraft.Backup.Run.Linked.{IsBackup, IsLinked}
use kehrkraft.Backup.Verify.{
  as_i64, is_older, latest_name, decrypted, inspect, check_age, verify_plaintext, verify,
}

-- The instant without its fraction of a second.
abbrev pub whole_seconds : ℕ → ℕ
whole_seconds t = t / 1000000000 * 1000000000

-- What the libraries document: readers that read what is written, an instant without its fraction of
-- a second, and the number of nanoseconds in as many hours as a duration holds.
pub record IsDocumented {Bytes : Type 0} (l : Libraries Bytes) : Type 0 where
  pub parses : (t : ℕ) → l.parse_from_rfc3339 (l.to_rfc3339 t) ≡ some (whole_seconds t)
  pub decodes : (s : Text) → l.from_utf8 (l.as_bytes s) ≡ some s
  pub decrypts : (salt : ℕ) (b : Bytes) (p : Text) → l.decrypt (l.encrypt salt b p) p ≡ some b
  pub connects : (d : Database) → l.connect (l.vacuum d) ≡ some d
  pub is_integral : (d : Database) → l.integrity_check (l.vacuum d) ≡ chars "ok"
  pub seconds : (h : ℕ) → h ≤ 2562047788015 → l.hours (pos h) ≡ some (pos (3600000000000 * h))

prefix_char-lem : (c : ℕ) → is_prefix_char c ≡ true → is_whitespace c ≡ false
unfolding is_whitespace
prefix_char-lem c h = ground (arith, h)

as_i64-pos : (n : ℕ) → n ≤ 2562047788015 → as_i64 n ≡ pos n
as_i64-pos n h = rw (lt→ltb n (2 ^ 63) (omega (arith, h))) refl

is_older-fresh : (age limit : ℕ) → age ≤ limit → is_older age (pos limit) ≡ false
is_older-fresh age limit h = ground (arith, h)

all-first : (c : ℕ) (s : Text) → all is_prefix_char (c ∷ s) ≡ true → is_prefix_char c ≡ true
all-first c s h = ground (arith, h)

-- A name with a valid prefix has no white space at its ends.
trim-name :
    (prefix part : Text)
    → is_valid_prefix prefix ≡ true
    → trim (prefix ++ (b'.' ∷ (part ++ chars ".db.age")))
      ≡ prefix ++ (b'.' ∷ (part ++ chars ".db.age"))
unfolding is_valid_prefix is_whitespace
trim-name [] part h = absurd (ground (arith, h))
trim-name (c ∷ s) part h =
    subst (λ t. trim (c ∷ t) ≡ c ∷ t) end
      (trim_id c (s ++ (b'.' ∷ (part ++ chars ".db.ag"))) b'e' (prefix_char-lem c (all-first c s h))
        refl)
  where
    end :
        (s ++ (b'.' ∷ (part ++ chars ".db.ag"))) ++ chars "e"
        ≡ s ++ (b'.' ∷ (part ++ chars ".db.age"))
    end =
        append_assoc s (b'.' ∷ (part ++ chars ".db.ag")) (chars "e")
        ∙ ap (λ t. s ++ (b'.' ∷ t)) (append_assoc part (chars ".db.ag") (chars "e"))

name-filled :
    (prefix rest : Text) → is_valid_prefix prefix ≡ true → is_empty (prefix ++ rest) ≡ false
unfolding is_valid_prefix
name-filled [] rest h = absurd (ground (arith, h))
name-filled (c ∷ s) rest h = refl

module _ {Bytes : Type 0} (l : Libraries Bytes) (laws : IsDocumented l) (config : Config) where
  -- With no failures, an object is got where it is listed.
  get-lookup :
      (key : Text) (v : Vault Bytes) (b : Bytes)
      → lookup key v.objects ≡ some b
      → get key (next [] v) ≡ (done b, next [] v)
  unfolding get await
  get-lookup key v b h = rw h refl

  decrypted-encrypt :
      (salt : ℕ) (b : Bytes) (v : Vault Bytes)
      → decrypted l config.passphrase (l.encrypt salt b config.passphrase) (next [] v)
        ≡ (done b, next [] v)
  unfolding decrypted await
  decrypted-encrypt salt b v = rw (laws.decrypts salt b config.passphrase) refl

  inspect-vacuum :
      (name : Text) (d : Database) (v : Vault Bytes)
      → inspect l name (l.vacuum d) (next [] v) ≡ (done d.canary, next [] v)
  unfolding inspect await text_eq
  inspect-vacuum name d v = rw (laws.connects d, laws.is_integral d) refl

  check_age-fresh :
      (now t : ℕ) (v : Vault Bytes)
      → config.max_age_hours ≤ 2562047788015
      → now - whole_seconds t ≤ 3600000000000 * config.max_age_hours
      → check_age l config now (l.to_rfc3339 t) v ≡ (done tt, v)
  unfolding check_age
  check_age-fresh now t v bound fresh =
      rw
        (
          laws.parses t,
          as_i64-pos config.max_age_hours bound,
          laws.seconds config.max_age_hours bound,
          is_older-fresh (now - whole_seconds t) (3600000000000 * config.max_age_hours) fresh,
        )
        refl

  latest_name-stored :
      (alias : Text) (t : ℕ) (v : Vault Bytes)
      → is_valid_prefix config.prefix ≡ true
      → lookup alias v.objects ≡ some (l.as_bytes (name_at l config.prefix t))
      → latest_name l alias (next [] v) ≡ (done (name_at l config.prefix t), next [] v)
  unfolding latest_name name_at object_name
  latest_name-stored alias t v valid h =
      rw
        (
          get-lookup alias v (l.as_bytes name) h,
          laws.decodes name,
          trim-name config.prefix part valid,
          name-filled config.prefix (b'.' ∷ (part ++ chars ".db.age")) valid,
        )
        refl
    where
      part : Text
      part = slot_object_part l.num_days_from_sunday l.dec31 (l.utc t)

      name : Text
      name = config.prefix ++ (b'.' ∷ (part ++ chars ".db.age"))

  plaintext-verified :
      (nonce name : Text) (now t : ℕ) (d : Database) (row : Canary) (v : Vault Bytes)
      → d.canary ≡ some row
      → row.backed_up_at ≡ l.to_rfc3339 t
      → config.max_age_hours ≤ 2562047788015
      → now - whole_seconds t ≤ 3600000000000 * config.max_age_hours
      → (verify_plaintext l config nonce now name (l.vacuum d) (next [] v)).0 ≡ done tt
  unfolding verify_plaintext await
  plaintext-verified nonce name now t d row v is at bound fresh =
      rw (inspect-vacuum name d (record v { files = (path, l.vacuum d) ∷ v.files }), is, at)
        (ap (λ r. r.0) (check_age-fresh now t _ bound fresh))
    where
      path : Text
      path = l.in_temp_dir (chars "kehrkraft-verify-" ++ (nonce ++ chars ".db"))

  -- The hourly alias names a backup of the instant.
  linked-verified :
      (nonce : Text) (now later : ℕ) (v : Vault Bytes) (bytes : Bytes)
      → is_valid_prefix config.prefix ≡ true
      → config.max_age_hours ≤ 2562047788015
      → lookup (latest_alias_name config.prefix hourly) v.objects
        ≡ some (l.as_bytes (name_at l config.prefix now))
      → lookup (name_at l config.prefix now) v.objects ≡ some bytes
      → IsBackup l config now bytes
      → later - whole_seconds now ≤ 3600000000000 * config.max_age_hours
      → (verify l config nonce later (next [] v)).0 ≡ done tt
  unfolding verify
  linked-verified nonce now later v bytes valid bound alias object is fresh =
      rw
        (
          latest_name-stored (latest_alias_name config.prefix hourly) now v valid alias,
          get-lookup (name_at l config.prefix now) v bytes object,
          is.is_encrypted,
          decrypted-encrypt is.salt (l.vacuum is.database) v,
        )
        (plaintext-verified nonce (name_at l config.prefix now) later now is.database is.canary v
          is.is_canary is.at_instant bound fresh)

  -- Where the prefix is valid, the configured age is at most 2562047788015 hours, the aliases of the
  -- bucket are linked before the run and no call of `verify` fails: a backup that a run has stored in
  -- an hourly slot is verified, while its age since the whole second of the run is at most the
  -- configured one.
  pub verify-run_once :
      (draw : Draw) (nonce : Text) (now later : ℕ) (v : Vault Bytes) (name : Text)
      → is_valid_prefix config.prefix ≡ true
      → config.max_age_hours ≤ 2562047788015
      → IsLinked l config v.objects
      → (run_once l config draw now v).0 ≡ done (stored name)
      → slot_at l now ≡ hourly
      → later - whole_seconds now ≤ 3600000000000 * config.max_age_hours
      → (verify l config nonce later (next [] (run_once l config draw now v).1)).0 ≡ done tt
  verify-run_once draw nonce now later v name valid bound links stores slot fresh =
      let (_, (((_, written), (bytes, is_object, is)), alias)) =
        run_once-stored l config draw now v name links stores in
      linked-verified nonce now later (run_once l config draw now v).1 bytes valid bound
        (subst
          (λ s.
            lookup (latest_alias_name config.prefix s) (run_once l config draw now v).1.objects
            ≡ some (l.as_bytes (name_at l config.prefix now)))
          slot alias)
        is_object is fresh
