-- ===== src/Backup/Run/Linked.antt =====
-- The aliases of the bucket and the objects that they name (src/backup/mod.rs).
use kehrkraft.Prelude.{
  some_injective, ℕ, ◌≡◌, ◌≢◌, sym, ◌∙◌, inl, inr, subst, false, List, ◌∷◌, ◌++◌, some, Text,
  text_eq, arith,
}
use kehrkraft.Models.Names.{chars}
use kehrkraft.Backup.Config.{Config}
use kehrkraft.Backup.Naming.{
  Slot, label, part_of, slot_of, slot_object_part, object_name, latest_alias_name,
}
use kehrkraft.Backup.Vault.{Canary, Database, lookup}
use kehrkraft.Backup.Vault.Lookup.{
  lookup-other, lookup-cases, text_eq-final, text_eq-other, final, final-append,
}
use kehrkraft.Backup.Run.{Libraries, name_at}

module _ {Bytes : Type 0} (l : Libraries Bytes) (config : Config) where
  -- A backup that was taken at `t`: encrypted with the passphrase, of a database whose canary says
  -- so.
  pub record IsBackup (t : ℕ) (bytes : Bytes) : Type 0 where
    pub salt : ℕ
    pub database : Database
    pub canary : Canary
    pub is_canary : database.canary ≡ some canary
    pub at_instant : canary.backed_up_at ≡ l.to_rfc3339 t
    pub is_encrypted : bytes ≡ l.encrypt salt (l.vacuum database) config.passphrase

  -- The object under the name for `t` is a backup that was taken at an instant of this name.
  pub record IsStored (name : Text) (objects : List (Text × Bytes)) : Type 0 where
    pub instant : ℕ
    pub bytes : Bytes
    pub is_name : name ≡ name_at l config.prefix instant
    pub is_object : lookup name objects ≡ some bytes
    pub is_backup : IsBackup instant bytes

  -- Every alias names a backup that is stored.
  pub record IsLinked (objects : List (Text × Bytes)) : Type 0 where
    pub linked :
        (slot : Slot) (b : Bytes)
        → lookup (latest_alias_name config.prefix slot) objects ≡ some b
        → (name : Text) × (b ≡ l.as_bytes name) × IsStored name objects

  -- No name is an alias: they end in different letters.
  name-differs :
      (t : ℕ) (slot : Slot)
      → text_eq (name_at l config.prefix t) (latest_alias_name config.prefix slot) ≡ false
  unfolding name_at object_name slot_object_part latest_alias_name
  name-differs t slot =
      text_eq-final config.prefix b'.' (part ++ chars ".db.age") config.prefix b'.'
        (label slot ++ chars "-latest.alias") differ
    where
      part : Text
      part =
          part_of l.num_days_from_sunday l.dec31 (slot_of l.num_days_from_sunday l.dec31 (l.utc t))
            (l.utc t)

      differ :
          final b'.' (part ++ chars ".db.age") ≢ final b'.' (label slot ++ chars "-latest.alias")
      differ e = omega (
        arith,
        e,
        final-append b'.' part b'.' (chars "db.age"),
        final-append b'.' (label slot) b'-' (chars "latest.alias"),
      )

  -- A stored backup stays stored when another one is put.
  put-IsStored :
      (name : Text) (objects : List (Text × Bytes)) (t : ℕ) (bytes : Bytes)
      → IsBackup t bytes
      → IsStored name objects
      → IsStored name ((name_at l config.prefix t, bytes) ∷ objects)
  put-IsStored name objects t bytes is stored =
      elim (lookup-cases name (name_at l config.prefix t) bytes objects) [
        | inl (same, e) ↦ record {
          instant = t;
          bytes = bytes;
          is_name = sym same;
          is_object = e;
          is_backup = is;
        }
        | inr (other, e) ↦ record {
          instant = stored.instant;
          bytes = stored.bytes;
          is_name = stored.is_name;
          is_object = e ∙ stored.is_object;
          is_backup = stored.is_backup;
        }
      ]

  pub name-IsLinked :
      (objects : List (Text × Bytes)) (t : ℕ) (bytes : Bytes)
      → IsBackup t bytes
      → IsLinked objects
      → IsLinked ((name_at l config.prefix t, bytes) ∷ objects)
  name-IsLinked objects t bytes is links = record {
    linked = λ slot b h.
        let key = latest_alias_name config.prefix slot in
        let before =
          sym (lookup-other key (name_at l config.prefix t) bytes objects (name-differs t slot))
          ∙ h in
        let (name, e, stored) = links.linked slot b before in
        (name, e, put-IsStored name objects t bytes is stored);
  }

  -- A name keeps its object when an alias is put.
  pub lookup-alias :
      (objects : List (Text × Bytes)) (t : ℕ) (slot : Slot) (b : Bytes)
      → lookup (name_at l config.prefix t) ((latest_alias_name config.prefix slot, b) ∷ objects)
        ≡ lookup (name_at l config.prefix t) objects
  lookup-alias objects t slot b =
      lookup-other (name_at l config.prefix t) (latest_alias_name config.prefix slot) b objects (
        text_eq-other (name_at l config.prefix t) (latest_alias_name config.prefix slot)
          (name-differs t slot))

  alias-IsStored :
      (name : Text) (objects : List (Text × Bytes)) (slot : Slot) (b : Bytes)
      → IsStored name objects
      → IsStored name ((latest_alias_name config.prefix slot, b) ∷ objects)
  alias-IsStored name objects slot b stored = record {
    instant = stored.instant;
    bytes = stored.bytes;
    is_name = stored.is_name;
    is_object =
        subst
          (λ n. lookup n ((latest_alias_name config.prefix slot, b) ∷ objects) ≡ some stored.bytes)
          (sym stored.is_name)
          (lookup-alias objects stored.instant slot b
            ∙ subst (λ n. lookup n objects ≡ some stored.bytes) stored.is_name stored.is_object);
    is_backup = stored.is_backup;
  }

  pub alias-IsLinked :
      (objects : List (Text × Bytes)) (slot : Slot) (name : Text)
      → IsStored name objects
      → IsLinked objects
      → IsLinked ((latest_alias_name config.prefix slot, l.as_bytes name) ∷ objects)
  alias-IsLinked objects slot name stored links = record {
    linked = λ slot' b h.
        elim (lookup-cases (latest_alias_name config.prefix slot')
          (latest_alias_name config.prefix slot) (l.as_bytes name) objects) [
            | inl (same, e) ↦ (
              name,
              some_injective b (l.as_bytes name) (sym h ∙ e),
              alias-IsStored name objects slot (l.as_bytes name) stored,
            )
            | inr (other, e) ↦
                let (name', eb, stored') = links.linked slot' b (sym e ∙ h) in
                (name', eb, alias-IsStored name' objects slot (l.as_bytes name) stored')
          ];
  }
