-- ===== src/Backup/Vault/Ends.antt =====
-- What holds when a run ends: rules for the steps of `Run`. `Q` is of a result that is returned, `E`
-- of an error (or of none, where the deadline passes); no run panics.
use kehrkraft.Prelude.{ℕ, List, [], ◌∷◌, Option, none, some}
use kehrkraft.Backup.Config.{BackupError, Attempt, done, failed, dropped, panicked}
use kehrkraft.Backup.Vault.{
  Event, returns, fails, fails_after, elapses, elapses_after, Vault, Run, continue, next, await,
  happens, ignored, handled,
}

module _ {Bytes : Type 0} where
  unfoldable pub Ends :
      {A : Type 0}
      → (Option BackupError → Vault Bytes → Type 0)
      → (A → Vault Bytes → Type 0)
      → Attempt A × Vault Bytes
      → Type 0
  Ends E Q (done a, v) = Q a v
  Ends E Q (failed e, v) = E (some e) v
  Ends E Q (dropped, v) = E none v
  Ends E Q (panicked, v) = ⊥

  module _ (E : Option BackupError → Vault Bytes → Type 0) where
    pub done-Ends :
        {A : Type 0} (Q : A → Vault Bytes → Type 0) (a : A) (v : Vault Bytes)
        → Q a v
        → Ends E Q (done a, v)
    unfolding Ends
    done-Ends Q a v h = h

    pub failed-Ends :
        {A : Type 0} (Q : A → Vault Bytes → Type 0) (e : BackupError) (v : Vault Bytes)
        → E (some e) v
        → Ends E Q (failed e, v)
    unfolding Ends
    failed-Ends Q e v h = h

    pub dropped-Ends :
        {A : Type 0} (Q : A → Vault Bytes → Type 0) (v : Vault Bytes)
        → E none v
        → Ends E Q (dropped, v)
    unfolding Ends
    dropped-Ends Q v h = h

    pub bind-Ends :
        {A B : Type 0} (P : A → Vault Bytes → Type 0) (Q : B → Vault Bytes → Type 0)
        (f : A → Run Bytes B) (r : Attempt A × Vault Bytes)
        → Ends E P r
        → ((a : A) (v : Vault Bytes) → P a v → Ends E Q (f a v))
        → Ends E Q (continue f r)
    unfolding Ends
    bind-Ends P Q f (done a, v) h k = k a v h
    bind-Ends P Q f (failed e, v) h k = h
    bind-Ends P Q f (dropped, v) h k = h
    bind-Ends P Q f (panicked, v) h k = h

    pub ignored-Ends :
        {A : Type 0} (P : A → Vault Bytes → Type 0) (Q : Unit {0} → Vault Bytes → Type 0)
        (r : Attempt A × Vault Bytes)
        → Ends E P r
        → ((a : A) (v : Vault Bytes) → P a v → Q tt v)
        → ((e : BackupError) (v : Vault Bytes) → E (some e) v → Q tt v)
        → Ends E Q (ignored r)
    unfolding Ends
    ignored-Ends P Q (done a, v) h p e = p a v h
    ignored-Ends P Q (failed c, v) h p e = e c v h
    ignored-Ends P Q (dropped, v) h p e = h
    ignored-Ends P Q (panicked, v) h p e = h

    pub handled-Ends :
        {A : Type 0} (Q : A → Vault Bytes → Type 0) (c : BackupError → Run Bytes A)
        (r : Attempt A × Vault Bytes)
        → Ends E Q r
        → ((e : BackupError) (v : Vault Bytes) → E (some e) v → Ends E Q (c e v))
        → Ends E Q (handled c r)
    unfolding Ends
    handled-Ends Q c (done a, v) h k = h
    handled-Ends Q c (failed e, v) h k = k e v h
    handled-Ends Q c (dropped, v) h k = h
    handled-Ends Q c (panicked, v) h k = h

  pub weaken-Ends :
      (E F : Option BackupError → Vault Bytes → Type 0) {A : Type 0} (Q : A → Vault Bytes → Type 0)
      (r : Attempt A × Vault Bytes)
      → ((o : Option BackupError) (v : Vault Bytes) → E o v → F o v)
      → Ends E Q r
      → Ends F Q r
  unfolding Ends
  weaken-Ends E F Q (done a, v) k h = h
  weaken-Ends E F Q (failed e, v) k h = k (some e) v h
  weaken-Ends E F Q (dropped, v) k h = k none v h
  weaken-Ends E F Q (panicked, v) k h = h

  -- `E` holds where a call whose errors `wrap` converts fails or is dropped.
  abbrev pub AtFailure :
      (Option BackupError → Vault Bytes → Type 0) → (ℕ → BackupError) → Vault Bytes → Type 0
  AtFailure E wrap v = ((e : ℕ) → E (some (wrap e)) v) × E none v

  -- An awaited step ends well if it does where it returns, and `E` holds without and with its
  -- effect.
  pub await-Ends :
      (E : Option BackupError → Vault Bytes → Type 0) {A : Type 0} (Q : A → Vault Bytes → Type 0)
      (wrap : ℕ → BackupError) (m : Run Bytes A) (v : Vault Bytes)
      → ((es : List Event) → Ends E Q (m (next es v)))
      → ((es : List Event) → AtFailure E wrap (next es v))
      → ((es : List Event) → AtFailure E wrap (m (next es v)).1)
      → Ends E Q (await wrap m v)
  unfolding await
  await-Ends E Q wrap m v after before beside = by_events v.events (after v.events)
    where
      by_events : (es : List Event) → Ends E Q (m v) → Ends E Q (happens wrap m es v)
      by_events [] h = h
      by_events (returns ∷ es) h = after es
      by_events (fails e ∷ es) h = failed-Ends E Q (wrap e) (next es v) ((before es).0 e)
      by_events (fails_after e ∷ es) h =
          failed-Ends E Q (wrap e) (m (next es v)).1 ((beside es).0 e)
      by_events (elapses ∷ es) h = dropped-Ends E Q (next es v) (before es).1
      by_events (elapses_after ∷ es) h = dropped-Ends E Q (m (next es v)).1 (beside es).1
