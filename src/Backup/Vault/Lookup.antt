-- ===== src/Backup/Vault/Lookup.antt =====
-- Tables of texts after an entry is put, and texts that end in different characters.
use kehrkraft.Prelude.{
  ℕ, ◌≡◌, ◌≢◌, refl, ap, ◌∙◌, sym, ◌⊎◌, inl, inr, false, List, [], ◌∷◌, ◌++◌, some, Text, text_eq,
  text_eq_sound, text_eq_refl, Bool-cases, subst, arith,
}
use kehrkraft.Backup.Vault.{lookup}

module _ {A : Type 0} where
  pub lookup-same :
      (key : Text) (a : A) (rows : List (Text × A)) → lookup key ((key, a) ∷ rows) ≡ some a
  unfolding lookup
  lookup-same key a rows = rw (text_eq_refl key) refl

  pub lookup-other :
      (key k : Text) (a : A) (rows : List (Text × A))
      → text_eq k key ≡ false
      → lookup key ((k, a) ∷ rows) ≡ lookup key rows
  unfolding lookup
  lookup-other key k a rows h = rw h refl

  -- The entry that is found is the new one, or it was there.
  pub lookup-cases :
      (key k : Text) (a : A) (rows : List (Text × A))
      → ((k ≡ key) × (lookup key ((k, a) ∷ rows) ≡ some a))
        ⊎ ((text_eq k key ≡ false) × (lookup key ((k, a) ∷ rows) ≡ lookup key rows))
  unfolding lookup
  lookup-cases key k a rows = elim (Bool-cases (text_eq k key)) [
    | inl same ↦ inl (text_eq_sound k key same, rw same refl)
    | inr other ↦ inr (other, rw other refl)
  ]

-- The last character, of a text with a first one.
abbrev pub final : ℕ → Text → ℕ
final c [] = c
final c (d ∷ s) = final d s

pub final-append : (c : ℕ) (s : Text) (d : ℕ) (t : Text) → final c (s ++ (d ∷ t)) ≡ final d t
final-append c [] d t = refl
final-append c (e ∷ s) d t = final-append e s d t

pub text_eq-final :
    (s : Text) (c : ℕ) (s' : Text) (t : Text) (d : ℕ) (t' : Text)
    → final c s' ≢ final d t'
    → text_eq (s ++ (c ∷ s')) (t ++ (d ∷ t')) ≡ false
text_eq-final s c s' t d t' differ = elim (Bool-cases (text_eq (s ++ (c ∷ s')) (t ++ (d ∷ t')))) [
  | inr other ↦ other
  | inl same ↦ absurd (
      differ (
        sym (final-append 0 s c s')
        ∙ ap (final 0) (text_eq_sound (s ++ (c ∷ s')) (t ++ (d ∷ t')) same)
        ∙ final-append 0 t d t'))
]

pub text_eq-other : (s t : Text) → text_eq s t ≡ false → text_eq t s ≡ false
text_eq-other s t h = elim (Bool-cases (text_eq t s)) [
  | inl same ↦ absurd (
      ground
        (arith, sym (text_eq_refl s) ∙ subst (λ u. text_eq s u ≡ false) (text_eq_sound t s same) h))
  | inr other ↦ other
]
