-- ===== src/Admin/Seeds.antt =====
-- src/web/admin.rs: the rotation offsets that the page of a building offers.
pub mod Beyond
use kehrkraft.Prelude.{
  ℕ, zero, suc, ◌+◌, ◌≤◌, ◌<◌, ◌≡◌, sym, ap, inl, inr, Bool, true, false, List, [], ◌∷◌, ◌++◌,
  arith, ◌==◌, if◌then◌else◌, any, In, Bool-cases,
}
use native.Mathlib.Nat.{mod-eq_of_lt}
use kehrkraft.Prelude.Int.{ℤ, pos, negsuc, rem_euclid}
use kehrkraft.Calendar.{Calendar}
use kehrkraft.Scheduler.{rotation_index, global_week_index}
use kehrkraft.Scheduler.Rotation.{rem_euclid-lt, rem_euclid-add}

infix 50 ◌=ℤ◌
abbrev pub ◌=ℤ◌ : ℤ → ℤ → Bool
pos a =ℤ pos b = a == b
pos a =ℤ negsuc b = false
negsuc a =ℤ pos b = false
negsuc a =ℤ negsuc b = a == b

-- The options `i` to `i + n - 1`.
unfoldable pub phases : ℤ → ℕ → ℕ → List (ℤ × Bool)
phases current i zero = []
phases current i (suc n) = (pos i, pos i =ℤ current) ∷ phases current (suc i) n

unfoldable pub rotation_seed_options : ℤ → ℕ → List (ℤ × Bool)
rotation_seed_options current apartment_count =
    let options = phases current 0 apartment_count in
    if any (λ o. o.0 =ℤ current) options then options else options ++ (current, true) ∷ []

phases-In :
    (current : ℤ) (n i v : ℕ)
    → i ≤ v
    → v < i + n
    → In (pos v, pos v =ℤ current) (phases current i n)
unfolding phases
phases-In current zero i v h k = absurd (omega (arith, h, k))
phases-In current (suc n) i v h k = elim (Bool-cases (v == i)) [
  | inl t ↦ inl (ap (λ (x : ℕ). (pos x, pos x =ℤ current)) (ground (arith, t)))
  | inr f ↦ inr (phases-In current n (suc i) v (ground (arith, f, h)) (omega (arith, k)))
]

In-left : {A : Type 0} (x : A) (xs ys : List A) → In x xs → In x (xs ++ ys)
In-left x [] ys h = absurd h
In-left x (y ∷ xs) ys (inl e) = inl e
In-left x (y ∷ xs) ys (inr h) = inr (In-left x xs ys h)

options-In :
    (current : ℤ) (n : ℕ) (o : ℤ × Bool)
    → In o (phases current 0 n)
    → In o (rotation_seed_options current n)
unfolding rotation_seed_options
options-In current n o h = either (any (λ p. p.0 =ℤ current) (phases current 0 n))
  where
    either :
        (b : Bool)
        → In o (if b then phases current 0 n else phases current 0 n ++ (current, true) ∷ [])
    either true = h
    either false = In-left o (phases current 0 n) ((current, true) ∷ []) h

same_phase : (seed : ℤ) (n : ℕ) → 0 < n → rem_euclid seed n ≡ rem_euclid (pos (rem_euclid seed n)) n
unfolding rem_euclid
same_phase (pos a) n h = sym (mod-eq_of_lt (rem_euclid-lt (pos a) n h))
same_phase (negsuc a) n h = sym (mod-eq_of_lt (rem_euclid-lt (negsuc a) n h))

-- In a building with n apartments, whatever the stored offset is, one of the options 0 to n - 1 gives
-- every week in which all n are covered the same index.
pub rotation_seed_options_complete :
    (cal : Calendar) (current seed : ℤ) (n : ℕ)
    → 0 < n
    → (v : ℕ) × (v < n)
      × In (pos v, pos v =ℤ current) (rotation_seed_options current n)
      × ((week_start : ℕ)
          → rotation_index cal seed week_start n ≡ rotation_index cal (pos v) week_start n)
unfolding rotation_index
rotation_seed_options_complete cal current seed n n_pos = (
  rem_euclid seed n,
  rem_euclid-lt seed n n_pos,
  options-In current n _ (
      phases-In current n 0 (rem_euclid seed n) (omega arith)
        (omega (arith, rem_euclid-lt seed n n_pos))),
  λ w.
      rem_euclid-add n n_pos seed (pos (rem_euclid seed n)) (same_phase seed n n_pos)
        (global_week_index cal w),
)
