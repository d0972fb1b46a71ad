-- ===== src/Scheduler/Rotation.antt =====
-- The rotation of src/scheduler/mod.rs: `global_week_index` and the index that it gives.
use native.Mathlib.Nat.{mod-lt, mod-eq_of_lt, mod-add-mod, mod_self, mod-eq-sub-mod, add-zero}
use native.Mathlib.Numerals.{add-one}
use kehrkraft.Prelude.{
  ℕ, zero, suc, ◌+◌, ◌-◌, ◌*◌, ◌%◌, ◌≤◌, ◌<◌, ◌≡◌, refl, sym, ap, ◌∙◌, ◌⊎◌, inl, inr, arith,
}
use kehrkraft.Prelude.Int.{ℤ, pos, negsuc, sub_ℕ, ◌+ℤ◌, div_ℤ, rem_euclid}
use kehrkraft.Calendar.{Calendar}
use kehrkraft.Scheduler.{global_week_index, rotation_index}

suc_mod_cases : (a m : ℕ) → 0 < m → (suc (a % m) < m) ⊎ (suc (a % m) ≡ m)
suc_mod_cases a m h = grind (arith, mod-lt)

suc_mod_eq : (a m : ℕ) → suc a % m ≡ suc (a % m) % m
suc_mod_eq a m = let e = mod-add-mod a m 1 in rw (← add-one a, ← add-one (a % m)) (sym e)

suc_mod :
    (a m : ℕ)
    → 0 < m
    → ((suc (a % m) < m) × (suc a % m ≡ suc (a % m))) ⊎ ((suc (a % m) ≡ m) × (suc a % m ≡ 0))
suc_mod a m h = elim (suc_mod_cases a m h) [
  | inl lt ↦ inl (lt, suc_mod_eq a m ∙ mod-eq_of_lt lt)
  | inr e ↦ inr (e, suc_mod_eq a m ∙ ap (λ k. k % m) e ∙ mod_self m)
]

pub rem_euclid-lt : (z : ℤ) (m : ℕ) → 0 < m → rem_euclid z m < m
unfolding rem_euclid
rem_euclid-lt (pos n) m h = grind (arith, mod-lt)
rem_euclid-lt (negsuc n) m h = grind (arith, mod-lt)

suc_mod_eq_add : (a m : ℕ) → (a + 1) % m ≡ (a % m + 1) % m
suc_mod_eq_add a m = sym (mod-add-mod a m 1)

rest : (n m : ℕ) → 0 < m → suc (n % m) ≡ m → m - 1 - n % m ≡ (m - 1 - 0 + 1) % m
rest n m h e = let whole : m - 1 - 0 + 1 ≡ m = omega arith in rw (whole, mod_self) (omega arith)

abbrev pub one : ℤ
one = pos 1

pos_add_one : (n : ℕ) → pos n +ℤ one ≡ pos (n + 1)
unfolding ◌+ℤ◌
pos_add_one n = ground arith

negsuc_add_one : (n : ℕ) → negsuc (suc n) +ℤ one ≡ negsuc n
unfolding ◌+ℤ◌
negsuc_add_one n = ground arith

zero_add_one : negsuc 0 +ℤ one ≡ pos 0
unfolding ◌+ℤ◌
zero_add_one = refl

-- Stepping an integer by one steps its remainder by one, round and round.
pub rem_euclid-suc : (z : ℤ) (m : ℕ) → 0 < m → rem_euclid (z +ℤ one) m ≡ (rem_euclid z m + 1) % m
unfolding rem_euclid
rem_euclid-suc (pos n) m h = rw pos_add_one (suc_mod_eq_add n m)
rem_euclid-suc (negsuc zero) m h = rw zero_add_one (grind (arith, mod_self))
rem_euclid-suc (negsuc (suc n)) m h = rw negsuc_add_one (elim (suc_mod n m h) [
  | inl (lt, e) ↦ rw e (sym (mod-eq_of_lt (omega arith) ∙ omega arith))
  | inr (e, z) ↦ rw z (rest n m h e)
])

+ℤ_one : (a b : ℤ) → a +ℤ (b +ℤ one) ≡ (a +ℤ b) +ℤ one
unfolding ◌+ℤ◌
+ℤ_one a b = ground arith

pub +ℤ_zero : (a : ℤ) → a +ℤ pos 0 ≡ a
unfolding ◌+ℤ◌
+ℤ_zero a = ground arith

div_ℤ_step : (a e : ℕ) → a % 7 ≡ e % 7 → div_ℤ (sub_ℕ (a + 7) e) 7 ≡ div_ℤ (sub_ℕ a e) 7 +ℤ one
unfolding div_ℤ ◌+ℤ◌
div_ℤ_step a e h = ground arith

below_or_above : (a m : ℕ) → (a < m) ⊎ (m ≤ a)
below_or_above a m = grind arith

-- The remainder of a sum of two numbers, the first below the modulus, the second no larger.
mod_cases :
    (a k m : ℕ) → a < m → k ≤ m → ((a + k) % m ≡ a + k) ⊎ ((m ≤ a + k) × ((a + k) % m ≡ a + k - m))
mod_cases a k m ha hk = elim (below_or_above (a + k) m) [
  | inl lt ↦ inl (mod-eq_of_lt lt)
  | inr le ↦ inr (le, mod-eq-sub-mod le ∙ mod-eq_of_lt (omega arith))
]

add_mod_inj : (a b k m : ℕ) → a < m → b < m → k ≤ m → (a + k) % m ≡ (b + k) % m → a ≡ b
add_mod_inj a b k m ha hb hk e = omega (arith, mod_cases a k m ha hk, mod_cases b k m hb hk)

add_mod_inj_right : (k a b m : ℕ) → k < m → a < m → b < m → (k + a) % m ≡ (k + b) % m → a ≡ b
add_mod_inj_right k a b m hk ha hb e =
    omega (arith, mod_cases k a m hk (omega arith), mod_cases k b m hk (omega arith))

pub +ℤ_pos_suc : (a : ℤ) (n : ℕ) → a +ℤ pos (suc n) ≡ (a +ℤ pos n) +ℤ one
unfolding ◌+ℤ◌
+ℤ_pos_suc a n = ground arith

pub +ℤ_negsuc_zero : (a : ℤ) → (a +ℤ negsuc 0) +ℤ one ≡ a
unfolding ◌+ℤ◌
+ℤ_negsuc_zero a = ground arith

pub +ℤ_negsuc_suc : (a : ℤ) (n : ℕ) → (a +ℤ negsuc (suc n)) +ℤ one ≡ a +ℤ negsuc n
unfolding ◌+ℤ◌
+ℤ_negsuc_suc a n = ground arith

pub rem_euclid-back :
    (x y : ℤ) (m : ℕ)
    → 0 < m
    → rem_euclid (x +ℤ one) m ≡ rem_euclid (y +ℤ one) m
    → rem_euclid x m ≡ rem_euclid y m
rem_euclid-back x y m h e =
    add_mod_inj _ _ 1 m (rem_euclid-lt x m h) (rem_euclid-lt y m h) h
      (sym (rem_euclid-suc x m h) ∙ e ∙ rem_euclid-suc y m h)

-- Integers with one remainder keep one remainder when the same is added to both.
module _ (m : ℕ) (m_pos : 0 < m) (a b : ℤ) (same : rem_euclid a m ≡ rem_euclid b m) where
  rem_euclid-add_pos : (n : ℕ) → rem_euclid (a +ℤ pos n) m ≡ rem_euclid (b +ℤ pos n) m
  rem_euclid-add_pos zero = rw (+ℤ_zero a, +ℤ_zero b) same
  rem_euclid-add_pos (suc n) =
      rw
        (
          +ℤ_pos_suc a n,
          +ℤ_pos_suc b n,
          rem_euclid-suc (a +ℤ pos n) m m_pos,
          rem_euclid-suc (b +ℤ pos n) m m_pos,
        )
        (ap (λ r. (r + 1) % m) (rem_euclid-add_pos n))

  rem_euclid-add_negsuc : (n : ℕ) → rem_euclid (a +ℤ negsuc n) m ≡ rem_euclid (b +ℤ negsuc n) m
  rem_euclid-add_negsuc zero =
      rem_euclid-back _ _ m m_pos (rw (+ℤ_negsuc_zero a, +ℤ_negsuc_zero b) same)
  rem_euclid-add_negsuc (suc n) =
      rem_euclid-back _ _ m m_pos
        (rw (+ℤ_negsuc_suc a n, +ℤ_negsuc_suc b n) (rem_euclid-add_negsuc n))

  pub rem_euclid-add : (g : ℤ) → rem_euclid (a +ℤ g) m ≡ rem_euclid (b +ℤ g) m
  rem_euclid-add (pos n) = rem_euclid-add_pos n
  rem_euclid-add (negsuc n) = rem_euclid-add_negsuc n

-- The number of steps from index `r` to index `i`, round `n`.
turn_of : (r i n : ℕ) → r < n → i < n → (k : ℕ) × (k < n) × ((r + k) % n ≡ i)
turn_of r i n hr hi = elim (below_or_above i r) [
  | inl lt ↦ (i + n - r, omega arith, omega (arith, mod_cases r (i + n - r) n hr (omega arith)))
  | inr le ↦ (i - r, omega arith, omega (arith, mod_cases r (i - r) n hr (omega arith)))
]

module _ (cal : Calendar) where
  open cal use {week_one, weeks, week_one-suc, from_ymd, from_ymd_epoch}

  abbrev pub IsMonday : ℕ → Type 0
  IsMonday day = day % 7 ≡ from_ymd 2020 1 6 % 7

  week_one_aligned : (y : ℕ) → week_one y % 7 ≡ week_one 0 % 7
  week_one_aligned zero = refl
  week_one_aligned (suc y) = omega (arith, week_one_aligned y, week_one-suc y)

  pub week_one-IsMonday : (y : ℕ) → IsMonday (week_one y)
  week_one-IsMonday y = omega (arith, week_one_aligned y, week_one_aligned 2020, from_ymd_epoch)

  module _ (seed : ℤ) (n : ℕ) (n_pos : 0 < n) where
    pub rotation_index-lt : (w : ℕ) → rotation_index cal seed w n < n
    unfolding rotation_index
    rotation_index-lt w = rem_euclid-lt _ n n_pos

    pub rotation_index-next :
        (w : ℕ)
        → IsMonday w
        → rotation_index cal seed (w + 7) n ≡ (rotation_index cal seed w n + 1) % n
    unfolding rotation_index global_week_index
    rotation_index-next w h =
        rw (div_ℤ_step w (from_ymd 2020 1 6) h, +ℤ_one) (rem_euclid-suc _ n n_pos)

    pub rotation_index_after :
        (k w : ℕ)
        → IsMonday w
        → rotation_index cal seed (w + 7 * k) n ≡ (rotation_index cal seed w n + k) % n
    rotation_index_after zero w h =
        let here : w + 7 * 0 ≡ w = omega arith in
        rw (here, add-zero (rotation_index cal seed w n)) (sym (mod-eq_of_lt (rotation_index-lt w)))
    rotation_index_after (suc k) w h =
        let next : w + 7 * suc k ≡ (w + 7 * k) + 7 = omega arith in
        let monday : IsMonday (w + 7 * k) = omega arith in
        rw (next, rotation_index-next (w + 7 * k) monday, rotation_index_after k w h)
          (mod-add-mod _ n 1 ∙ ap (λ t. t % n) (omega arith))

    -- Among the `n` weeks from a Monday on, each of the `n` indices comes exactly once.
    pub rotation_fair :
        (w i : ℕ)
        → IsMonday w
        → i < n
        → (k : ℕ) × (k < n)
          × (rotation_index cal seed (w + 7 * k) n ≡ i)
          × ((j : ℕ) → j < n → rotation_index cal seed (w + 7 * j) n ≡ i → j ≡ k)
    rotation_fair w i h lt =
        let r = rotation_index cal seed w n in
        let r_lt : r < n = rotation_index-lt w in
        let (k, k_lt, e) = turn_of r i n r_lt lt in
        (
          k,
          k_lt,
          rotation_index_after k w h ∙ e,
          λ j j_lt f.
              add_mod_inj_right r j k n r_lt j_lt k_lt
                (sym (rotation_index_after j w h) ∙ f ∙ sym e),
        )
