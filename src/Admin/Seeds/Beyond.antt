-- ===== src/Admin/Seeds/Beyond.antt =====
-- A rotation offset beyond the options of the page of a building (src/web/admin.rs), in the weeks
-- in which the rotation of src/scheduler/mod.rs leaves apartments out.
use kehrkraft.Prelude.{ℕ, zero, suc, ◌<◌, ◌≡◌, ◌≢◌, sym, ◌∙◌, ap, arith, ◌%◌, ◌+◌}
use native.Mathlib.Nat.{mod-eq_of_lt, mod_self}
use kehrkraft.Prelude.Int.{ℤ, pos, negsuc, ◌+ℤ◌, rem_euclid}
use kehrkraft.Calendar.{Calendar}
use kehrkraft.Scheduler.{rotation_index, global_week_index}
use kehrkraft.Scheduler.Rotation.{
  one, rem_euclid-suc, rem_euclid-back, +ℤ_zero, +ℤ_pos_suc, +ℤ_negsuc_zero, +ℤ_negsuc_suc,
}

-- Integers have one remainder if they have one after the same is added to both.
module _ (m : ℕ) (m_pos : 0 < m) (a b : ℤ) where
  cancel_pos :
      (n : ℕ)
      → rem_euclid (a +ℤ pos n) m ≡ rem_euclid (b +ℤ pos n) m
      → rem_euclid a m ≡ rem_euclid b m
  cancel_pos zero e = rw (+ℤ_zero a, +ℤ_zero b) at e
  cancel_pos (suc n) e =
      cancel_pos n (rem_euclid-back _ _ m m_pos (rw (+ℤ_pos_suc a n, +ℤ_pos_suc b n) at e))

  step :
      (x y : ℤ)
      → rem_euclid x m ≡ rem_euclid y m
      → rem_euclid (x +ℤ one) m ≡ rem_euclid (y +ℤ one) m
  step x y e = rem_euclid-suc x m m_pos ∙ ap (λ r. (r + 1) % m) e ∙ sym (rem_euclid-suc y m m_pos)

  cancel_negsuc :
      (n : ℕ)
      → rem_euclid (a +ℤ negsuc n) m ≡ rem_euclid (b +ℤ negsuc n) m
      → rem_euclid a m ≡ rem_euclid b m
  cancel_negsuc zero e = rw (+ℤ_negsuc_zero a, +ℤ_negsuc_zero b) at (step _ _ e)
  cancel_negsuc (suc n) e =
      cancel_negsuc n (rw (+ℤ_negsuc_suc a n, +ℤ_negsuc_suc b n) at (step _ _ e))

  rem_euclid-cancel :
      (g : ℤ) → rem_euclid (a +ℤ g) m ≡ rem_euclid (b +ℤ g) m → rem_euclid a m ≡ rem_euclid b m
  rem_euclid-cancel (pos n) e = cancel_pos n e
  rem_euclid-cancel (negsuc n) e = cancel_negsuc n e

first_option : (n v : ℕ) → v < n → rem_euclid (pos n) n ≡ rem_euclid (pos v) n → v ≡ 0
unfolding rem_euclid
first_option n v h e = sym (mod-eq_of_lt h) ∙ sym e ∙ mod_self n

not_first : (n m : ℕ) → 0 < m → rem_euclid (pos n) m ≡ rem_euclid (pos 0) m → n % m ≡ 0
unfolding rem_euclid
not_first n m h e = e ∙ mod-eq_of_lt h

-- The offset n of a building with n apartments is not as good as one of the options 0 to n - 1: an
-- option that gives some week the same index among n covered apartments gives every week another
-- index among m, if m does not divide n.
pub rotation_seed_beyond :
    (cal : Calendar) (n m v week other : ℕ)
    → v < n
    → 0 < m
    → n % m ≢ 0
    → rotation_index cal (pos n) week n ≡ rotation_index cal (pos v) week n
    → rotation_index cal (pos n) other m ≢ rotation_index cal (pos v) other m
unfolding rotation_index
rotation_seed_beyond cal n m v week other h m_pos apart same equal =
    let first : v ≡ 0 =
      first_option n v h
        (rem_euclid-cancel n (omega arith) (pos n) (pos v) (global_week_index cal week) same) in
    apart (
      not_first n m m_pos (
        rem_euclid-cancel m m_pos (pos n) (pos v) (global_week_index cal other) equal
        ∙ ap (λ (k : ℕ). rem_euclid (pos k) m) first))
