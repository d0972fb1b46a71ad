-- ===== src/Scheduler/Transition.antt =====
-- A week in which more than two owners follow each other (`majority_owner` of src/scheduler/mod.rs).
use kehrkraft.Prelude.{ℕ, ◌+◌, ◌≤◌, ◌<◌, ◌≡◌, ap, inl, inr, [], ◌∷◌, none, some, arith, In}
use kehrkraft.Scheduler.{DatedPerson, overlap_days, majority_owner}
use kehrkraft.Scheduler.Overlap.{majority_owner-cases}

-- One owner until Wednesday, one on Thursday and Friday, and one from Saturday on: their periods
-- follow each other without a gap, and the week has no owner.
pub three_owners-none :
    (first second third : DatedPerson) (w : ℕ)
    → first.end ≡ some (w + 2)
    → second.start ≡ w + 3
    → second.end ≡ some (w + 4)
    → third.start ≡ w + 5
    → majority_owner (first ∷ second ∷ third ∷ []) w (w + 6) ≡ none
three_owners-none first second third w e f g h =
    elim (majority_owner-cases w (w + 6) (first ∷ second ∷ third ∷ [])) [
      | inl (is_none, _) ↦ is_none
      | inr (m, _, listed, enough, _) ↦ absurd (short m listed enough)
    ]
  where
    days : DatedPerson → ℕ
    days p = overlap_days p w (w + 6)

    short_first : days first < 4
    short_first = unfold overlap_days in ground (arith, e)

    short_second : days second < 4
    short_second = unfold overlap_days in ground (arith, f, g)

    short_third : days third < 4
    short_third = unfold overlap_days in ground (arith, h)

    short : (m : DatedPerson) → In m (first ∷ second ∷ third ∷ []) → 4 ≤ days m → ⊥
    short m (inl s) enough = omega (arith, enough, short_first, ap days s)
    short m (inr (inl s)) enough = omega (arith, enough, short_second, ap days s)
    short m (inr (inr (inl s))) enough = omega (arith, enough, short_third, ap days s)
    short m (inr (inr (inr i))) enough = i
