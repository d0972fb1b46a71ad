-- ===== src/Scheduler/Overlap.antt =====
-- The days that a period has in a week, and the owner of most of a week
-- (`overlap_days`, `majority_owner`, `covers_week` of src/scheduler/mod.rs).
use kehrkraft.Prelude.{
  ℕ, zero, suc, ◌+◌, ◌≤◌, ◌<◌, ◌≡◌, ◌↔◌, ap, ◌∙◌, ◌⊎◌, inl, inr, Bool, true, ◌&&◌, List, [], ◌∷◌,
  Option, none, some, arith, leb, if◌then◌else◌, In, Option-cases,
}
use kehrkraft.Scheduler.{
  DatedPerson, end_or, overlap_days, beats, majority_from, owner_of, majority_owner, covers_week,
}

-- The period contains the day.
abbrev pub covers_day : DatedPerson → ℕ → Bool
covers_day p day = leb p.start day && leb day (end_or p.end day)

-- How many of the `n` days from `day` on the period contains.
abbrev pub count_days : DatedPerson → ℕ → ℕ → ℕ
count_days p day zero = 0
count_days p day (suc n) = count_days p day n + (if covers_day p (day + n) then 1 else 0)

overlap_days_first : (p : DatedPerson) (day : ℕ) → overlap_days p day (day + 0) ≡ count_days p day 1
unfolding overlap_days
overlap_days_first p day = ground arith

overlap_days_step :
    (p : DatedPerson) (day n : ℕ)
    → overlap_days p day (day + suc n)
      ≡ overlap_days p day (day + n) + (if covers_day p (day + suc n) then 1 else 0)
unfolding overlap_days
overlap_days_step p day n = ground arith

overlap_days_count :
    (p : DatedPerson) (day n : ℕ) → overlap_days p day (day + n) ≡ count_days p day (suc n)
overlap_days_count p day zero = overlap_days_first p day
overlap_days_count p day (suc n) =
    overlap_days_step p day n
    ∙ ap (λ k. k + (if covers_day p (day + suc n) then 1 else 0)) (overlap_days_count p day n)

-- `overlap_days` is the number of the week's seven days that lie in the period.
pub overlap_days-count_days :
    (p : DatedPerson) (week_start : ℕ)
    → overlap_days p week_start (week_start + 6) ≡ count_days p week_start 7
overlap_days-count_days p week_start = overlap_days_count p week_start 6

pub overlap_days-le : (p : DatedPerson) (w : ℕ) → overlap_days p w (w + 6) ≤ 7
unfolding overlap_days
overlap_days-le p w = ground arith

-- A period that contains the week has all its seven days, and no other has.
pub covers_week_iff :
    (p : DatedPerson) (w : ℕ) → (covers_week p w (w + 6) ≡ true) ↔ (overlap_days p w (w + 6) ≡ 7)
unfolding covers_week overlap_days
covers_week_iff p w = ground arith

-- One period ends before the other starts.
abbrev pub IsApart : DatedPerson → DatedPerson → Type 0
IsApart p q =
    ((n : ℕ) × (p.end ≡ some n) × (n < q.start)) ⊎ ((n : ℕ) × (q.end ≡ some n) × (n < p.start))

pub overlap_days_apart :
    (p q : DatedPerson) (w : ℕ)
    → IsApart p q
    → overlap_days p w (w + 6) + overlap_days q w (w + 6) ≤ 7
unfolding overlap_days
overlap_days_apart p q w (inl (n, e, l)) = ground arith
overlap_days_apart p q w (inr (n, e, l)) = ground arith

module _ (week_start week_end : ℕ) where
  abbrev days : DatedPerson → ℕ
  days o = overlap_days o week_start week_end

  abbrev score : Option (DatedPerson × ℕ) → ℕ
  score none = 0
  score (some (_, d)) = d

  abbrev better : DatedPerson → Option (DatedPerson × ℕ) → Option (DatedPerson × ℕ)
  better o best = if leb 4 (days o) && beats (days o) best then some (o, days o) else best

  score-better :
      (o : DatedPerson) (best : Option (DatedPerson × ℕ)) → score best ≤ score (better o best)
  score-better o none = ground arith
  score-better o (some (b, d)) = ground arith

  better-le :
      (o : DatedPerson) (best : Option (DatedPerson × ℕ))
      → 4 ≤ days o
      → days o ≤ score (better o best)
  better-le o none h = ground arith
  better-le o (some (b, d)) h = ground arith

  score-majority_from :
      (best : Option (DatedPerson × ℕ)) (owners : List DatedPerson)
      → score best ≤ score (majority_from best owners week_start week_end)
  unfolding majority_from
  score-majority_from best [] = omega arith
  score-majority_from best (o ∷ owners) =
      omega (arith, score-better o best, score-majority_from (better o best) owners)

  majority_from-le :
      (best : Option (DatedPerson × ℕ)) (owners : List DatedPerson) (o : DatedPerson)
      → In o owners
      → 4 ≤ days o
      → days o ≤ score (majority_from best owners week_start week_end)
  unfolding majority_from
  majority_from-le best [] o m h = absurd m
  majority_from-le best (x ∷ owners) o (inl e) h =
      let le : days x ≤ score (better x best) = better-le x best (ground arith) in
      let up = score-majority_from (better x best) owners in
      let same : days o ≡ days x = ap days e in omega arith
  majority_from-le best (x ∷ owners) o (inr m) h = majority_from-le (better x best) owners o m h

  better-some :
      (o m : DatedPerson) (d : ℕ) (best : Option (DatedPerson × ℕ))
      → better o best ≡ some (m, d)
      → (best ≡ some (m, d)) ⊎ ((m ≡ o) × (d ≡ days m) × (4 ≤ d))
  better-some o m d best h = ground arith

  majority_from-some :
      (best : Option (DatedPerson × ℕ)) (owners : List DatedPerson) (m : DatedPerson) (d : ℕ)
      → majority_from best owners week_start week_end ≡ some (m, d)
      → (best ≡ some (m, d)) ⊎ (In m owners × (d ≡ days m) × (4 ≤ d))
  unfolding majority_from
  majority_from-some best [] m d h = inl h
  majority_from-some best (o ∷ owners) m d h =
      elim (majority_from-some (better o best) owners m d h) [
        | inr (i, e, l) ↦ inr (inr i, e, l)
        | inl b ↦ elim (better-some o m d best b) [
          | inl same ↦ inl same
          | inr (e, f, l) ↦ inr (inl e, f, l)
        ]
      ]

  -- If there is no majority owner, all owners have fewer than four days in the week; else it is one
  -- of the owners, has at least four days, and no owner has more.
  pub majority_owner-cases :
      (owners : List DatedPerson)
      → ((majority_owner owners week_start week_end ≡ none)
          × ((o : DatedPerson) → In o owners → days o < 4))
        ⊎ ((m : DatedPerson) × (majority_owner owners week_start week_end ≡ some m)
            × In m owners
            × (4 ≤ days m)
            × ((o : DatedPerson) → In o owners → days o ≤ days m))
  unfolding majority_owner
  majority_owner-cases owners =
      elim (Option-cases (majority_from none owners week_start week_end)) [
        | inl e ↦
            inl (ap owner_of e, λ o i. ground (arith, majority_from-le none owners o i, ap score e))
        | inr ((m, d), e) ↦ elim (majority_from-some none owners m d e) [
          | inl absent ↦ absurd (ground arith)
          | inr (i, f, l) ↦ inr (
            m,
            ap owner_of e,
            i,
            omega arith,
            λ o j. ground (arith, majority_from-le none owners o j, ap score e),
          )
        ]
      ]
