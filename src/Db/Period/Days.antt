-- ===== src/Db/Period/Days.antt =====
-- What the checks of the triggers find: the facts that an accepted period has.
use kehrkraft.Prelude.{
  ℕ, ◌+◌, ◌≤◌, ◌<◌, ◌≡◌, ◌≢◌, refl, ap, ◌∙◌, ◌⊎◌, inl, inr, Bool, true, false, List, [], ◌∷◌, ◌++◌,
  Option, none, some, arith, any, filter, In, Bool-cases, Option-cases,
}
use kehrkraft.Db.Period.{
  Period, ErrorCode, last_day, far, overlaps, others, ended_before, max_of, max_end_before,
  started_after, min_of, min_start_after, when, misses_start, misses_end, date_order,
  chain_violations,
}

module _ (p : Period → Bool) where
  pub In-filter : (rows : List Period) (o : Period) → In o rows → p o ≡ true → In o (filter p rows)
  In-filter [] o m h = m
  In-filter (x ∷ rows) o (inl e) h = let h' : p x ≡ true = ground (arith, ap p e) in rw h' (inl e)
  In-filter (x ∷ rows) o (inr m) h = elim (Bool-cases (p x)) [
    | inl t ↦ rw t (inr (In-filter rows o m h))
    | inr f ↦ rw f (In-filter rows o m h)
  ]

  pub of_In-filter :
      (rows : List Period) (o : Period) → In o (filter p rows) → In o rows × (p o ≡ true)
  of_In-filter [] o m = absurd m
  of_In-filter (x ∷ rows) o m = elim (Bool-cases (p x)) [
    | inl t ↦ elim (rw t at m) [
      | inl e ↦ (inl e, ap p e ∙ t)
      | inr m' ↦ let (i, h) = of_In-filter rows o m' in (inr i, h)
    ]
    | inr f ↦ let (i, h) = of_In-filter rows o (rw f at m) in (inr i, h)
  ]

  pub any-false : (rows : List Period) (o : Period) → any p rows ≡ false → In o rows → p o ≡ false
  any-false [] o h m = absurd m
  any-false (x ∷ rows) o h (inl e) = ap p e ∙ ground arith
  any-false (x ∷ rows) o h (inr m) = any-false rows o (ground arith) m

-- Another row of the same subject.
pub record IsOther (new : Period) (rows : List Period) (o : Period) : Type 0 where
  pub listed : In o rows
  pub same_subject : o.subject ≡ new.subject
  pub other_id : o.id ≢ new.id

others-IsOther :
    (new : Period) (rows : List Period) (o : Period) → In o (others new rows) → IsOther new rows o
unfolding others
others-IsOther new rows o m =
    let (i, h) = of_In-filter _ rows o m in
    record { listed = i; same_subject = ground (arith, h); other_id = ground (arith, h) }

pub IsOther-others :
    (new : Period) (rows : List Period) (o : Period) → IsOther new rows o → In o (others new rows)
unfolding others
IsOther-others new rows o h =
    In-filter _ rows o h.listed (ground (arith, h.same_subject, h.other_id))

max_of-some : (a b : Option ℕ) (m : ℕ) → max_of a b ≡ some m → (a ≡ some m) ⊎ (b ≡ some m)
max_of-some none b m h = inr h
max_of-some (some a) none m h = inl h
max_of-some (some a) (some b) m h = grind arith

min_of-some : (a b : Option ℕ) (m : ℕ) → min_of a b ≡ some m → (a ≡ some m) ⊎ (b ≡ some m)
min_of-some none b m h = inr h
min_of-some (some a) none m h = inl h
min_of-some (some a) (some b) m h = grind arith

max_end_before-none :
    (day : ℕ) (rows : List Period) (o : Period) (e : ℕ)
    → max_end_before day rows ≡ none
    → In o rows
    → o.end ≡ some e
    → day ≤ e
unfolding max_end_before
max_end_before-none day [] o e h m f = absurd m
max_end_before-none day (x ∷ rows) o e h (inl same) f =
    let g : x.end ≡ some e = ground (arith, ap (λ (p : Period). p.end) same) in ground arith
max_end_before-none day (x ∷ rows) o e h (inr m) f =
    max_end_before-none day rows o e (ground arith) m f

max_end_before-some :
    (day : ℕ) (rows : List Period) (m : ℕ)
    → max_end_before day rows ≡ some m
    → (m < day) × ((q : Period) × In q rows × (q.end ≡ some m))
unfolding max_end_before
max_end_before-some day [] m h = absurd (ground arith)
max_end_before-some day (x ∷ rows) m h =
    elim (max_of-some (ended_before day x) (max_end_before day rows) m h) [
      | inl here ↦ (ground arith, (x, inl refl, ground arith))
      | inr later ↦
          let (lt, (q, i, e)) = max_end_before-some day rows m later in (lt, (q, inr i, e))
    ]

min_start_after-none :
    (day : ℕ) (rows : List Period) (o : Period)
    → min_start_after day rows ≡ none
    → In o rows
    → o.start ≤ day
unfolding min_start_after
min_start_after-none day [] o h m = absurd m
min_start_after-none day (x ∷ rows) o h (inl same) =
    let g : x.start ≡ o.start = ground (arith, ap (λ (p : Period). p.start) same) in ground arith
min_start_after-none day (x ∷ rows) o h (inr m) = min_start_after-none day rows o (ground arith) m

min_start_after-some :
    (day : ℕ) (rows : List Period) (m : ℕ)
    → min_start_after day rows ≡ some m
    → (day < m) × ((q : Period) × In q rows × (q.start ≡ m))
unfolding min_start_after
min_start_after-some day [] m h = absurd (ground arith)
min_start_after-some day (x ∷ rows) m h =
    elim (min_of-some (started_after day x) (min_start_after day rows) m h) [
      | inl here ↦ (ground arith, (x, inl refl, ground arith))
      | inr later ↦
          let (lt, (q, i, e)) = min_start_after-some day rows m later in (lt, (q, inr i, e))
    ]

-- What the triggers guarantee of a row that they let pass: it starts no later than it ends, has
-- no day in common with another row of its subject, and where another row stands before it, or
-- after it, one of those is its neighbour to the day.
pub record IsAccepted (new : Period) (rows : List Period) : Type 0 where
  pub ordered : new.start ≤ last_day new
  pub apart :
      (o : Period) → IsOther new rows o → (last_day o < new.start) ⊎ (last_day new < o.start)
  pub previous :
      (o : Period)
      → IsOther new rows o
      → last_day o < new.start
      → (q : Period) × IsOther new rows q × (last_day q + 1 ≡ new.start)
  pub following :
      (o : Period)
      → IsOther new rows o
      → last_day new < o.start
      → (q : Period) × IsOther new rows q × (q.start ≡ last_day new + 1)

module _ (new : Period) (rows : List Period) (within : new.start ≤ far) where
  date_order-le : date_order new ≡ [] → new.start ≤ last_day new
  unfolding date_order
  date_order-le h = ground arith

  overlaps_apart :
      any (overlaps new) (others new rows) ≡ false
      → (o : Period) → IsOther new rows o
      → (last_day o < new.start) ⊎ (last_day new < o.start)
  overlaps_apart h o i =
      split o (any-false (overlaps new) (others new rows) o h (IsOther-others new rows o i))
    where
      split :
          (o : Period)
          → overlaps new o ≡ false
          → (last_day o < new.start) ⊎ (last_day new < o.start)
      split o e = unfold overlaps in grind arith

  neighbour_before :
      misses_start new.start (max_end_before new.start (others new rows)) ≡ false
      → (o : Period) → IsOther new rows o
      → last_day o < new.start
      → (q : Period) × IsOther new rows q × (last_day q + 1 ≡ new.start)
  neighbour_before h o i lt = elim (Option-cases (max_end_before new.start (others new rows))) [
    | inl none_found ↦ absurd (too_early none_found (Option-cases o.end))
    | inr (m, found) ↦
        let (lt', (q, j, e)) = max_end_before-some new.start (others new rows) m found in
        let at : misses_start new.start (some m) ≡ false = rw found at h in
        (q, others-IsOther new rows q j, ground arith)
  ]
    where
      too_early :
          max_end_before new.start (others new rows) ≡ none
          → (o.end ≡ none) ⊎ ((e : ℕ) × (o.end ≡ some e))
          → ⊥
      too_early none_found (inl open_ended) = ground arith
      too_early none_found (inr (e, f)) = ground (
        arith,
        max_end_before-none new.start (others new rows) o e none_found (IsOther-others new rows o i)
            f,
      )

  neighbour_after :
      misses_end (last_day new) (min_start_after (last_day new) (others new rows)) ≡ false
      → (o : Period) → IsOther new rows o
      → last_day new < o.start
      → (q : Period) × IsOther new rows q × (q.start ≡ last_day new + 1)
  neighbour_after h o i lt =
      elim (Option-cases (min_start_after (last_day new) (others new rows))) [
        | inl none_found ↦ absurd (
            omega (
              arith,
              min_start_after-none (last_day new) (others new rows) o none_found
                  (IsOther-others new rows o i),
            ))
        | inr (m, found) ↦
            let (lt', (q, j, e)) = min_start_after-some (last_day new) (others new rows) m found in
            let at : misses_end (last_day new) (some m) ≡ false = rw found at h in
            (q, others-IsOther new rows q j, ground arith)
      ]

  when_nil : (b : Bool) (code : ErrorCode) → when b code ≡ [] → b ≡ false
  when_nil true code h = absurd (ground arith)
  when_nil false code h = refl

  append_nil : (a b : List ErrorCode) → a ++ b ≡ [] → (a ≡ []) × (b ≡ [])
  append_nil [] b h = (refl, h)
  append_nil (x ∷ a) b h = absurd (ground arith)

  pub chain_violations-IsAccepted : chain_violations new rows ≡ [] → IsAccepted new rows
  unfolding chain_violations
  chain_violations-IsAccepted h =
      let (h1, t1) = append_nil _ _ h in
      let (h2, t2) = append_nil _ _ t1 in
      let (h3, h4) = append_nil _ _ t2 in
      record {
        ordered = date_order-le h1;
        apart = overlaps_apart (when_nil _ _ h2);
        previous = neighbour_before (when_nil _ _ h3);
        following = neighbour_after (when_nil _ _ h4);
      }
