-- ===== src/Db/Period/Removal.antt =====
-- The deletion of a period, and the move of a period behind the others.
use kehrkraft.Prelude.{
  ℕ, ◌+◌, ◌≤◌, ◌<◌, ◌≡◌, ◌≢◌, refl, sym, ap, ◌∙◌, ◌⊎◌, inl, inr, Bool, true, false, ◌&&◌, List, [],
  ◌∷◌, arith, ltb, In, subst, any, some, none,
}
use kehrkraft.Db.Period.{
  Period, last_day, far, chain_violations, replace_row, remove_row, is_middle, others, overlaps,
  date_order, max_end_before, min_start_after,
}
use kehrkraft.Db.Period.Moves.{insert-IsChain}
use kehrkraft.Db.Period.Days.{IsOther, In-filter, of_In-filter, any-false, IsOther-others}
use kehrkraft.Db.Period.Tiling.{IsCovered, IsChain, id_cases}

and_false : (a b : Bool) → a && b ≡ false → (a ≡ false) ⊎ (b ≡ false)
and_false true b h = inr h
and_false false b h = inl refl

module _ (rows : List Period) (chain : IsChain rows) (old : Period) (listed : In old rows)
    (allowed : is_middle old rows ≡ false) where
  abbrev rows' : List Period
  rows' = remove_row old.id rows

  of_remove : (o : Period) → In o rows' → In o rows × (o.id ≢ old.id)
  unfolding remove_row
  of_remove o i = let (j, h) = of_In-filter _ rows o i in (j, λ e. ground (arith, h))

  to_remove : (o : Period) → In o rows → o.id ≢ old.id → In o rows'
  unfolding remove_row
  to_remove o i ne = In-filter _ rows o i (ground arith)

  abbrev ends_before : Period → Bool
  ends_before o = elim o.end [ none ↦ false | some e ↦ ltb e old.start ]

  abbrev starts_after : Period → Bool
  starts_after o = elim old.end [ none ↦ false | some e ↦ ltb e o.start ]

  is_middle_cases :
      is_middle old rows ≡ false
      → (any ends_before (others old rows) ≡ false) ⊎ (any starts_after (others old rows) ≡ false)
  unfolding is_middle
  is_middle_cases h = and_false _ _ h

  -- Not both a row before and a row after the deleted one.
  not_between :
      (o q : Period)
      → IsOther old rows o
      → IsOther old rows q
      → last_day o < old.start
      → last_day old < q.start
      → ⊥
  not_between o q i j lt gt = split (ends_before_cases (is_middle_cases allowed))
    where
      ends_before_cases :
          (any ends_before (others old rows) ≡ false) ⊎ (any starts_after (others old rows) ≡ false)
          → (ends_before o ≡ false) ⊎ (starts_after q ≡ false)
      ends_before_cases (inl h) = inl (any-false _ _ o h (IsOther-others old rows o i))
      ends_before_cases (inr h) = inr (any-false _ _ q h (IsOther-others old rows q j))

      far_old : old.start ≤ far
      far_old = omega (arith, chain.ordered old listed)

      far_q : q.start ≤ far
      far_q = omega (arith, chain.ordered q j.listed)

      split : (ends_before o ≡ false) ⊎ (starts_after q ≡ false) → ⊥
      split (inl h) = ground (arith, far_old, far_q, lt)
      split (inr h) = ground (arith, far_old, far_q, gt)

  keeps :
      (s b : ℕ)
      → IsCovered rows s b
      → (o q : Period) (a c : ℕ) → a ≤ b
      → b ≤ c
      → In o rows'
      → o.subject ≡ s
      → o.start ≤ a
      → a ≤ last_day o
      → In q rows'
      → q.subject ≡ s
      → q.start ≤ c
      → c ≤ last_day q
      → IsCovered rows' s b
  keeps s b r o q a c le le' io so lo ho iq sq lq hq = elim (id_cases r.owner.id old.id) [
    | inr ne ↦ record {
      owner = r.owner;
      listed = to_remove r.owner r.listed ne;
      subject_is = r.subject_is;
      from = r.from;
      to = r.to;
    }
    | inl e ↦ absurd (between (chain.ids r.owner old r.listed listed e))
  ]
    where
      between : r.owner ≡ old → ⊥
      between e =
          not_between o q (other o io (so ∙ sym subject_old)) (other q iq (sq ∙ sym subject_old))
            before after
        where
          subject_old : old.subject ≡ s
          subject_old = ap (λ (p : Period). p.subject) (sym e) ∙ r.subject_is

          lo_old : old.start ≤ b
          lo_old = subst (λ (p : Period). p.start ≤ b) e r.from

          hi_old : b ≤ last_day old
          hi_old = subst (λ (p : Period). b ≤ last_day p) e r.to

          other : (p : Period) → In p rows' → p.subject ≡ old.subject → IsOther old rows p
          other p i f = record {
            listed = (of_remove p i).0;
            same_subject = f;
            other_id = (of_remove p i).1;
          }

          before : last_day o < old.start
          before =
              elim (chain.apart o old (of_remove o io).0 listed (so ∙ sym subject_old)
                (of_remove o io).1) [ inl h ↦ h | inr h ↦ absurd (omega (arith, lo_old, hi_old)) ]

          after : last_day old < q.start
          after =
              elim (chain.apart q old (of_remove q iq).0 listed (sq ∙ sym subject_old)
                (of_remove q iq).1) [ inl h ↦ absurd (omega (arith, lo_old, hi_old)) | inr h ↦ h ]

  -- Deleting a row that does not lie between two others of its subject: the table stays a chain.
  pub remove-IsChain : IsChain (remove_row old.id rows)
  remove-IsChain = record {
    ordered = λ o i. chain.ordered o (of_remove o i).0;
    ids = λ o q i j. chain.ids o q (of_remove o i).0 (of_remove q j).0;
    apart = λ o q i j. chain.apart o q (of_remove o i).0 (of_remove q j).0;
    seamless = λ s a b c le le' x y.
        keeps s b (chain.seamless s a b c le le' (weaken s a x) (weaken s c y)) x.owner y.owner a c
          le le' x.listed x.subject_is x.from x.to y.listed y.subject_is y.from y.to;
  }
    where
      weaken : (s d : ℕ) → IsCovered rows' s d → IsCovered rows s d
      weaken s d x = record {
        owner = x.owner;
        listed = (of_remove x.owner x.listed).0;
        subject_is = x.subject_is;
        from = x.from;
        to = x.to;
      }

no_rows : IsChain []
no_rows = record {
  ordered = λ o i. absurd i;
  ids = λ o q i. absurd i;
  apart = λ o q i. absurd i;
  seamless = λ s a b c le le' covered. absurd covered.listed;
}

-- Three seamless periods of one subject, the middle one of which moves behind the last.
module _ (subject first second third a b c d e : ℕ) where
  abbrev period : ℕ → ℕ → ℕ → Period
  period id from to = record { id = id; subject = subject; start = from; end = some to }

  abbrev pub three : List Period
  three = period first a b ∷ period second (b + 1) c ∷ period third (c + 1) d ∷ []

  abbrev pub moved : Period
  moved = period second (d + 1) e

  module _ (ids : (first ≢ second) × (second ≢ third) × (first ≢ third))
      (order : (a ≤ b) × (b + 1 ≤ c) × (c + 1 ≤ d) × (d + 1 ≤ e) × (e ≤ far)) where
    only_third : IsChain (period third (c + 1) d ∷ [])
    unfolding chain_violations date_order overlaps max_end_before min_start_after others
    only_third =
        insert-IsChain [] no_rows (period third (c + 1) d) (omega arith, omega arith) (ground arith)
          (λ o i. absurd i)

    second_accepted : chain_violations (period second (b + 1) c) (period third (c + 1) d ∷ []) ≡ []
    unfolding chain_violations date_order overlaps max_end_before min_start_after others
    second_accepted = ground arith

    last_two : IsChain (period second (b + 1) c ∷ period third (c + 1) d ∷ [])
    last_two =
        insert-IsChain (period third (c + 1) d ∷ []) only_third (period second (b + 1) c)
          (omega arith, omega arith) second_accepted
          (λ o. elim [
            | inl f ↦ λ same. ground (arith, ids, ap (λ (p : Period). p.id) f, same)
            | inr i ↦ absurd i
          ])

    first_accepted :
        chain_violations (period first a b) (period second (b + 1) c ∷ period third (c + 1) d ∷ [])
        ≡ []
    unfolding chain_violations date_order overlaps max_end_before min_start_after others
    first_accepted = ground arith

    three-IsChain : IsChain three
    three-IsChain =
        insert-IsChain (period second (b + 1) c ∷ period third (c + 1) d ∷ []) last_two
          (period first a b) (omega arith, omega arith) first_accepted
          (λ o. elim [
            | inl f ↦ λ same. ground (arith, ids, ap (λ (p : Period). p.id) f, same)
            | inr (inl f) ↦ λ same. ground (arith, ids, ap (λ (p : Period). p.id) f, same)
            | inr (inr i) ↦ absurd i
          ])

    moved-others : others moved three ≡ period first a b ∷ period third (c + 1) d ∷ []
    unfolding others
    moved-others = ground arith

    moved_accepted : chain_violations moved three ≡ []
    unfolding chain_violations date_order overlaps max_end_before min_start_after
    moved_accepted = rw moved-others (ground arith)

    moved_rows : replace_row moved three ≡ period first a b ∷ moved ∷ period third (c + 1) d ∷ []
    unfolding replace_row
    moved_rows = ground arith

    moved_gap : ¬ IsCovered (replace_row moved three) subject (b + 1)
    moved_gap h = elim (subst (In h.owner) moved_rows h.listed) [
      | inl f ↦ omega (arith, subst (λ (p : Period). b + 1 ≤ last_day p) f h.to)
      | inr (inl f) ↦ omega (arith, subst (λ (p : Period). p.start ≤ b + 1) f h.from)
      | inr (inr (inl f)) ↦ omega (arith, subst (λ (p : Period). p.start ≤ b + 1) f h.from)
      | inr (inr (inr f)) ↦ f
    ]

    -- Three periods of one subject that follow each other without a gap tile its timeline. The
    -- triggers let the middle one move behind the last one, without a gap after it, and the table
    -- does not tile the timeline any more.
    pub moved_period_leaves_gap :
        IsChain three × (chain_violations moved three ≡ []) × (¬ IsChain (replace_row moved three))
    moved_period_leaves_gap = (
      three-IsChain,
      moved_accepted,
      λ chain. moved_gap (
          chain.seamless subject a (b + 1) (c + 1) (omega arith) (omega arith)
            (at (period first a b) a (inl refl) (omega arith) (omega arith))
            (at (period third (c + 1) d) (c + 1) (inr (inr (inl refl))) (omega arith)
              (omega arith))),
    )
      where
        at :
            (p : Period) (day : ℕ)
            → In p (period first a b ∷ moved ∷ period third (c + 1) d ∷ [])
            → p.start ≤ day
            → day ≤ last_day p
            → IsCovered (replace_row moved three) p.subject day
        at p day i lo hi = record {
          owner = p;
          listed = subst (In p) (sym moved_rows) i;
          subject_is = refl;
          from = lo;
          to = hi;
        }
