-- ===== src/Db/Period/Moves.antt =====
-- The tables `ownerships` and `building_owners` after an insert or an update of a row.
use kehrkraft.Prelude.{
  ℕ, ◌≤◌, ◌<◌, ◌≡◌, ◌≢◌, refl, sym, ap, ◌∙◌, ◌⊎◌, inl, inr, true, false, List, [], ◌∷◌, arith, ◌==◌,
  In, Bool-cases, subst,
}
use kehrkraft.Db.Period.{Period, last_day, far, chain_violations, replace_row}
use kehrkraft.Db.Period.Days.{IsAccepted, chain_violations-IsAccepted}
use kehrkraft.Db.Period.Tiling.{IsCovered, IsChain, IsKept, kept, fresh, Meets, seamless-IsKept}

-- The new row's dates can be stored: a four-digit year.
abbrev pub IsStorable : Period → Type 0
IsStorable p = (p.start ≤ far) × (last_day p ≤ far)

module _ (rows : List Period) (chain : IsChain rows) (new : Period) (within : IsStorable new)
    (accepted : chain_violations new rows ≡ []) where
  ok : IsAccepted new rows
  ok = chain_violations-IsAccepted new rows within.0 accepted

  -- A list that holds `new` and, besides, just the rows with another id.
  record IsResult (rows' : List Period) : Type 0 where
    holds_new : In new rows'
    only : (o : Period) → In o rows' → (o ≡ new) ⊎ (In o rows × (o.id ≢ new.id))
    rest : (o : Period) → In o rows → o.id ≢ new.id → In o rows'

  module _ (rows' : List Period) (is : IsResult rows')
      (meets : (o : Period) → In o rows → o.id ≡ new.id → Meets new o) where
    to_kept : (s d : ℕ) → IsCovered rows' s d → IsKept rows chain new ok meets s d
    to_kept s d c = elim (is.only c.owner c.listed) [
      | inl e ↦
          fresh (sym c.subject_is ∙ ap (λ (p : Period). p.subject) e)
            (subst (λ (p : Period). p.start ≤ d) e c.from)
            (subst (λ (p : Period). d ≤ last_day p) e c.to)
      | inr (i, ne) ↦ kept c.owner i ne c.subject_is c.from c.to
    ]

    of_kept : (s d : ℕ) → IsKept rows chain new ok meets s d → IsCovered rows' s d
    of_kept s d (kept o i ne e x y) = record {
      owner = o;
      listed = is.rest o i ne;
      subject_is = e;
      from = x;
      to = y;
    }
    of_kept s d (fresh e x y) = record {
      owner = new;
      listed = is.holds_new;
      subject_is = sym e;
      from = x;
      to = y;
    }

    result_ordered : (o : Period) → In o rows' → (o.start ≤ last_day o) × (last_day o ≤ far)
    result_ordered o i = elim (is.only o i) [
      | inl e ↦
          subst (λ (p : Period). (p.start ≤ last_day p) × (last_day p ≤ far)) (sym e)
            (ok.ordered, within.1)
      | inr (j, ne) ↦ chain.ordered o j
    ]

    result_ids : (o q : Period) → In o rows' → In q rows' → o.id ≡ q.id → o ≡ q
    result_ids o q i j same = elim (is.only o i) [
      | inl e ↦ elim (is.only q j) [
        | inl f ↦ e ∙ sym f
        | inr (_, ne) ↦ absurd (ne (sym same ∙ ap (λ (p : Period). p.id) e))
      ]
      | inr (i', ne) ↦ elim (is.only q j) [
        | inl f ↦ absurd (ne (same ∙ ap (λ (p : Period). p.id) f))
        | inr (j', _) ↦ chain.ids o q i' j' same
      ]
    ]

    -- `new` and another row of its subject, in either order.
    apart_new :
        (o q : Period)
        → o ≡ new
        → In q rows
        → q.id ≢ new.id
        → q.subject ≡ o.subject
        → (last_day o < q.start) ⊎ (last_day q < o.start)
    apart_new o q e j ne s =
        let s' : q.subject ≡ new.subject = s ∙ ap (λ (p : Period). p.subject) e in
        elim (ok.apart q (record { listed = j; same_subject = s'; other_id = ne })) [
          | inl before ↦ inr (subst (λ (p : Period). last_day q < p.start) (sym e) before)
          | inr after ↦ inl (subst (λ (p : Period). last_day p < q.start) (sym e) after)
        ]

    result_apart :
        (o q : Period)
        → In o rows'
        → In q rows'
        → o.subject ≡ q.subject
        → o.id ≢ q.id
        → (last_day o < q.start) ⊎ (last_day q < o.start)
    result_apart o q i j s differ = elim (is.only o i) [
      | inl e ↦ elim (is.only q j) [
        | inl f ↦ absurd (differ (ap (λ (p : Period). p.id) (e ∙ sym f)))
        | inr (j', ne) ↦ apart_new o q e j' ne (sym s)
      ]
      | inr (i', ne) ↦ elim (is.only q j) [
        | inl f ↦ elim (apart_new q o f i' ne s) [ inl h ↦ inr h | inr h ↦ inl h ]
        | inr (j', _) ↦ chain.apart o q i' j' s differ
      ]
    ]

    result-IsChain : IsChain rows'
    result-IsChain = record {
      ordered = result_ordered;
      ids = result_ids;
      apart = result_apart;
      seamless = λ s a b c le le' x y.
          of_kept s b (
            seamless-IsKept rows chain new ok meets s a b c le le' (to_kept s a x) (to_kept s c y));
    }

  -- A row with an id of its own that the triggers let pass: the table stays a chain.
  pub insert-IsChain : ((o : Period) → In o rows → o.id ≢ new.id) → IsChain (new ∷ rows)
  insert-IsChain unused = result-IsChain (new ∷ rows) is (λ o i e. absurd (unused o i e))
    where
      is : IsResult (new ∷ rows)
      is = record {
        holds_new = inl refl;
        only = λ o. elim [ inl e ↦ inl e | inr i ↦ inr (i, unused o i) ];
        rest = λ o i ne. inr i;
      }

  replace_only :
      (list : List Period) (o : Period)
      → In o (replace_row new list)
      → (o ≡ new) ⊎ (In o list × (o.id ≢ new.id))
  unfolding replace_row
  replace_only [] o i = absurd i
  replace_only (x ∷ list) o (inl e) = elim (Bool-cases (x.id == new.id)) [
    | inl t ↦ inl (rw t at e)
    | inr f ↦
        let e' : o ≡ x = rw f at e in
        inr (inl e', λ same. ground (arith, ap (λ (p : Period). p.id) e'))
  ]
  replace_only (x ∷ list) o (inr i) = elim (replace_only list o i) [
    | inl e ↦ inl e
    | inr (j, ne) ↦ inr (inr j, ne)
  ]

  replace_rest :
      (list : List Period) (o : Period) → In o list → o.id ≢ new.id → In o (replace_row new list)
  unfolding replace_row
  replace_rest [] o i ne = i
  replace_rest (x ∷ list) o (inl e) ne =
      let f : (x.id == new.id) ≡ false = ground (arith, ap (λ (p : Period). p.id) e) in rw f (inl e)
  replace_rest (x ∷ list) o (inr i) ne = inr (replace_rest list o i ne)

  replace_new :
      (list : List Period) (o : Period) → In o list → o.id ≡ new.id → In new (replace_row new list)
  unfolding replace_row
  replace_new [] o i e = absurd i
  replace_new (x ∷ list) o (inl s) e =
      let t : (x.id == new.id) ≡ true = ground (arith, ap (λ (p : Period). p.id) s) in
      rw t (inl refl)
  replace_new (x ∷ list) o (inr i) e = inr (replace_new list o i e)

  -- An update that the triggers let pass and that leaves the period a day of its old ones: the
  -- table stays a chain.
  pub replace-IsChain :
      (old : Period)
      → In old rows
      → old.id ≡ new.id
      → Meets new old
      → IsChain (replace_row new rows)
  replace-IsChain old i e m =
      result-IsChain (replace_row new rows)
        (record {
          holds_new = replace_new rows old i e;
          only = replace_only rows;
          rest = replace_rest rows;
        })
        (λ o j f. subst (Meets new) (chain.ids old o i j (e ∙ sym f)) m)
