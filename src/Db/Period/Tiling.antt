-- ===== src/Db/Period/Tiling.antt =====
-- Periods that tile the timeline of their subject, and why an accepted row keeps them so.
use kehrkraft.Prelude.{ℕ, ◌+◌, ◌≤◌, ◌<◌, ◌≡◌, ◌≢◌, sym, ◌∙◌, ◌⊎◌, inl, inr, List, arith, In}
use kehrkraft.Db.Period.{Period, last_day, far}
use kehrkraft.Db.Period.Days.{IsOther, IsAccepted}

-- A period of the subject contains the day.
pub record IsCovered (rows : List Period) (subject day : ℕ) : Type 0 where
  pub owner : Period
  pub listed : In owner rows
  pub subject_is : owner.subject ≡ subject
  pub from : owner.start ≤ day
  pub to : day ≤ last_day owner

-- Every period starts no later than it ends, ids are unique, no day of a subject lies in two
-- periods, and between two days that are covered every day is covered.
pub record IsChain (rows : List Period) : Type 0 where
  pub ordered : (o : Period) → In o rows → (o.start ≤ last_day o) × (last_day o ≤ far)
  pub ids : (o q : Period) → In o rows → In q rows → o.id ≡ q.id → o ≡ q
  pub apart :
      (o q : Period)
      → In o rows
      → In q rows
      → o.subject ≡ q.subject
      → o.id ≢ q.id
      → (last_day o < q.start) ⊎ (last_day q < o.start)
  pub seamless :
      (s a b c : ℕ) → a ≤ b → b ≤ c → IsCovered rows s a → IsCovered rows s c → IsCovered rows s b

pub id_cases : (a b : ℕ) → (a ≡ b) ⊎ (a ≢ b)
id_cases a b = grind arith

-- `new` is a row of its own, or takes the place of a row of its subject that it has a day in
-- common with.
abbrev pub Meets : Period → Period → Type 0
Meets new o = (o.subject ≡ new.subject) × (new.start ≤ last_day o) × (o.start ≤ last_day new)

before_or_from : (a b : ℕ) → (a < b) ⊎ (b ≤ a)
before_or_from a b = grind arith

module _ (rows : List Period) (chain : IsChain rows) (new : Period) (ok : IsAccepted new rows)
    (meets : (o : Period) → In o rows → o.id ≡ new.id → Meets new o) where
  -- What covers a day once `new` stands among the other rows.
  pub data IsKept (s d : ℕ) : Type 0 where
    kept :
        (o : Period)
        → In o rows
        → o.id ≢ new.id
        → o.subject ≡ s
        → o.start ≤ d
        → d ≤ last_day o
        → IsKept s d
    fresh : s ≡ new.subject → new.start ≤ d → d ≤ last_day new → IsKept s d

  -- Two rows of one subject with different ids have no common day.
  no_common :
      (o q : Period) (d : ℕ)
      → In o rows
      → In q rows
      → o.subject ≡ q.subject
      → o.id ≢ q.id
      → o.start ≤ d
      → d ≤ last_day o
      → q.start ≤ d
      → d ≤ last_day q
      → ⊥
  no_common o q d io iq s ne a b c e = elim (chain.apart o q io iq s ne) [
    | inl lt ↦ omega arith
    | inr lt ↦ omega arith
  ]

  -- The neighbour before `new` and a row that `new` replaces have no room for each other.
  no_old_before :
      (q r : Period) (d : ℕ)
      → IsOther new rows q
      → In r rows
      → r.id ≡ new.id
      → last_day q + 1 ≡ new.start
      → r.start ≤ d
      → d ≤ last_day q
      → ⊥
  no_old_before q r d i ir e adj lo hi =
      let (s, m, n) = meets r ir e in
      elim (chain.apart q r i.listed ir (i.same_subject ∙ sym s) (λ f. i.other_id (f ∙ e))) [
        | inl lt ↦ omega arith
        | inr lt ↦ omega (arith, chain.ordered q i.listed)
      ]

  no_old_after :
      (q r : Period) (d : ℕ)
      → IsOther new rows q
      → In r rows
      → r.id ≡ new.id
      → q.start ≡ last_day new + 1
      → q.start ≤ d
      → d ≤ last_day r
      → ⊥
  no_old_after q r d i ir e adj lo hi =
      let (s, m, n) = meets r ir e in
      elim (chain.apart q r i.listed ir (i.same_subject ∙ sym s) (λ f. i.other_id (f ∙ e))) [
        | inl lt ↦ omega (arith, chain.ordered q i.listed)
        | inr lt ↦ omega arith
      ]

  other : (o : Period) → In o rows → o.id ≢ new.id → o.subject ≡ new.subject → IsOther new rows o
  other o i ne s = record { listed = i; same_subject = s; other_id = ne }

  cover :
      (o : Period) (s d : ℕ)
      → In o rows
      → o.subject ≡ s
      → o.start ≤ d
      → d ≤ last_day o
      → IsCovered rows s d
  cover o s d i e lo hi = record { owner = o; listed = i; subject_is = e; from = lo; to = hi }

  -- From a day covered by another row on, up to the day before `new`, the other rows cover.
  seam_before :
      (s a b : ℕ) (o : Period)
      → In o rows
      → o.id ≢ new.id
      → o.subject ≡ s
      → s ≡ new.subject
      → o.start ≤ a
      → a ≤ last_day o
      → a ≤ b
      → b < new.start
      → last_day o < new.start
      → IsKept s b
  seam_before s a b o i ne e es lo hi le lt before =
      let (q, iq, adj) = ok.previous o (other o i ne (e ∙ es)) before in
      let r = chain.seamless s a b (last_day q) le (omega arith) (cover o s a i e lo hi) (
        cover q s (last_day q) iq.listed (iq.same_subject ∙ sym es) (chain.ordered q iq.listed).0
          (omega arith)) in
      elim (id_cases r.owner.id new.id) [
        | inl old ↦ absurd (no_old_before q r.owner b iq r.listed old adj r.from (omega arith))
        | inr ne' ↦ kept r.owner r.listed ne' r.subject_is r.from r.to
      ]

  seam_after :
      (s b c : ℕ) (o : Period)
      → In o rows
      → o.id ≢ new.id
      → o.subject ≡ s
      → s ≡ new.subject
      → o.start ≤ c
      → c ≤ last_day o
      → b ≤ c
      → last_day new < b
      → last_day new < o.start
      → IsKept s b
  seam_after s b c o i ne e es lo hi le lt after =
      let (q, iq, adj) = ok.following o (other o i ne (e ∙ es)) after in
      let r =
        chain.seamless s q.start b c (omega arith) le
          (cover q s q.start iq.listed (iq.same_subject ∙ sym es) (omega arith)
            (chain.ordered q iq.listed).0)
          (cover o s c i e lo hi) in
      elim (id_cases r.owner.id new.id) [
        | inl old ↦ absurd (no_old_after q r.owner b iq r.listed old adj (omega arith) r.to)
        | inr ne' ↦ kept r.owner r.listed ne' r.subject_is r.from r.to
      ]

  -- A day that only the replaced row covered lies in `new`, if other rows cover on both sides.
  seam_between :
      (s a b c : ℕ) (o q r : Period)
      → In o rows
      → o.id ≢ new.id
      → o.subject ≡ s
      → o.start ≤ a
      → a ≤ last_day o
      → In q rows
      → q.id ≢ new.id
      → q.subject ≡ s
      → q.start ≤ c
      → c ≤ last_day q
      → In r rows
      → r.id ≡ new.id
      → r.subject ≡ s
      → r.start ≤ b
      → b ≤ last_day r
      → a ≤ b
      → b ≤ c
      → IsKept s b
  seam_between s a b c o q r io neo eo lo ho iq neq eq lq hq ir er sr lr hr le le' =
      let (sm, m, n) = meets r ir er in
      let es : s ≡ new.subject = sym sr ∙ sm in
      let before_r : last_day o < r.start = apart_before in
      let after_r : last_day r < q.start = apart_after in
      let before : last_day o < new.start = before_new before_r n in
      let after : last_day new < q.start = after_new after_r m in
      elim (three b) [
        | inl lt ↦ seam_before s a b o io neo eo es lo ho le lt before
        | inr (inl gt) ↦ seam_after s b c q iq neq eq es lq hq le' gt after
        | inr (inr (x, y)) ↦ fresh es x y
      ]
    where
      three :
          (d : ℕ) → (d < new.start) ⊎ ((last_day new < d) ⊎ ((new.start ≤ d) × (d ≤ last_day new)))
      three d = grind arith

      apart_before : last_day o < r.start
      apart_before = elim (chain.apart o r io ir (eo ∙ sym sr) (λ f. neo (f ∙ er))) [
        | inl lt ↦ lt
        | inr lt ↦ absurd (omega arith)
      ]

      apart_after : last_day r < q.start
      apart_after = elim (chain.apart r q ir iq (sr ∙ sym eq) (λ f. neq (sym f ∙ er))) [
        | inl lt ↦ lt
        | inr lt ↦ absurd (omega arith)
      ]

      before_new : last_day o < r.start → r.start ≤ last_day new → last_day o < new.start
      before_new h n = elim (ok.apart o (other o io neo (eo ∙ sym sr ∙ (meets r ir er).0))) [
        | inl lt ↦ lt
        | inr lt ↦ absurd (omega (arith, chain.ordered o io))
      ]

      after_new : last_day r < q.start → new.start ≤ last_day r → last_day new < q.start
      after_new h m = elim (ok.apart q (other q iq neq (eq ∙ sym sr ∙ (meets r ir er).0))) [
        | inl lt ↦ absurd (omega (arith, chain.ordered q iq))
        | inr lt ↦ lt
      ]

  pub seamless-IsKept : (s a b c : ℕ) → a ≤ b → b ≤ c → IsKept s a → IsKept s c → IsKept s b
  seamless-IsKept s a b c le le' (fresh e x y) (fresh e' x' y') =
      fresh e (omega arith) (omega arith)
  seamless-IsKept s a b c le le' (kept o i ne e x y) (fresh e' x' y') =
      elim (before_or_from b new.start) [
        | inr from ↦ fresh e' from (omega arith)
        | inl lt ↦ elim (ok.apart o (other o i ne (e ∙ e'))) [
          | inl before ↦ seam_before s a b o i ne e e' x y le lt before
          | inr after ↦ absurd (omega arith)
        ]
      ]
  seamless-IsKept s a b c le le' (fresh e' x' y') (kept o i ne e x y) =
      elim (before_or_from (last_day new) b) [
        | inr to ↦ fresh e' (omega arith) to
        | inl lt ↦ elim (ok.apart o (other o i ne (e ∙ e'))) [
          | inl before ↦ absurd (omega arith)
          | inr after ↦ seam_after s b c o i ne e e' x y le' lt after
        ]
      ]
  seamless-IsKept s a b c le le' (kept o i ne e x y) (kept q j nf f z w) =
      let r = chain.seamless s a b c le le' (cover o s a i e x y) (cover q s c j f z w) in
      elim (id_cases r.owner.id new.id) [
        | inl old ↦
            seam_between s a b c o q r.owner i ne e x y j nf f z w r.listed old r.subject_is r.from
              r.to le le'
        | inr ne' ↦ kept r.owner r.listed ne' r.subject_is r.from r.to
      ]
