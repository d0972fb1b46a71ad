-- ===== src/Scheduler/Duty.antt =====
-- Who serves a week: the apartments that take part, and the owner or tenant of the chosen one
-- (the body of the loop of `schedule_for_year` in src/scheduler/mod.rs).
use kehrkraft.Prelude.{
  ℕ, zero, suc, ◌+◌, ◌≡◌, refl, sym, ap, ◌∙◌, ◌⊎◌, inl, inr, Bool, true, false, List, [], ◌∷◌,
  Option, none, some, arith, In, length, get_elem?, get_elem?-lt, find, subst, Bool-cases,
  Option-cases,
}
use kehrkraft.Calendar.{Calendar}
use kehrkraft.Models.{Apartment}
use kehrkraft.Scheduler.{
  WeekAssignment, DatedPerson, Roster, ok, apartment_owner, covered_from, covered, delegate,
  covers_week, rotation_index, assigned, duty, at_index, assign, week_assignment,
}
use kehrkraft.Scheduler.Rotation.{rotation_index-lt}

-- Apartments take part just when they have an owner in the week, in their order.
module _ (r : Roster) (w e : ℕ) where
  covered_from-none :
      (b : Apartment) (rest : List Apartment)
      → apartment_owner r b w e ≡ none
      → covered_from r (b ∷ rest) w e ≡ covered_from r rest w e
  unfolding covered_from
  covered_from-none b rest h = rw (h, covered_from)

  covered_from-some :
      (b : Apartment) (rest : List Apartment) (p : DatedPerson)
      → apartment_owner r b w e ≡ some p
      → covered_from r (b ∷ rest) w e ≡ (b, p) ∷ covered_from r rest w e
  unfolding covered_from
  covered_from-some b rest p h = rw (h, covered_from)

  pub covered_from_complete :
      (apartments : List Apartment) (a : Apartment) (o : DatedPerson)
      → In a apartments
      → apartment_owner r a w e ≡ some o
      → In (a, o) (covered_from r apartments w e)
  covered_from_complete [] a o m h = absurd m
  covered_from_complete (b ∷ rest) a o (inl same) h =
      let here : apartment_owner r b w e ≡ some o =
        ap (λ x. apartment_owner r x w e) (sym same) ∙ h in
      rw (covered_from-some b rest o here) (inl (ap (λ (x : Apartment). (x, o)) same))
  covered_from_complete (b ∷ rest) a o (inr m) h = elim (Option-cases (apartment_owner r b w e)) [
    | inl no_owner ↦ rw (covered_from-none b rest no_owner) (covered_from_complete rest a o m h)
    | inr (p, found) ↦
        rw (covered_from-some b rest p found) (inr (covered_from_complete rest a o m h))
  ]

  covered_here :
      (b : Apartment) (p : DatedPerson) (a : Apartment) (o : DatedPerson)
      (rest : List (Apartment × DatedPerson)) (i : ℕ)
      → get_elem? ((b, p) ∷ rest) i ≡ some (a, o)
      → ((a ≡ b) × (p ≡ o)) ⊎ ((j : ℕ) × (get_elem? rest j ≡ some (a, o)))
  covered_here b p a o rest zero h = inl (ground arith, ground arith)
  covered_here b p a o rest (suc i) h = inr (i, h)

  -- What stands in the list of participants is an apartment with its owner in the week.
  pub covered_from_sound :
      (apartments : List Apartment) (a : Apartment) (o : DatedPerson) (i : ℕ)
      → get_elem? (covered_from r apartments w e) i ≡ some (a, o)
      → In a apartments × (apartment_owner r a w e ≡ some o)
  covered_from_sound [] a o i h = absurd (unfold covered_from in ground arith)
  covered_from_sound (b ∷ rest) a o i h = elim (Option-cases (apartment_owner r b w e)) [
    | inl no_owner ↦
        let (m, f) = covered_from_sound rest a o i (rw (covered_from-none b rest no_owner) at h) in
        (inr m, f)
    | inr (p, found) ↦
        elim (covered_here b p a o _ i (rw (covered_from-some b rest p found) at h)) [
          | inl (same, f) ↦ (inl same, ap (λ x. apartment_owner r x w e) same ∙ found ∙ ap some f)
          | inr (j, g) ↦ let (m, f) = covered_from_sound rest a o j g in (inr m, f)
        ]
  ]

-- The week is served by this person.
pub record IsServedBy (a : WeekAssignment) (p : DatedPerson) : Type 0 where
  pub id_is : a.assignee_id ≡ some p.id
  pub name_is : a.assignee_name ≡ some p.name
  pub email_is : a.assignee_email ≡ some p.email

-- The tenancy belongs to the apartment and contains the whole week.
abbrev pub IsTenancyOf : Apartment → ℕ → DatedPerson → Type 0
IsTenancyOf apartment w t = (t.apartment_id ≡ apartment.id) × (covers_week t w (w + 6) ≡ true)

-- The week goes to a tenant of the apartment whose tenancy contains the whole week, and to the
-- apartment's owner if there is none.
pub data IsDuty (r : Roster) (w : ℕ) (apartment : Apartment) (owner : DatedPerson)
    (a : WeekAssignment) : Type 0 where
  by_tenant :
      (t : DatedPerson)
      → In t r.tenancies
      → IsTenancyOf apartment w t
      → IsServedBy a t
      → a.delegated ≡ true
      → IsDuty r w apartment owner a
  by_owner :
      ((t : DatedPerson) → In t r.tenancies → ¬ IsTenancyOf apartment w t)
      → IsServedBy a owner
      → a.delegated ≡ false
      → IsDuty r w apartment owner a

find-some :
    (p : DatedPerson → Bool) (ts : List DatedPerson) (t : DatedPerson)
    → find p ts ≡ some t
    → In t ts × (p t ≡ true)
find-some p [] t h = absurd (ground arith)
find-some p (x ∷ ts) t h = elim (Bool-cases (p x)) [
  | inl pass ↦ let same : x ≡ t = ground arith in (inl (sym same), ap p (sym same) ∙ pass)
  | inr fail ↦ let (m, f) = find-some p ts t (ground arith) in (inr m, f)
]

find-none :
    (p : DatedPerson → Bool) (ts : List DatedPerson) (t : DatedPerson)
    → find p ts ≡ none
    → In t ts
    → p t ≡ false
find-none p [] t h m = absurd m
find-none p (x ∷ ts) t h (inl same) = ap p same ∙ ground arith
find-none p (x ∷ ts) t h (inr m) = find-none p ts t (ground arith) m

module _ (r : Roster) (apartment : Apartment) (w : ℕ) where
  delegate-some :
      (t : DatedPerson)
      → delegate r apartment w (w + 6) ≡ some t
      → In t r.tenancies × IsTenancyOf apartment w t
  unfolding delegate
  delegate-some t h =
      let (m, e) = find-some _ r.tenancies t h in (m, (ground (arith, e), ground (arith, e)))

  delegate-none :
      delegate r apartment w (w + 6) ≡ none
      → (t : DatedPerson) → In t r.tenancies
      → ¬ IsTenancyOf apartment w t
  unfolding delegate
  delegate-none h t m (own, whole) = ground (arith, find-none _ r.tenancies t h m)

abbrev participants : Roster → ℕ → List (Apartment × DatedPerson)
participants r w = covered r w (w + 6)

module _ (cal : Calendar) (r : Roster) (y w : ℕ) where
  duty_some :
      (apartment : Apartment) (owner t : DatedPerson)
      → delegate r apartment w (w + 6) ≡ some t
      → duty cal r y w (apartment, owner) ≡ assigned y (cal.iso_week w) w (some t) true
  unfolding duty
  duty_some apartment owner t h = rw (h, duty)

  duty_none :
      (apartment : Apartment) (owner : DatedPerson)
      → delegate r apartment w (w + 6) ≡ none
      → duty cal r y w (apartment, owner) ≡ assigned y (cal.iso_week w) w (some owner) false
  unfolding duty
  duty_none apartment owner h = rw (h, duty)

  -- The choice between tenant and owner.
  pub duty-IsDuty :
      (apartment : Apartment) (owner : DatedPerson)
      → IsDuty r w apartment owner (duty cal r y w (apartment, owner))
  duty-IsDuty apartment owner = elim (Option-cases (delegate r apartment w (w + 6))) [
    | inl nobody ↦
        rw (duty_none apartment owner nobody)
          (by_owner (delegate-none r apartment w nobody) served refl)
    | inr (t, found) ↦
        let (m, own) = delegate-some r apartment w t found in
        rw (duty_some apartment owner t found) (by_tenant t m own served refl)
  ]
    where
      served :
          {p : DatedPerson} {delegated : Bool}
          → IsServedBy (assigned y (cal.iso_week w) w (some p) delegated) p
      served = record { id_is = refl; name_is = refl; email_is = refl }

  -- The parts of the week that do not depend on who serves it.
  pub record IsWeek (a : WeekAssignment) : Type 0 where
    pub year_is : a.year ≡ y
    pub iso_week_is : a.iso_week ≡ cal.iso_week w
    pub start_is : a.start ≡ w
    pub end_is : a.end ≡ w + 6

  assigned-IsWeek :
      (p : Option DatedPerson) (delegated : Bool)
      → IsWeek (assigned y (cal.iso_week w) w p delegated)
  assigned-IsWeek none delegated = record {
    year_is = refl;
    iso_week_is = refl;
    start_is = refl;
    end_is = refl;
  }
  assigned-IsWeek (some p) delegated = record {
    year_is = refl;
    iso_week_is = refl;
    start_is = refl;
    end_is = refl;
  }

  pub duty-IsWeek :
      (apartment : Apartment) (owner : DatedPerson) → IsWeek (duty cal r y w (apartment, owner))
  duty-IsWeek apartment owner = elim (Option-cases (delegate r apartment w (w + 6))) [
    | inl nobody ↦ rw (duty_none apartment owner nobody) (assigned-IsWeek (some owner) false)
    | inr (t, found) ↦ rw (duty_some apartment owner t found) (assigned-IsWeek (some t) true)
  ]

  -- No apartment takes part and nobody serves, or the participant whose turn it is serves.
  pub data IsAssigned (a : WeekAssignment) : Type 0 where
    unassigned :
        ((apartment : Apartment)
          → In apartment r.apartments
          → apartment_owner r apartment w (w + 6) ≡ none)
        → a.assignee_id ≡ none
        → IsAssigned a
    in_turn :
        (apartment : Apartment) (owner : DatedPerson)
        → get_elem?
            (covered r w (w + 6))
            (rotation_index cal r.seed w (length (covered r w (w + 6))))
          ≡ some (apartment, owner)
        → IsDuty r w apartment owner a
        → IsAssigned a

  covered_empty :
      covered r w (w + 6) ≡ []
      → (apartment : Apartment) → In apartment r.apartments
      → apartment_owner r apartment w (w + 6) ≡ none
  covered_empty h a m = elim (Option-cases (apartment_owner r a w (w + 6))) [
    | inl no_owner ↦ no_owner
    | inr (o, found) ↦ absurd (subst (In (a, o)) h (member o found))
  ]
    where
      member :
          (o : DatedPerson)
          → apartment_owner r a w (w + 6) ≡ some o
          → In (a, o) (covered r w (w + 6))
      member o found = unfold covered in covered_from_complete r w (w + 6) r.apartments a o m found

  assign-some :
      (c : Apartment × DatedPerson) (cs : List (Apartment × DatedPerson))
      (chosen : Apartment × DatedPerson)
      → get_elem? (c ∷ cs) (rotation_index cal r.seed w (length (c ∷ cs))) ≡ some chosen
      → assign cal r y w (c ∷ cs) ≡ ok (duty cal r y w chosen)
  unfolding assign
  assign-some c cs chosen e = ap (at_index cal r y w) e

  assign-none : assign cal r y w [] ≡ ok (assigned y (cal.iso_week w) w none false)
  unfolding assign
  assign-none = refl

  assign-IsAssigned :
      (cs : List (Apartment × DatedPerson))
      → covered r w (w + 6) ≡ cs
      → (a : WeekAssignment) × (assign cal r y w cs ≡ ok a) × IsWeek a × IsAssigned a
  assign-IsAssigned [] e =
      (_, assign-none, assigned-IsWeek none false, unassigned (covered_empty e) refl)
  assign-IsAssigned (c ∷ cs) e =
      let (chosen, f) =
        get_elem?-lt (c ∷ cs) (rotation_index cal r.seed w (length (c ∷ cs)))
          (rotation_index-lt cal r.seed (length (c ∷ cs)) (omega arith) w) in
      (
        duty cal r y w chosen,
        assign-some c cs chosen f,
        duty-IsWeek chosen.0 chosen.1,
        in_turn chosen.0 chosen.1 (rw e f) (duty-IsDuty chosen.0 chosen.1),
      )

  pub week_assignment-IsAssigned :
      (a : WeekAssignment) × (week_assignment cal r y w ≡ ok a) × IsWeek a × IsAssigned a
  unfolding week_assignment
  week_assignment-IsAssigned = assign-IsAssigned (covered r w (w + 6)) refl
