-- ===== src/App/RateLimit/Window.antt =====
-- How many requests of one client are served in one window (src/app.rs).
use kehrkraft.Prelude.{
  ℕ, suc, ◌+◌, ◌-◌, ◌%◌, ◌^◌, ◌<◌, ◌≡◌, refl, ◌∙◌, ap, subst, Bool, true, false, List, [], ◌∷◌,
  Option, none, some, leb, ltb, min, ◌==◌, if◌then◌else◌, arith, length, Bool-cases, inl, inr,
}
use kehrkraft.App.RateLimit.{
  WindowEntry, Hits, hit_of, set_hit, or_insert, renewed, counted, Arrival, limited, rate_limit,
}

hit_of-set_hit : (ip : ℕ) (e : WindowEntry) (hits : Hits) → hit_of ip (set_hit ip e hits) ≡ some e
unfolding hit_of set_hit
hit_of-set_hit ip e [] = ground arith
hit_of-set_hit ip e ((k, d) ∷ hits) = elim (Bool-cases (k == ip)) [
  | inl same ↦ rw (same, same) refl
  | inr other ↦ rw (other, other) (hit_of-set_hit ip e hits)
]

hit_of-set_other :
    (ip o : ℕ) (e : WindowEntry) (hits : Hits)
    → (o == ip) ≡ false
    → hit_of ip (set_hit o e hits) ≡ hit_of ip hits
unfolding hit_of set_hit
hit_of-set_other ip o e [] h = rw h refl
hit_of-set_other ip o e ((k, d) ∷ hits) h = elim (Bool-cases (k == o)) [
  | inl same ↦ let fresh : (k == ip) ≡ false = ground (arith, same, h) in rw (same, fresh) refl
  | inr differs ↦ rw (differs, hit_of-set_other ip o e hits h) refl
]

-- Whether a request is of the client.
abbrev pub is_of : ℕ → Option ℕ → Bool
is_of ip none = false
is_of ip (some o) = o == ip

abbrev one_if : Bool → ℕ
one_if true = 1
one_if false = 0

-- The requests of the client, and those of them that are served.
unfoldable pub requested : ℕ → List Arrival → ℕ
requested ip [] = 0
requested ip (a ∷ arrivals) = one_if (is_of ip a.ip) + requested ip arrivals

unfoldable pub served : ℕ → Hits → List Arrival → ℕ
served ip hits [] = 0
served ip hits (a ∷ arrivals) =
    (if is_of ip a.ip then one_if (rate_limit hits a).0 else 0)
    + served ip (rate_limit hits a).1 arrivals

-- The requests of the client arrive less than a minute after `start`.
abbrev pub Within : ℕ → ℕ → List Arrival → Type 0
Within ip start [] = Unit
Within ip start (a ∷ arrivals) =
    (is_of ip a.ip ≡ true → a.later < start + 60) × Within ip start arrivals

-- The table says that the client has made `k` requests since `start`.
abbrev pub window : ℕ → ℕ → WindowEntry
window start k = record { window_start = start; count = k }

-- One more request of the client in the window.
counted-window :
    (start k now later : ℕ)
    → later < start + 60
    → k + 1 < 2 ^ 32
    → counted (renewed now later (or_insert now (some (window start k)))) ≡ window start (suc k)
counted-window start k now later h bound =
    let young : leb 60 (later - start) ≡ false = ground (arith, h) in
    let plain : (k + 1) % 2 ^ 32 ≡ suc k = omega (arith, bound) in rw (young, plain) refl

-- A request of another client, or of one whose address is not known.
limited-other :
    (ip : ℕ) (hits : Hits) (a : Arrival) (o : Option ℕ)
    → is_of ip o ≡ false
    → hit_of ip (limited hits a o).1 ≡ hit_of ip hits
limited-other ip hits a none h = refl
limited-other ip hits a (some o) h =
    hit_of-set_other ip o (counted (renewed a.now a.later (or_insert a.now (hit_of o hits)))) hits h

-- A request of the client in the window.
limited-window :
    (ip start k : ℕ) (hits : Hits) (a : Arrival) (o : Option ℕ)
    → is_of ip o ≡ true
    → hit_of ip hits ≡ some (window start k)
    → a.later < start + 60
    → k + 1 < 2 ^ 32
    → ((limited hits a o).0 ≡ (if ltb 30 (suc k) then false else true))
      × (hit_of ip (limited hits a o).1 ≡ some (window start (suc k)))
limited-window ip start k hits a none is h later bound = absurd (ground (arith, is))
limited-window ip start k hits a (some o) is h later bound =
    subst
      (λ i.
        ((limited hits a (some i)).0 ≡ (if ltb 30 (suc k) then false else true))
        × (hit_of ip (limited hits a (some i)).1 ≡ some (window start (suc k))))
      same
      (
        rw h (ap (λ e. if ltb 30 e.count then false else true) one_more),
        rw h (rw one_more (hit_of-set_hit ip (window start (suc k)) hits)),
      )
  where
    same : ip ≡ o
    same = ground (arith, is)

    one_more :
        counted (renewed a.now a.later (or_insert a.now (some (window start k))))
        ≡ window start (suc k)
    one_more = counted-window start k a.now a.later later bound

-- Of the requests that a client makes in its window, among those of other clients, as many are
-- served as are left of thirty.
pub served-requested :
    (ip start k : ℕ) (hits : Hits) (arrivals : List Arrival)
    → hit_of ip hits ≡ some (window start k)
    → Within ip start arrivals
    → k + length arrivals < 2 ^ 32
    → served ip hits arrivals ≡ min (30 - k) (requested ip arrivals)
unfolding served requested rate_limit
served-requested ip start k hits [] h within bound = omega arith
served-requested ip start k hits (a ∷ arrivals) h (young, within) bound =
    elim (Bool-cases (is_of ip a.ip)) [
      | inr other ↦
          let rest : served ip (rate_limit hits a).1 arrivals
              ≡ min (30 - k) (requested ip arrivals) =
            served-requested ip start k (limited hits a a.ip).1 arrivals
              (limited-other ip hits a a.ip other ∙ h) within (omega (arith, bound)) in
          rw other (omega (arith, rest))
      | inl is ↦
          let (bit, after) =
            limited-window ip start k hits a a.ip is h (young is) (omega (arith, bound)) in
          let rest : served ip (rate_limit hits a).1 arrivals
              ≡ min (30 - suc k) (requested ip arrivals) =
            served-requested ip start (suc k) (limited hits a a.ip).1 arrivals after within
              (omega (arith, bound)) in
          rw (is, bit, rest) (ground arith)
    ]
