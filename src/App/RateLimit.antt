-- ===== src/App/RateLimit.antt =====
-- src/app.rs: the rate limit of the public pages. An instant is a number of seconds; the clock is
-- read when the entry is looked up and again when its age is tested.
pub mod Window
use kehrkraft.Prelude.{
  ℕ, ◌+◌, ◌-◌, ◌%◌, ◌^◌, Bool, true, false, List, [], ◌∷◌, Option, none, some, leb, ltb, ◌==◌,
  if◌then◌else◌,
}

pub record WindowEntry : Type 0 where
  pub window_start : ℕ
  pub count : ℕ

-- RATE_LIMIT_HITS, by the address of the client.
abbrev pub Hits : Type 0
Hits = List (ℕ × WindowEntry)

unfoldable pub hit_of : ℕ → Hits → Option WindowEntry
hit_of ip [] = none
hit_of ip ((k, e) ∷ hits) = let rest = hit_of ip hits in if k == ip then some e else rest

unfoldable pub set_hit : ℕ → WindowEntry → Hits → Hits
set_hit ip entry [] = (ip, entry) ∷ []
set_hit ip entry ((k, e) ∷ hits) =
    let rest = set_hit ip entry hits in if k == ip then (k, entry) ∷ hits else (k, e) ∷ rest

-- `entry(ip).or_insert(…)`.
abbrev pub or_insert : ℕ → Option WindowEntry → WindowEntry
or_insert now none = record { window_start = now; count = 0 }
or_insert now (some e) = e

-- A window of sixty seconds that has elapsed at `later` starts again.
abbrev pub renewed : ℕ → ℕ → WindowEntry → WindowEntry
renewed now later e =
    if leb 60 (later - e.window_start) then record { window_start = now; count = 0 } else e

-- `count` is a `u32`.
abbrev pub counted : WindowEntry → WindowEntry
counted e = record e { count = (e.count + 1) % 2 ^ 32 }

-- A request with the address of its client, if it is known, and the two readings of the clock.
pub record Arrival : Type 0 where
  pub ip : Option ℕ
  pub now : ℕ
  pub later : ℕ

-- Whether the request is served, and the table after it.
abbrev pub limited : Hits → Arrival → Option ℕ → Bool × Hits
limited hits a none = (true, hits)
limited hits a (some ip) =
    let e = counted (renewed a.now a.later (or_insert a.now (hit_of ip hits))) in
    (if ltb 30 e.count then false else true, set_hit ip e hits)

unfoldable pub rate_limit : Hits → Arrival → Bool × Hits
rate_limit hits a = limited hits a a.ip
