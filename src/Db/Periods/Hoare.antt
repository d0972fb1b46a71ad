-- ===== src/Db/Periods/Hoare.antt =====
-- What a transaction ensures of the store that it returns: rules for the steps of the monad, and
-- the steps on people and links, which leave the tables of periods as they are.
use kehrkraft.Prelude.{◌≡◌, refl, Bool, true, false, List, [], ◌∷◌}
use kehrkraft.Db.Period.{Period, ErrorCode}
use kehrkraft.Db.Store.{Store, DbError, Result, ok, err, Tx, continue, demand, require}

-- `Q` holds of what a transaction returns, if it is not rejected.
unfoldable pub Ensures : {A : Type 0} → (A → Store → Type 0) → Result (A × Store) → Type 0
Ensures Q (ok (a, s)) = Q a s
Ensures Q (err e) = Unit

-- What holds of the tables of periods of a store.
abbrev pub Of : (List Period → List Period → Type 0) → Store → Type 0
Of Q s = Q s.ownerships s.building_owners

-- A transaction that keeps what holds of the tables of periods.
abbrev pub Keeps : (List Period → List Period → Type 0) → {A : Type 0} → Tx A → Type 0
Keeps Q m = (s : Store) → Of Q s → Ensures (λ _ s'. Of Q s') (m s)

pub bind-Ensures :
    {A B : Type 0} (P : A → Store → Type 0) (Q : B → Store → Type 0) (f : A → Tx B)
    (r : Result (A × Store))
    → Ensures P r
    → ((a : A) (s : Store) → P a s → Ensures Q (f a s))
    → Ensures Q (continue f r)
unfolding Ensures
bind-Ensures P Q f (ok (a, s)) h k = k a s h
bind-Ensures P Q f (err e) h k = tt

pub demand-Ensures :
    {B : Type 0} (Q : B → Store → Type 0) (f : Unit {0} → Tx B) (codes : List ErrorCode) (s : Store)
    → (codes ≡ [] → Ensures Q (f tt s))
    → Ensures Q (continue f (demand codes s))
unfolding Ensures
demand-Ensures Q f [] s k = k refl
demand-Ensures Q f (c ∷ cs) s k = tt

pub require-Ensures :
    {B : Type 0} (Q : B → Store → Type 0) (f : Unit {0} → Tx B) (b : Bool) (s : Store)
    → (b ≡ true → Ensures Q (f tt s))
    → Ensures Q (continue f (require b s))
unfolding Ensures
require-Ensures Q f true s k = k refl
require-Ensures Q f false s k = tt

pub bind-Keeps :
    (Q : List Period → List Period → Type 0) {A B : Type 0} (f : A → Tx B) (r : Result (A × Store))
    → Ensures (λ _ s'. Of Q s') r
    → ((a : A) → Keeps Q (f a))
    → Ensures (λ _ s'. Of Q s') (continue f r)
bind-Keeps Q f r h k = bind-Ensures (λ _ s'. Of Q s') (λ _ s'. Of Q s') f r h (λ a s i. k a s i)

pub ok-Ensures :
    {A : Type 0} (Q : A → Store → Type 0) (a : A) (s : Store) → Q a s → Ensures Q (ok (a, s))
unfolding Ensures
ok-Ensures Q a s h = h

pub err-Ensures : {A : Type 0} (Q : A → Store → Type 0) (e : DbError) → Ensures Q (err e)
unfolding Ensures
err-Ensures Q e = tt
