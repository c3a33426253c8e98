-- ===== src/Guests/Laws.antt =====
-- The connections to guests across the queries.
use rmond_drs.Base.{
  ℕ, suc, ◌<◌, ◌==◌, eqb, eqb_refl, eq_of_eqb, ◌≡◌, refl, ap, false, not, ◌||◌, if◌then◌else◌, List,
  [], ◌∷◌, All, Option, none, some, arith, inl, inr, Option-cases, Bool-cases,
}
use rmond_drs.Guest.{Connection, Result, aborted, overrun, failed, line, get_last_line, lost_signal}
use rmond_drs.Guest.Calls.{get_last_line-errors, Counted, line_unique}
use rmond_drs.Guest.Stats.{Counters, read_line}
use rmond_drs.Guests.{Connections, lookup, erase, store, Guest, connect, answered, data_from_lin_vm}

-- No connection has failed three times in a row.
abbrev pub Healthy : Connections → Type 0
Healthy g = All (λ p. p.1.errors < 3) g

erase-Healthy : (u : List ℕ) (g : Connections) → Healthy g → Healthy (erase u g)
unfolding erase
erase-Healthy u [] h = tt
erase-Healthy u ((v, c) ∷ g) h = elim (Bool-cases (eqb v u)) [
  | inl e ↦ rw e (erase-Healthy u g h.1)
  | inr e ↦ rw e (h.0, erase-Healthy u g h.1)
]

store-Healthy :
    (u : List ℕ) (c : Connection) (g : Connections)
    → c.errors < 3
    → Healthy g
    → Healthy (store u c g)
unfolding store
store-Healthy u c [] l h = tt
store-Healthy u c ((v, d) ∷ g) l h = elim (Bool-cases (eqb v u)) [
  | inl e ↦ rw e (l, store-Healthy u c g l h.1)
  | inr e ↦ rw e (h.0, store-Healthy u c g l h.1)
]

connect-Healthy : (w : Guest) (u : List ℕ) (g : Connections) → Healthy g → Healthy (connect w u g)
unfolding connect
connect-Healthy w u g h = elim (Bool-cases w.reached) [
  | inl e ↦ rw e (omega arith, h)
  | inr e ↦ rw e h
]

lookup-Healthy :
    (u : List ℕ) (g : Connections) (c : Connection) → Healthy g → lookup u g ≡ some c → c.errors < 3
unfolding lookup
lookup-Healthy u [] c h e = absurd (cc)
lookup-Healthy u ((v, d) ∷ g) c h e = ground (arith, h.0, lookup-Healthy u g c h.1)

answered-Healthy :
    (w : Guest) (u : List ℕ) (c d : Connection) (r : Result) (output : Counters) (g : Connections)
    → Healthy g
    → c.errors < 3
    → Counted c d r
    → Healthy (answered w u (d, r) output g).0
unfolding answered lost_signal
answered-Healthy w u c d aborted output g h l k = h
answered-Healthy w u c d overrun output g h l k = h
answered-Healthy w u c d failed output g h l k =
    elim (Bool-cases (not w.alive || (d.errors == 3))) [
      | inl e ↦ rw e (connect-Healthy w u (erase u g) (erase-Healthy u g h))
      | inr e ↦ rw e (store-Healthy u d g (ground (arith, l, k)) h)
    ]
answered-Healthy w u c d (line b) output g h l k = store-Healthy u d g (omega (arith, k)) h

-- Where no connection has failed three times in a row, none has after a query, so that the test of
-- `lostSignal`, which compares the failures with three, never misses one.
pub data_from_lin_vm-Healthy :
    (w : Guest) (u : List ℕ) (output : Counters) (g : Connections)
    → Healthy g
    → Healthy (data_from_lin_vm w u output g).0
unfolding data_from_lin_vm
data_from_lin_vm-Healthy w u output g h = elim (Option-cases (lookup u g)) [
  | inl e ↦ rw (e, data_from_lin_vm) (connect-Healthy w u g h)
  | inr (c, e) ↦
      rw (e, data_from_lin_vm)
        (answered-Healthy w u c (get_last_line w.reads c).0 (get_last_line w.reads c).1 output g h
          (lookup-Healthy u g c h e) (get_last_line-errors w.reads c))
]

lookup-erase :
    (u v : List ℕ) (g : Connections) → eqb u v ≡ false → lookup v (erase u g) ≡ lookup v g
unfolding lookup erase
lookup-erase u v [] n = refl
lookup-erase u v ((x, c) ∷ g) n = ground (arith, lookup-erase u v g n, eq_of_eqb x u)

lookup-store :
    (u v : List ℕ) (c : Connection) (g : Connections)
    → eqb u v ≡ false
    → lookup v (store u c g) ≡ lookup v g
unfolding lookup store
lookup-store u v c [] n = refl
lookup-store u v c ((x, d) ∷ g) n = ground (arith, lookup-store u v c g n, eq_of_eqb x u)

lookup-connect :
    (w : Guest) (u v : List ℕ) (g : Connections)
    → eqb u v ≡ false
    → lookup v (connect w u g) ≡ lookup v g
unfolding lookup connect
lookup-connect w u v g n = ground (arith, n)

lookup-answered :
    (w : Guest) (u v : List ℕ) (d : Connection) (r : Result) (output : Counters) (g : Connections)
    → eqb u v ≡ false
    → lookup v (answered w u (d, r) output g).0 ≡ lookup v g
unfolding answered
lookup-answered w u v d aborted output g n = refl
lookup-answered w u v d overrun output g n = refl
lookup-answered w u v d failed output g n =
    ground (arith, lookup-connect w u v (erase u g) n, lookup-erase u v g n, lookup-store u v d g n)
lookup-answered w u v d (line b) output g n = lookup-store u v d g n

-- A query of one guest leaves the connections to all others as they are.
data_from_lin_vm-other :
    (w : Guest) (u v : List ℕ) (output : Counters) (g : Connections)
    → eqb u v ≡ false
    → lookup v (data_from_lin_vm w u output g).0 ≡ lookup v g
unfolding data_from_lin_vm
data_from_lin_vm-other w u v output g n = elim (Option-cases (lookup u g)) [
  | inl e ↦ rw (e, data_from_lin_vm) (lookup-connect w u v g n)
  | inr (c, e) ↦
      rw (e, data_from_lin_vm)
        (lookup-answered w u v (get_last_line w.reads c).0 (get_last_line w.reads c).1 output g n)
]

lookup-erase_self : (u : List ℕ) (g : Connections) → lookup u (erase u g) ≡ none
unfolding lookup erase
lookup-erase_self u [] = refl
lookup-erase_self u ((x, c) ∷ g) = ground (arith, lookup-erase_self u g)

abbrev pub fresh : Guest → Option Connection
fresh w = if w.reached then some (record { buffer = []; errors = 0 }) else none

lookup-connect_self :
    (w : Guest) (u : List ℕ) (g : Connections)
    → lookup u g ≡ none
    → lookup u (connect w u g) ≡ fresh w
unfolding lookup connect
lookup-connect_self w u g e = ground (arith, e, eqb_refl u)

lookup-store_self :
    (u : List ℕ) (c d : Connection) (g : Connections)
    → lookup u g ≡ some c
    → lookup u (store u d g) ≡ some d
unfolding lookup store
lookup-store_self u c d [] e = absurd (cc)
lookup-store_self u c d ((x, y) ∷ g) e = ground (arith, lookup-store_self u c d g)

answered-failed :
    (w : Guest) (u : List ℕ) (c d : Connection) (r : Result) (output : Counters) (g : Connections)
    → lookup u g ≡ some c
    → r ≡ failed
    → Counted c d r
    → (lookup u (answered w u (d, r) output g).0
        ≡ (if not w.alive || (c.errors == 2) then fresh w else some d))
      × ((answered w u (d, r) output g).1 ≡ some output)
      × (d.errors ≡ suc c.errors)
unfolding answered lost_signal
answered-failed w u c d aborted output g e f k = absurd (cc)
answered-failed w u c d overrun output g e f k = absurd (cc)
answered-failed w u c d (line b) output g e f k = absurd (cc)
answered-failed w u c d failed output g e f k = (
  ground (
    arith,
    k,
    lookup-connect_self w u (erase u g) (lookup-erase_self u g),
    lookup-store_self u c d g e,
  ),
  ground arith,
  k,
)

answered-line :
    (w : Guest) (u : List ℕ) (c d : Connection) (r : Result) (output : Counters) (g : Connections)
    (b : List ℕ)
    → lookup u g ≡ some c
    → r ≡ line b
    → Counted c d r
    → ((x : Connection) × (lookup u (answered w u (d, r) output g).0 ≡ some x) × (x.errors ≡ 0))
      × ((answered w u (d, r) output g).1 ≡ some (read_line b output))
unfolding answered
answered-line w u c d aborted output g b e f k = absurd (cc)
answered-line w u c d overrun output g b e f k = absurd (cc)
answered-line w u c d failed output g b e f k = absurd (cc)
answered-line w u c d (line a) output g b e f k =
    ((d, lookup-store_self u c d g e, k), ap (λ r. some (read_line r output)) (line_unique a b f))

-- A query of a guest whose connection gives no line: where the program no longer runs, or that was the
-- third failure in a row, the connection is made anew, or is gone if the guest cannot be reached;
-- otherwise the failure is counted. No counter changes.
pub data_from_lin_vm-failed :
    (w : Guest) (u : List ℕ) (output : Counters) (g : Connections) (c : Connection)
    → lookup u g ≡ some c
    → (get_last_line w.reads c).1 ≡ failed
    → (lookup u (data_from_lin_vm w u output g).0
        ≡ (if not w.alive || (c.errors == 2) then fresh w else some (get_last_line w.reads c).0))
      × ((data_from_lin_vm w u output g).1 ≡ some output)
      × ((get_last_line w.reads c).0.errors ≡ suc c.errors)
unfolding data_from_lin_vm
data_from_lin_vm-failed w u output g c e f =
    rw (e, data_from_lin_vm)
      (answered-failed w u c (get_last_line w.reads c).0 (get_last_line w.reads c).1 output g e f
        (get_last_line-errors w.reads c))

-- A query of a guest whose connection gives a line reads it into the counters, and leaves the
-- connection without errors.
pub data_from_lin_vm-line :
    (w : Guest) (u : List ℕ) (output : Counters) (g : Connections) (c : Connection) (b : List ℕ)
    → lookup u g ≡ some c
    → (get_last_line w.reads c).1 ≡ line b
    → ((d : Connection) × (lookup u (data_from_lin_vm w u output g).0 ≡ some d) × (d.errors ≡ 0))
      × ((data_from_lin_vm w u output g).1 ≡ some (read_line b output))
unfolding data_from_lin_vm
data_from_lin_vm-line w u output g c b e f =
    rw (e, data_from_lin_vm)
      (answered-line w u c (get_last_line w.reads c).0 (get_last_line w.reads c).1 output g b e f
        (get_last_line-errors w.reads c))
