-- ===== src/Network/Laws.antt =====
-- Which adapter a counter is about, which one an interface belongs to, and what an event changes.
use rmond_drs.Base.{
  ℕ, ◌==◌, eqb, eq_of_eqb, eqb_refl, ◌≡◌, ◌≢◌, refl, ap, sym, ◌∙◌, true, List, [], ◌∷◌, All, none,
  some, arith, ==_iff, ◌⊎◌, inl, inr, Option-cases, Bool-cases,
}
use rmond_drs.Oid.{Oid, IndexOrder}
use rmond_drs.Tuple.{Tuple}
use rmond_drs.Table.{Table, find}
use rmond_drs.Table.Laws.{IsValid}
use rmond_drs.License.{starts_with, ends_with, strtoul}
use rmond_drs.License.Suffix.{ends_with-exclusive}
use rmond_drs.Perspective.{tuple}
use rmond_drs.Perspective.Rows.{touch_lem}
use rmond_drs.Devices.{devices}
use rmond_drs.Devices.Laws.{In, In-devices}
use rmond_drs.Disk.{after}
use rmond_drs.Network.{
  Device, Interface, row, put_counter, determine, by_name, by_index, find_device, or_first, index,
  nic_prefix, pkts_in_suffix, pkts_out_suffix, bytes_in_suffix, bytes_out_suffix,
}
use rmond_drs.Network.Traffic.{count, refresh}

-- The counters by their suffixes, and the column of each.
pub data Counter : Type 0 where
  pkts_in pkts_out bytes_in bytes_out : Counter

abbrev pub suffix : Counter → List ℕ
suffix pkts_in = pkts_in_suffix
suffix pkts_out = pkts_out_suffix
suffix bytes_in = bytes_in_suffix
suffix bytes_out = bytes_out_suffix

abbrev pub set_column : Counter → ℕ → Interface → Interface
set_column pkts_in u r = record r { in_packets = u }
set_column pkts_out u r = record r { out_packets = u }
set_column bytes_in u r = record r { in_bytes = u }
set_column bytes_out u r = record r { out_bytes = u }

-- A counter whose name ends in one of the four suffixes sets the column of that suffix in the row, and
-- changes no other.
put_traffic-suffix :
    (k : Counter) (n : List ℕ) (u : ℕ) (r : Interface)
    → ends_with n (suffix k) ≡ true
    → put_counter n u r ≡ set_column k u r
unfolding put_counter
put_traffic-suffix pkts_in n u r e =
    rw
      (
        e,
        ends_with-exclusive n pkts_in_suffix pkts_out_suffix (unfold ends_with eqb in refl)
            (unfold ends_with eqb in refl) e,
        ends_with-exclusive n pkts_in_suffix bytes_in_suffix (unfold ends_with eqb in refl)
            (unfold ends_with eqb in refl) e,
        ends_with-exclusive n pkts_in_suffix bytes_out_suffix (unfold ends_with eqb in refl)
            (unfold ends_with eqb in refl) e,
      )
      refl
put_traffic-suffix pkts_out n u r e =
    rw
      (
        e,
        ends_with-exclusive n pkts_out_suffix pkts_in_suffix (unfold ends_with eqb in refl)
            (unfold ends_with eqb in refl) e,
        ends_with-exclusive n pkts_out_suffix bytes_in_suffix (unfold ends_with eqb in refl)
            (unfold ends_with eqb in refl) e,
        ends_with-exclusive n pkts_out_suffix bytes_out_suffix (unfold ends_with eqb in refl)
            (unfold ends_with eqb in refl) e,
      )
      refl
put_traffic-suffix bytes_in n u r e =
    rw
      (
        e,
        ends_with-exclusive n bytes_in_suffix pkts_in_suffix (unfold ends_with eqb in refl)
            (unfold ends_with eqb in refl) e,
        ends_with-exclusive n bytes_in_suffix pkts_out_suffix (unfold ends_with eqb in refl)
            (unfold ends_with eqb in refl) e,
        ends_with-exclusive n bytes_in_suffix bytes_out_suffix (unfold ends_with eqb in refl)
            (unfold ends_with eqb in refl) e,
      )
      refl
put_traffic-suffix bytes_out n u r e =
    rw
      (
        e,
        ends_with-exclusive n bytes_out_suffix pkts_in_suffix (unfold ends_with eqb in refl)
            (unfold ends_with eqb in refl) e,
        ends_with-exclusive n bytes_out_suffix pkts_out_suffix (unfold ends_with eqb in refl)
            (unfold ends_with eqb in refl) e,
        ends_with-exclusive n bytes_out_suffix bytes_in_suffix (unfold ends_with eqb in refl)
            (unfold ends_with eqb in refl) e,
      )
      refl

device_unique : (x d : Device) → some x ≡ some d → x ≡ d
device_unique x d e = cc

by_name-In :
    (name : List ℕ) (ds : List Device) (d : Device)
    → by_name name ds ≡ some d
    → In d ds × (d.name ≡ name)
unfolding by_name
by_name-In name [] d e = absurd (cc)
by_name-In name (x ∷ ds) d e = elim (Bool-cases (eqb name x.name)) [
  | inl h ↦ (
    inl (sym (device_unique x d (ground (arith, e, h)))),
    sym (ap (λ x. x.name) (device_unique x d (ground (arith, e, h))))
        ∙ sym (eq_of_eqb name x.name h),
  )
  | inr h ↦ let (i, q) = by_name-In name ds d (ground (arith, e, h)) in (inr i, q)
]

by_name-none :
    (name : List ℕ) (ds : List Device) → by_name name ds ≡ none → All (λ x. x.name ≢ name) ds
unfolding by_name
by_name-none name [] e = tt
by_name-none name (x ∷ ds) e =
    ((λ q. ground (arith, e, q, eqb_refl name)), by_name-none name ds (ground (arith, e)))

or_first-none :
    (ds : List Device) (d : Device)
    → or_first none ds ≡ some d
    → (rest : List Device) × (ds ≡ d ∷ rest)
or_first-none [] d e = absurd (cc)
or_first-none (x ∷ ds) d e = (ds, cc)

-- The adapter that an interface is counted for is one of the list: the one with the name of the
-- interface, or, where no adapter has that name, the first.
find_device_lem :
    (name : List ℕ) (ds : List Device) (d : Device)
    → find_device name ds ≡ some d
    → (In d ds × (d.name ≡ name))
      ⊎ (All (λ x. x.name ≢ name) ds × ((rest : List Device) × (ds ≡ d ∷ rest)))
unfolding find_device
find_device_lem name ds d e = elim (Option-cases (by_name name ds)) [
  | inr (x, h) ↦ inl (by_name-In name ds d (ground (arith, e, h)))
  | inl h ↦ inr (by_name-none name ds h, or_first-none ds d (ground (arith, e, h)))
]

by_index-In :
    (i : ℕ) (ds : List Device) (d : Device) → by_index i ds ≡ some d → In d ds × (index d ≡ i)
unfolding by_index
by_index-In i [] d e = absurd (cc)
by_index-In i (x ∷ ds) d e = elim (Bool-cases (i == index x)) [
  | inl h ↦ (
    inl (sym (device_unique x d (ground (arith, e, h)))),
    sym (ap (λ x. index x) (device_unique x d (ground (arith, e, h))))
        ∙ sym ((==_iff i (index x)).0 h),
  )
  | inr h ↦ let (j, q) = by_index-In i ds d (ground (arith, e, h)) in (inr j, q)
]

-- The adapter that a counter is found to be about is one of the environment's network adapters, its
-- index is the number after "net.nic" in the name of the counter, and the number is not 2^32 - 1.
determine_lem :
    (adapter : ℕ) (counter : List ℕ) (ds : List Device) (d : Device)
    → determine counter (devices adapter (λ d. d.device_type) ds) ≡ some d
    → In d ds
      × (d.device_type ≡ some adapter)
      × (starts_with counter nic_prefix ≡ true)
      × (index d ≡ strtoul (after counter nic_prefix))
      × (strtoul (after counter nic_prefix) ≢ 4294967295)
unfolding determine
determine_lem adapter counter ds d e = elim (Bool-cases (starts_with counter nic_prefix)) [
  | inr h ↦ absurd (ground (arith, e, h))
  | inl h ↦ elim (Bool-cases (strtoul (after counter nic_prefix) == 4294967295)) [
    | inl g ↦ absurd (ground (arith, e, h, g))
    | inr g ↦
        let (i, p) =
          by_index-In (strtoul (after counter nic_prefix)) (devices adapter (λ d. d.device_type) ds)
            d (ground (arith, e, h, g)) in
        let (j, t) = In-devices adapter (λ d. d.device_type) d ds i in
        (j, t, h, p, ground (arith, g))
  ]
]

module _ ⦃o : IndexOrder⦄ where
  -- An event about network traffic, in a well-formed table, whose adapter is known and whose value can
  -- be read: the adapter's row, which is made where there is none, takes the value by the suffix of the
  -- counter, and any other row is as before.
  traffic_lem :
      (adapter : ℕ) (ds : List Device) (key : List ℕ → Oid) (n : List ℕ) (c u : ℕ) (d : Device)
      (j : Oid) (t : Table Interface) (x : Tuple Interface)
      → IsValid t
      → determine (c ∷ n) (devices adapter (λ d. d.device_type) ds) ≡ some d
      → j ≢ key d.name
      → find j t ≡ some x
      → (find (key d.name) (refresh adapter ds key (c ∷ n) (some u) t)
          ≡ some (record (tuple (key d.name) (row d) t).1 {
            cells = put_counter (c ∷ n) u (tuple (key d.name) (row d) t).1.cells;
          }))
        × (find j (refresh adapter ds key (c ∷ n) (some u) t) ≡ some x)
  unfolding refresh count
  traffic_lem adapter ds key n c u d j t x v e i p =
      let l = touch_lem (key d.name) j (row d) (put_counter (c ∷ n) u) t x v in
      rw (e, refresh) (l.0, l.1 i p)
