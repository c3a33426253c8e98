-- ===== src/Disk/Laws.antt =====
-- Which device a counter is about, and what an event changes.
use rmond_drs.Base.{
  ℕ, ◌==◌, eqb, ◌≡◌, ◌≢◌, refl, ap, sym, ◌∙◌, true, ◌&&◌, List, [], ◌∷◌, some, arith, ==_iff, inl,
  inr, Option-cases, Bool-cases,
}
use rmond_drs.Oid.{Oid, IndexOrder}
use rmond_drs.Tuple.{Tuple}
use rmond_drs.Table.{Table, find}
use rmond_drs.Table.Laws.{IsValid}
use rmond_drs.License.{starts_with, ends_with, strtoul}
use rmond_drs.License.Suffix.{ends_with-exclusive}
use rmond_drs.Perspective.{tuple}
use rmond_drs.Perspective.Rows.{touch_lem}
use rmond_drs.Devices.{devices}
use rmond_drs.Devices.Laws.{In, In-devices}
use rmond_drs.Disk.{
  Interfaces, Device, Disk, Hash, row, put_counter, determine, match_prefix, find_device, prefixes,
  device_interface, device_name, index, after, read_requests_suffix, write_requests_suffix,
  read_total_suffix, write_total_suffix,
}
use rmond_drs.Disk.Io.{count, refresh}

-- The counters by their suffixes, and the column of each.
pub data Counter : Type 0 where
  read_requests write_requests read_total write_total : Counter

abbrev pub suffix : Counter → List ℕ
suffix read_requests = read_requests_suffix
suffix write_requests = write_requests_suffix
suffix read_total = read_total_suffix
suffix write_total = write_total_suffix

abbrev pub set_column : Counter → ℕ → Disk → Disk
set_column read_requests u r = record r { read_requests = u }
set_column write_requests u r = record r { write_requests = u }
set_column read_total u r = record r { read_bytes = u }
set_column write_total u r = record r { write_bytes = u }

-- A counter whose name ends in one of the four suffixes sets the column of that suffix in the row, and
-- changes no other.
put_counter-suffix :
    (k : Counter) (n : List ℕ) (u : ℕ) (r : Disk)
    → ends_with n (suffix k) ≡ true
    → put_counter n u r ≡ set_column k u r
unfolding put_counter
put_counter-suffix read_requests n u r e =
    rw
      (
        e,
        ends_with-exclusive n read_requests_suffix write_requests_suffix
            (unfold ends_with eqb in refl) (unfold ends_with eqb in refl) e,
        ends_with-exclusive n read_requests_suffix read_total_suffix (unfold ends_with eqb in refl)
            (unfold ends_with eqb in refl) e,
        ends_with-exclusive n read_requests_suffix write_total_suffix (unfold ends_with eqb in refl)
            (unfold ends_with eqb in refl) e,
      )
      refl
put_counter-suffix write_requests n u r e =
    rw
      (
        e,
        ends_with-exclusive n write_requests_suffix read_requests_suffix
            (unfold ends_with eqb in refl) (unfold ends_with eqb in refl) e,
        ends_with-exclusive n write_requests_suffix read_total_suffix (unfold ends_with eqb in refl)
            (unfold ends_with eqb in refl) e,
        ends_with-exclusive n write_requests_suffix write_total_suffix
            (unfold ends_with eqb in refl) (unfold ends_with eqb in refl) e,
      )
      refl
put_counter-suffix read_total n u r e =
    rw
      (
        e,
        ends_with-exclusive n read_total_suffix read_requests_suffix (unfold ends_with eqb in refl)
            (unfold ends_with eqb in refl) e,
        ends_with-exclusive n read_total_suffix write_requests_suffix (unfold ends_with eqb in refl)
            (unfold ends_with eqb in refl) e,
        ends_with-exclusive n read_total_suffix write_total_suffix (unfold ends_with eqb in refl)
            (unfold ends_with eqb in refl) e,
      )
      refl
put_counter-suffix write_total n u r e =
    rw
      (
        e,
        ends_with-exclusive n write_total_suffix read_requests_suffix (unfold ends_with eqb in refl)
            (unfold ends_with eqb in refl) e,
        ends_with-exclusive n write_total_suffix write_requests_suffix
            (unfold ends_with eqb in refl) (unfold ends_with eqb in refl) e,
        ends_with-exclusive n write_total_suffix read_total_suffix (unfold ends_with eqb in refl)
            (unfold ends_with eqb in refl) e,
      )
      refl

-- A device that the interface and the number of a counter name.
abbrev pub Named : Interfaces → ℕ → ℕ → List ℕ → List Device → Type 0
Named f a b name ds =
    (d : Device) × In d ds × (device_interface f d ≡ a) × (index d ≡ b) × (device_name d ≡ name)

name_unique : (a b : List ℕ) → some a ≡ some b → a ≡ b
name_unique a b e = cc

find_device-Named :
    (f : Interfaces) (a b : ℕ) (ds : List Device) (name : List ℕ)
    → find_device f a b ds ≡ some name
    → Named f a b name ds
unfolding find_device
find_device-Named f a b [] name e = absurd (cc)
find_device-Named f a b (d ∷ ds) name e =
    elim (Bool-cases ((a == device_interface f d) && (index d == b))) [
      | inl h ↦ (
        d,
        inl refl,
        sym ((==_iff a (device_interface f d)).0 (ground (arith, h))),
        (==_iff (index d) b).0 (ground (arith, h)),
        name_unique (device_name d) name (ground (arith, e, h)),
      )
      | inr h ↦
          let (x, i, p, q, r) = find_device-Named f a b ds name (ground (arith, e, h)) in
          (x, inr i, p, q, r)
    ]

-- The interface and the number that the prefix of a counter and what follows it give.
abbrev pub Prefixed : List ℕ → List (List ℕ × ℕ) → ℕ → ℕ → Type 0
Prefixed counter ps a b =
    (p : List ℕ) × In (p, a) ps × (starts_with counter p ≡ true) × (strtoul (after counter p) ≡ b)

match_prefix-Prefixed :
    (counter : List ℕ) (ps : List (List ℕ × ℕ)) (a b : ℕ)
    → match_prefix counter ps ≡ some (a, b)
    → Prefixed counter ps a b
unfolding match_prefix
match_prefix-Prefixed counter [] a b e = absurd (cc)
match_prefix-Prefixed counter ((p, c) ∷ ps) a b e = elim (Bool-cases (starts_with counter p)) [
  | inl h ↦ (p, inl (ap (λ x. (p, x)) (ground (arith, e, h))), h, ground (arith, e, h))
  | inr h ↦
      let (q, i, s, r) = match_prefix-Prefixed counter ps a b (ground (arith, e, h)) in
      (q, inr i, s, r)
]

-- The device that a counter is found to be about is a hard disk of the environment; its interface and
-- index are those that the name of the counter gives, by a prefix and the number after it, and the
-- number is not 2^32 - 1.
pub determine-Named :
    (hard : ℕ) (f : Interfaces) (ds : List Device) (counter name : List ℕ)
    → determine hard f ds counter ≡ some name
    → (a : ℕ) × (b : ℕ) × (d : Device) × Prefixed counter (prefixes f) a b
      × (b ≢ 4294967295)
      × In d ds
      × (d.device_type ≡ some hard)
      × (device_interface f d ≡ a)
      × (index d ≡ b)
      × (device_name d ≡ name)
unfolding determine
determine-Named hard f ds counter name e = elim (Option-cases (match_prefix counter (prefixes f))) [
  | inl h ↦ absurd (ground (arith, e, h))
  | inr ((a, b), h) ↦
      let (d, i, p, q, r) =
        find_device-Named f a b (devices hard (λ d. d.device_type) ds) name
          (ground (arith, e, h)) in
      let (j, t) = In-devices hard (λ d. d.device_type) d ds i in
      (
        a,
        b,
        d,
        match_prefix-Prefixed counter (prefixes f) a b h,
        ground (arith, e, h),
        j,
        t,
        p,
        q,
        r,
      )
]

module _ ⦃o : IndexOrder⦄ where
  -- An event about a disk, in a well-formed table, whose device is known, whose value can be read, and
  -- whose name ends in the suffix of a counter: the device's row, which is made where there is none,
  -- takes the value in that counter's column, all its other columns and any other row are as before.
  pub refresh_lem :
      (hard : ℕ) (f : Interfaces) (ds : List Device) (key : List ℕ → Oid) (hash : Hash)
      (n name : List ℕ) (k : Counter) (c u : ℕ) (j : Oid) (t : Table Disk) (x : Tuple Disk)
      → IsValid t
      → ends_with (c ∷ n) (suffix k) ≡ true
      → determine hard f ds (c ∷ n) ≡ some name
      → j ≢ key name
      → find j t ≡ some x
      → (find (key name) (refresh hard f ds key hash (c ∷ n) (some u) t)
          ≡ some (record (tuple (key name) (row hash name) t).1 {
            cells = set_column k u (tuple (key name) (row hash name) t).1.cells;
          }))
        × (find j (refresh hard f ds key hash (c ∷ n) (some u) t) ≡ some x)
  unfolding refresh count
  refresh_lem hard f ds key hash n name k c u j t x v g e i p =
      let l = touch_lem (key name) j (row hash name) (put_counter (c ∷ n) u) t x v in
      rw (e, refresh)
        (
          l.0
              ∙ ap (λ z. some (record (tuple (key name) (row hash name) t).1 { cells = z }))
                  (put_counter-suffix k (c ∷ n) u (tuple (key name) (row hash name) t).1.cells g),
          l.1 i p,
        )
