-- ===== src/Ve/Cpus.antt =====
-- The events and queries about virtual CPUs in src/ve.cpp: `CPU::Virtual::Event` and `CPU::Usage`.
use rmond_drs.Base.{ℕ, ◌==◌, Bool, true, false, if◌then◌else◌, List, [], ◌∷◌, Option, none, some}
use rmond_drs.Oid.{Oid, IndexOrder}
use rmond_drs.Container.{Memory}
use rmond_drs.Table.{Table}
use rmond_drs.License.{starts_with, ends_with, strtoul}
use rmond_drs.Perspective.{Cpu, Update, cpus, merge, tuple, touch}
use rmond_drs.Disk.{after, or_else}
use rmond_drs.Ve.{Ve}

-- "guest.vcpu"
abbrev pub vcpu_prefix : List ℕ
vcpu_prefix = 103 ∷ 117 ∷ 101 ∷ 115 ∷ 116 ∷ 46 ∷ 118 ∷ 99 ∷ 112 ∷ 117 ∷ []

-- ".time"
abbrev pub time_suffix : List ℕ
time_suffix = 46 ∷ 116 ∷ 105 ∷ 109 ∷ 101 ∷ []

-- The ordinal that the name of a counter gives, if it is one of a virtual CPU.
unfoldable pub ordinal_of : List ℕ → Option ℕ
unfolding starts_with after strtoul
ordinal_of n =
    if starts_with n vcpu_prefix
    then (if strtoul (after n vcpu_prefix) == 4294967295
        then none
        else some (strtoul (after n vcpu_prefix)))
    else none

abbrev pub row : ℕ → Cpu
row i = record { ordinal = i; time = 0 }

unfoldable pub put_time : List ℕ → ℕ → Cpu → Cpu
unfolding ends_with
put_time n u r = if ends_with n time_suffix then record r { time = u } else r

module _ ⦃o : IndexOrder⦄ where
  unfoldable pub count : (ℕ → Oid) → List ℕ → ℕ → Option ℕ → Table Cpu → Table Cpu
  unfolding tuple touch put_time
  count key n i none t = (tuple (key i) (row i) t).0
  count key n i (some u) t = touch (key i) (row i) (put_time n u) t

  -- `CPU::Virtual::Event::refresh`, of the event's name and its value, if it can be read.
  unfoldable pub refresh : (ℕ → Oid) → List ℕ → Option ℕ → Table Cpu → Table Cpu
  unfolding ordinal_of count
  refresh key n u t = elim (ordinal_of n) [ none ↦ t | some i ↦ count key n i u t ]

  -- `CPU::Usage::refresh`: `available` is whether there are statistics of a CPU, and the numbers are
  -- those that the SDK gives of it. The row is `none` where it is gone.
  unfoldable pub usage :
      (ℕ → Oid)
      → Memory
      → Oid
      → Bool
      → Option ℕ
      → Option ℕ
      → Update
      → Option Ve
      → Table Cpu
      → Option Ve × Table Cpu
  unfolding merge cpus
  usage key m parent false system user f y t = (y, t)
  usage key m parent true system user f none t = (none, t)
  usage key m parent true system user f (some y) t = (
    some
        (record y { cpu_system = or_else system y.cpu_system; cpu_user = or_else user y.cpu_user }),
    merge (cpus key) m parent f t,
  )
