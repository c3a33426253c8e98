-- ===== src/Scheduler/Order.antt =====
-- The order of due times.
use rmond_drs.Base.{◌&&◌, ◌||◌, not, ◌⊎◌, inl, inr, Bool-cases, ◌≡◌, true, false, arith}
use rmond_drs.Scheduler.{Timespec, less}

pub less_irrefl : (a : Timespec) → less a a ≡ false
unfolding less
less_irrefl a = ground arith

pub less_asym : (a b : Timespec) → less a b ≡ true → less b a ≡ false
unfolding less
less_asym a b h = ground arith

pub less_trans : (a b c : Timespec) → less a b ≡ true → less b c ≡ true → less a c ≡ true
unfolding less
less_trans a b c h k = ground arith

less_total : (a b : Timespec) → less a b ≡ false → less b a ≡ false → a ≡ b
unfolding less
less_total a b h k = ground arith

-- `less<timespec>` is a strict total order, as the multimap needs it: no time is before itself, no
-- two are before each other, it is transitive, and of two times one is before the other or they
-- are the same.
less_order :
    (a b c : Timespec)
    → (less a a ≡ false)
      × ((less a b && less b a) ≡ false)
      × ((not (less a b && less b c) || less a c) ≡ true)
      × ((less a b ≡ true) ⊎ (less b a ≡ true) ⊎ (a ≡ b))
less_order a b c = (
  less_irrefl a,
  ground (arith, less_asym a b),
  ground (arith, less_trans a b c),
  elim (Bool-cases (less a b)) [
    | inl e ↦ inl e
    | inr e ↦ elim (Bool-cases (less b a)) [
      | inl d ↦ inr (inl d)
      | inr d ↦ inr (inr (less_total a b e d))
    ]
  ],
)
