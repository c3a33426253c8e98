-- ===== src/Devices.antt =====
-- `Iterator` and `Devices` of src/ve.cpp: the loop over what a policy takes, and the list of a virtual
-- environment's devices. A device of the policy is of the type D.
pub mod Laws
use rmond_drs.Base.{
  ℕ, zero, suc, ◌+◌, ◌==◌, Bool, true, false, ◌&&◌, if◌then◌else◌, List, [], ◌∷◌, Option, none,
  some, length,
}

-- `Iterator`: `ended` is whether `m_h` is `H()`, which no live handle is.
pub record Iterator (D : Type 0) : Type 0 where
  pub ended : Bool
  pub p : ℕ
  pub value : Option D

module _ {D : Type 0} where
  -- The loop of `Iterator::increment`, from `m_p`; `take n` is `P::take(m_h, n)`.
  unfoldable pub increment : (ℕ → Option D) → ℕ → Iterator D
  increment take zero = record { ended = true; p = 0; value = none }
  increment take (suc n) = elim (take n) [
    | none ↦ increment take n
    | some d ↦ record { ended = false; p = n; value = some d }
  ]

  -- `Iterator(H)`, of `P::count`.
  unfoldable pub begin : (ℕ → Option D) → ℕ → Iterator D
  unfolding increment
  begin take count = increment take count

  -- `equal` with `Iterator()`.
  unfoldable pub at_end : Iterator D → Bool
  at_end i = i.ended && (i.p == 0)

  abbrev pub add_value : Option D → List D → List D
  add_value none ds = ds
  add_value (some d) ds = d ∷ ds

  -- `for (; p != e; ++p)`, on fuel: the devices that are seen.
  unfoldable pub traverse : (ℕ → Option D) → ℕ → Iterator D → List D
  unfolding increment at_end
  traverse take zero i = []
  traverse take (suc n) i =
      let rest = traverse take n (increment take i.p) in
      if at_end i then [] else add_value i.value rest

  -- A whole loop: it makes at most one step for each device, and one to see the end.
  unfoldable pub each : (ℕ → Option D) → ℕ → List D
  unfolding begin traverse
  each take count = traverse take (suc count) (begin take count)

  unfoldable pub nth : List D → ℕ → Option D
  nth [] n = none
  nth (d ∷ ds) zero = some d
  nth (d ∷ ds) (suc n) = nth ds n

  abbrev pub typed : ℕ → (D → Option ℕ) → Option D → Option D
  typed t type none = none
  typed t type (some d) = elim (type d) [ none ↦ none | some k ↦ if k == t then some d else none ]

  -- `Devices::take`: `type` is what `PrlVmDev_GetType` gives.
  unfoldable pub take : ℕ → (D → Option ℕ) → List D → ℕ → Option D
  unfolding nth
  take t type ds n = typed t type (nth ds n)

  -- The places of an array.
  unfoldable pub array : ℕ → (ℕ → D) → List D
  array zero place = []
  array (suc n) place = place 0 ∷ array n (λ i. place (suc i))

  -- `Devices::make`: the count that `PrlVmCfg_GetDevsCount` gives is that of the array, and `place` is
  -- what `PrlVmCfg_GetDevsList` leaves in each place, also in one that it does not fill.
  unfoldable pub make : Option ℕ → Option (ℕ → D) → List D
  unfolding array
  make none place = []
  make (some n) none = []
  make (some n) (some place) = array n place

  -- The devices of a type, in the order of a loop over the array.
  unfoldable pub devices : ℕ → (D → Option ℕ) → List D → List D
  unfolding take each
  devices t type ds = each (take t type ds) (length ds)
