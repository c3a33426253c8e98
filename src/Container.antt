-- ===== src/Container.antt =====
-- The container "threadsafe_array" of src/container.h and src/container.cpp: a std::set of rows
-- under the order of their indices. Every method holds the container's lock, so each is one step.
-- The set is the list of its rows in the order in which the set keeps them.
pub mod Laws
pub mod Walk
use rmond_drs.Base.{ℕ, Bool, true, false, if◌then◌else◌, List, [], ◌∷◌, Option, none, some, length}
use rmond_drs.Oid.{Oid, IndexOrder, less}

-- The int -1, as a bit pattern.
abbrev pub minus_one : ℕ
minus_one = 4294967295

-- `malloc` may fail: what the two allocations of `getSubset` return.
pub record Memory : Type 0 where
  pub array : Bool
  pub header : Bool

module _ {ℓ} {V : Type ℓ} ⦃o : IndexOrder⦄ where
  -- `std::set::insert`: a row with an equivalent key stays, and the new one is not taken.
  unfoldable pub add : Oid → V → List (Oid × V) → List (Oid × V)
  add k v [] = (k, v) ∷ []
  add k v ((j, w) ∷ s) =
      let rest = add k v s in
      if less j k then (j, w) ∷ rest else if less k j then (k, v) ∷ (j, w) ∷ s else (j, w) ∷ s

  -- `Unit::insert` answers 0 whatever the set did.
  unfoldable pub insert : Oid → V → List (Oid × V) → List (Oid × V) × ℕ
  insert k v s = (add k v s, 0)

  unfoldable pub find : Oid → List (Oid × V) → Option V
  find k [] = none
  find k ((j, w) ∷ s) =
      let rest = find k s in if less j k then rest else if less k j then none else some w

  -- `std::set::upper_bound`.
  unfoldable pub upper_bound : Oid → List (Oid × V) → List (Oid × V)
  upper_bound k [] = []
  upper_bound k ((j, w) ∷ s) = let rest = upper_bound k s in if less k j then (j, w) ∷ s else rest

  abbrev pub first : List (Oid × V) → Option (Oid × V)
  first [] = none
  first (e ∷ s) = some e

  -- `none` is the null key, which asks for the first row.
  unfoldable pub find_next : Option Oid → List (Oid × V) → Option (Oid × V)
  find_next none s = first s
  find_next (some k) s = first (upper_bound k s)

  unfoldable pub size : List (Oid × V) → ℕ
  size s = length s

  unfoldable pub drop_key : Oid → List (Oid × V) → List (Oid × V)
  drop_key k [] = []
  drop_key k ((j, w) ∷ s) =
      let rest = drop_key k s in
      if less j k then (j, w) ∷ rest else if less k j then (j, w) ∷ s else s

  -- An empty set answers 0 before it looks for the row.
  unfoldable pub remove_found : Oid → Option V → List (Oid × V) → List (Oid × V) × ℕ
  remove_found k r [] = ([], 0)
  remove_found k none (e ∷ s) = (e ∷ s, minus_one)
  remove_found k (some v) (e ∷ s) = (drop_key k (e ∷ s), 0)

  unfoldable pub remove : Oid → List (Oid × V) → List (Oid × V) × ℕ
  unfolding remove_found find drop_key
  remove k s = remove_found k (find k s) s

  unfoldable pub clear : List (Oid × V) → List (Oid × V)
  clear s = []

  -- `std::lower_bound`, and the rows from there up to `std::upper_bound`.
  lower_bound : Oid → List (Oid × V) → List (Oid × V)
  lower_bound k [] = []
  lower_bound k ((j, w) ∷ s) = let rest = lower_bound k s in if less j k then rest else (j, w) ∷ s

  up_to : Oid → List (Oid × V) → List V
  up_to k [] = []
  up_to k ((j, w) ∷ s) = let rest = up_to k s in if less k j then [] else w ∷ rest

  unfoldable pub equal_range : Oid → List (Oid × V) → List V
  unfolding lower_bound up_to
  equal_range k s = up_to k (lower_bound k s)

  subset_of : Memory → List V → Option (List V)
  subset_of m [] = none
  subset_of m (v ∷ vs) = if m.array then (if m.header then some (v ∷ vs) else none) else none

  unfoldable pub get_subset : Memory → Oid → List (Oid × V) → Option (List V)
  unfolding subset_of equal_range
  get_subset m k s = subset_of m (equal_range k s)
