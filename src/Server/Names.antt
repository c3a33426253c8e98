-- ===== src/Server/Names.antt =====
-- `operator[]` of a map whose keys are strings, for src/mib.cpp and src/ve.cpp.
use rmond_drs.Base.{◌≡◌, true, if◌then◌else◌, List, [], ◌∷◌, some, arith}
use rmond_drs.Oid.{less, less_trans, less_asym, eq_of_less}
use rmond_drs.Container.{find}
use rmond_drs.Container.Laws.{Above, Sorted, Above-mono, same}
use rmond_drs.Server.{strings, Uuid, assign}

module _ {V : Type 0} where
  assign-Above :
      (i k : Uuid) (v : V) (s : List (Uuid × V))
      → less i k ≡ true
      → Above i s
      → Above i (assign k v s)
  unfolding assign
  assign-Above i k v [] h a = (h, tt)
  assign-Above i k v ((j, w) ∷ s) h a = ground (arith, assign-Above i k v s h a.1)

  pub assign-Sorted : (k : Uuid) (v : V) (s : List (Uuid × V)) → Sorted s → Sorted (assign k v s)
  unfolding assign
  assign-Sorted k v [] h = (tt, tt)
  assign-Sorted k v ((j, w) ∷ s) h =
      ground (arith, assign-Sorted k v s h.1, assign-Above j k v s, Above-mono k j s)

  pub find-assign :
      (j k : Uuid) (v : V) (s : List (Uuid × V))
      → Sorted s
      → find j (assign k v s) ≡ (if same j k then some v else find j s)
  unfolding find assign
  find-assign j k v [] h = ground arith
  find-assign j k v ((i, w) ∷ s) h = ground (
    arith,
    find-assign j k v s h.1,
    less_trans j k i,
    less_trans j i k,
    eq_of_less j k,
    eq_of_less i k,
    eq_of_less j i,
    less_asym k i,
    less_asym i k,
    less_asym j i,
    less_asym i j,
    less_trans i j k,
  )
