-- ===== src/Disk/Io.antt =====
-- `Disk::Io` of src/ve.cpp.
use rmond_drs.Base.{ℕ, List, [], ◌∷◌, Option, none, some}
use rmond_drs.Oid.{Oid, IndexOrder}
use rmond_drs.Table.{Table}
use rmond_drs.Perspective.{tuple, touch}
use rmond_drs.Disk.{Interfaces, Device, determine, Disk, Hash, row, put_counter}

module _ ⦃o : IndexOrder⦄ where
  -- `Io::refresh` from the name of the device on, while the table is alive; `u` is the value, if it can
  -- be read.
  unfoldable pub count :
      (List ℕ → Oid) → Hash → List ℕ → List ℕ → Option ℕ → Table Disk → Table Disk
  unfolding tuple touch put_counter
  count key hash counter name none t = (tuple (key name) (row hash name) t).0
  count key hash counter name (some u) t =
      touch (key name) (row hash name) (put_counter counter u) t

  -- `Io::refresh`, of the event's name, which is empty where it cannot be read.
  unfoldable pub refresh :
      ℕ
      → Interfaces
      → List Device
      → (List ℕ → Oid)
      → Hash
      → List ℕ
      → Option ℕ
      → Table Disk
      → Table Disk
  unfolding determine count
  refresh hard f ds key hash [] u t = t
  refresh hard f ds key hash (c ∷ cs) u t = elim (determine hard f ds (c ∷ cs)) [
    | none ↦ t
    | some name ↦ count key hash (c ∷ cs) name u t
  ]
