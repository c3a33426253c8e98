-- ===== src/Network/Traffic.antt =====
-- `Network::Traffic::Event` of src/ve.cpp.
use rmond_drs.Base.{ℕ, List, [], ◌∷◌, Option, none, some}
use rmond_drs.Oid.{Oid, IndexOrder}
use rmond_drs.Table.{Table}
use rmond_drs.Perspective.{tuple, touch}
use rmond_drs.Devices.{devices}
use rmond_drs.Network.{Device, determine, Interface, row, put_counter}

module _ ⦃o : IndexOrder⦄ where
  -- `Event::refresh` from the device on, while the table is alive; `u` is the value, if it can be read.
  unfoldable pub count :
      (List ℕ → Oid) → List ℕ → Device → Option ℕ → Table Interface → Table Interface
  unfolding tuple touch put_counter
  count key counter d none t = (tuple (key d.name) (row d) t).0
  count key counter d (some u) t = touch (key d.name) (row d) (put_counter counter u) t

  -- `Event::refresh`, of the event's name, which is empty where it cannot be read.
  unfoldable pub refresh :
      ℕ → List Device → (List ℕ → Oid) → List ℕ → Option ℕ → Table Interface → Table Interface
  unfolding determine devices count
  refresh adapter ds key [] u t = t
  refresh adapter ds key (c ∷ cs) u t =
      elim (determine (c ∷ cs) (devices adapter (λ d. d.device_type) ds)) [
        | none ↦ t
        | some d ↦ count key (c ∷ cs) d u t
      ]
