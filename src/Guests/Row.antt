-- ===== src/Guests/Row.antt =====
-- The row of the counters of an environment.
use rmond_drs.Base.{◌≡◌, true, none, some, arith, inl, inr, Option-cases}
use rmond_drs.Oid.{Oid, IndexOrder}
use rmond_drs.Container.{Memory}
use rmond_drs.Container.Laws.{same_self}
use rmond_drs.Tuple.{Tuple}
use rmond_drs.Table.{Table, find, update}
use rmond_drs.Table.Laws.{IsValid, range-find, find-update}
use rmond_drs.Perspective.{store, insert_all, apply_all, merge}
use rmond_drs.Perspective.Laws.{find-store}
use rmond_drs.Guest.Stats.{Counters}
use rmond_drs.Guests.{linux}

module _ ⦃o : IndexOrder⦄ where
  find-store_taken :
      (k : Oid) (r : Counters) (t : Table Counters) (w : Tuple Counters)
      → find k t ≡ some w
      → find k (store k r t) ≡ some w
  find-store_taken k r t w e = ground (arith, find-store k k r t, e)

  -- In a valid table, where no allocation fails, a merge of the counters of an environment leaves them
  -- in its row: in the row that was there, with its tuple, or else in a new one.
  pub merge-linux :
      (m : Memory) (key : Oid) (sp old : Counters) (t : Table Counters)
      → IsValid t
      → m.array ≡ true
      → m.header ≡ true
      → find key (merge (linux key sp) m key old t)
        ≡ some (elim (find key t) [
          | some w ↦ record w { cells = sp }
          | none ↦ record { id = t.fresh; key = key; cells = sp }
        ])
  unfolding merge apply_all insert_all linux
  merge-linux m key sp old t v a h = elim (Option-cases (find key t)) [
    | inr (w, e) ↦
        rw (range-find m key t v a h, e)
          (find-store_taken key sp (update w.id (λ _. sp) t) (record w { cells = sp })
            (find-update key (λ _. sp) t w v e))
    | inl e ↦
        rw (range-find m key t v a h, e) (ground (arith, e, find-store key key sp t, same_self key))
  ]
