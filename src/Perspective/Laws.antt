-- ===== src/Perspective/Laws.antt =====
-- What becomes of the rows of an environment.
use rmond_drs.Base.{
  ◌≡◌, refl, true, if◌then◌else◌, List, [], ◌∷◌, Option, none, some, arith, length,
}
use rmond_drs.Oid.{Oid, IndexOrder}
use rmond_drs.Container.{Memory}
use rmond_drs.Container
use rmond_drs.Container.Laws.{find-add, same, same_self}
use rmond_drs.Tuple.{Tuple}
use rmond_drs.Table.{Table, find, insert}
use rmond_drs.Table.Laws.{IsValid, range-Longer}
use rmond_drs.Table.Lookup.{Longer}
use rmond_drs.Perspective.{Flavor, store, insert_all, apply_all, merge, tuple, tuple_at}

module _ {R : Type 0} ⦃o : IndexOrder⦄ where
  pub find-store :
      (j k : Oid) (r : R) (t : Table R)
      → find j (store k r t) ≡ (elim (find j t) [
        | some w ↦ some w
        | none ↦ if same j k then some (record { id = t.fresh; key = k; cells = r }) else none
      ])
  unfolding store insert find Container.insert
  find-store j k r t = find-add j k (record { id = t.fresh; key = k; cells = r }) t.rows

  find-insert_all :
      (j : Oid) (w : Tuple R) (rs : List (Oid × R)) (t : Table R)
      → find j t ≡ some w
      → find j (insert_all rs t) ≡ some w
  unfolding insert_all
  find-insert_all j w [] t e = e
  find-insert_all j w ((k, r) ∷ rs) t e =
      find-insert_all j w rs (store k r t) (ground (arith, find-store j k r t))

  -- In a valid table whose indices are all longer than the environment's, as those of its rows are,
  -- and where no allocation fails, a merge neither updates nor erases any row, whatever the update
  -- asks for: each row that was there is there as it was.
  pub merge_keeps :
      {F : Type 0} (v : Flavor R F) (m : Memory) (parent j : Oid) (f : F) (t : Table R)
      (w : Tuple R)
      → IsValid t
      → Longer (length parent) t.rows
      → m.array ≡ true
      → m.header ≡ true
      → find j t ≡ some w
      → find j (merge v m parent f t) ≡ some w
  unfolding merge apply_all
  merge_keeps v m parent j f t w c l a h e =
      rw (range-Longer m parent t c l a h) (find-insert_all j w (v.rest (v.fill f)) t e)

  placed :
      (l : Option (Tuple R)) (k : Oid) (r : R) (j : Oid) (w : Tuple R) (t : Table R)
      → find k t ≡ l
      → find j t ≡ some w
      → (find k (tuple_at l k r t).0 ≡ some (tuple_at l k r t).1)
        × (find j (tuple_at l k r t).0 ≡ some w)
  unfolding tuple_at
  placed (some x) k r j w t d e = (d, e)
  placed none k r j w t d e =
      (ground (arith, find-store k k r t, same_self k), ground (arith, find-store j k r t))

  found :
      (l : Option (Tuple R)) (k : Oid) (r : R) (t : Table R)
      → find k t ≡ l
      → find k (tuple_at l k r t).0 ≡ some (tuple_at l k r t).1
  unfolding tuple_at
  found (some x) k r t d = d
  found none k r t d = ground (arith, find-store k k r t, same_self k, d)

  pub tuple-find : (k : Oid) (r : R) (t : Table R) → find k (tuple k r t).0 ≡ some (tuple k r t).1
  unfolding tuple
  tuple-find k r t = found (find k t) k r t refl

  -- The row that `tuple` gives stands under its index afterwards, and any row that was there before is
  -- there as it was.
  pub tuple_lem :
      (k : Oid) (r : R) (j : Oid) (w : Tuple R) (t : Table R)
      → find j t ≡ some w
      → (find k (tuple k r t).0 ≡ some (tuple k r t).1) × (find j (tuple k r t).0 ≡ some w)
  unfolding tuple
  tuple_lem k r j w t e = placed (find k t) k r j w t refl e
