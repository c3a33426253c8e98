-- ===== src/Table.antt =====
-- `Table::Unit` of src/table.h: the rows of a table, kept in a container of pairs of an index and a
-- shared pointer. The pointers held by the container are the owners of the tuples, so a tuple is
-- alive between calls exactly while its row is in the table; weak pointers are ids.
pub mod Laws
pub mod Rows
pub mod Edits
pub mod Lookup
pub mod Registration
use rmond_drs.Base.{
  ℕ, suc, Bool, true, false, ◌==◌, if◌then◌else◌, List, [], ◌∷◌, Option, none, some, Outcome, ok,
  fault,
}
use rmond_drs.Oid.{Oid, IndexOrder}
use rmond_drs.Container.{Memory}
use rmond_drs.Container
use rmond_drs.Tuple.{Tuple, Schema, Cell, from_request}

-- `fresh` is the id of the next tuple that is allocated.
pub record Table (R : Type 0) : Type 0 where
  pub rows : List (Oid × Tuple R)
  pub fresh : ℕ

module _ {R : Type 0} where
  -- `boost::weak_ptr::lock` of the tuple with the id.
  unfoldable pub lock : ℕ → List (Oid × Tuple R) → Option (Tuple R)
  lock id [] = none
  lock id ((k, t) ∷ s) = let rest = lock id s in if t.id == id then some t else rest

  -- A write through a pointer to the tuple with the id.
  unfoldable pub mutate : ℕ → (R → R) → List (Oid × Tuple R) → List (Oid × Tuple R)
  mutate id f [] = []
  mutate id f ((k, t) ∷ s) =
      let rest = mutate id f s in
      if t.id == id then (k, record t { cells = f t.cells }) ∷ s else (k, t) ∷ rest

  abbrev pub update : ℕ → (R → R) → Table R → Table R
  update id f t = record t { rows = mutate id f t.rows }

  -- `Unit::extract`: the row that the container's handler left in the request, if any. Its pointer
  -- dangles once the row is erased.
  unfoldable pub extract : Option ℕ → Table R → Outcome (Option (Tuple R))
  extract none t = ok none
  extract (some id) t = elim (lock id t.rows) [ none ↦ fault | some r ↦ ok (some r) ]

  -- `new tuple_type(request)`.
  unfoldable pub allocate : Schema R → Cell → Table R → Tuple R × Table R
  allocate s c t = (from_request s t.fresh c, record t { fresh = suc t.fresh })

  module _ ⦃o : IndexOrder⦄ where
    unfoldable pub find : Oid → Table R → Option (Tuple R)
    find k t = Container.find k t.rows

    -- True is a failure; the container never reports one.
    unfoldable pub insert : Tuple R → Table R → Table R × Bool
    insert r t =
        let (rows, e) = Container.insert r.key r t.rows in
        if e == 0 then (record t { rows = rows }, false) else (t, true)

    unfoldable pub erase : Tuple R → Table R → Table R × Bool
    erase r t = elim (Container.find r.key t.rows) [
      | none ↦ (t, true)
      | some w ↦ (record t { rows = (Container.remove r.key t.rows).0 }, false)
    ]

    -- `none` of `CONTAINER_GET_SUBSET` is an empty list.
    unfoldable pub range : Memory → Oid → Table R → List (Tuple R)
    range m k t = elim (Container.get_subset m k t.rows) [ none ↦ [] | some ts ↦ ts ]
