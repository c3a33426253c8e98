-- ===== src/Perspective/Rows.antt =====
-- A row that an event looks up or makes, in a table that is well formed.
use rmond_drs.Base.{ℕ, suc, ◌≡◌, ◌≢◌, List, [], ◌∷◌, Option, none, some, arith}
use rmond_drs.Oid.{Oid, IndexOrder}
use rmond_drs.Tuple.{Tuple}
use rmond_drs.Table.{Table, find}
use rmond_drs.Table.Rows.{Lacks, Below}
use rmond_drs.Table.Laws.{IsValid, insert-IsValid, update-IsValid, find-update, find-update_other}
use rmond_drs.Perspective.{store, tuple, tuple_at, touch}
use rmond_drs.Perspective.Laws.{tuple_lem, tuple-find}

module _ {R : Type 0} ⦃o : IndexOrder⦄ where
  Below-Lacks : (n : ℕ) (s : List (Oid × Tuple R)) → Below n s → Lacks n s
  Below-Lacks n [] h = tt
  Below-Lacks n ((k, t) ∷ s) h = (ground (arith, h.0), Below-Lacks n s h.1)

  Below-suc : (n : ℕ) (s : List (Oid × Tuple R)) → Below n s → Below (suc n) s
  Below-suc n [] h = tt
  Below-suc n ((k, t) ∷ s) h = (omega (arith, h.0), Below-suc n s h.1)

  pub store-IsValid : (k : Oid) (r : R) (t : Table R) → IsValid t → IsValid (store k r t)
  unfolding store
  store-IsValid k r t v =
      insert-IsValid (record { id = t.fresh; key = k; cells = r })
        (record t { fresh = suc t.fresh })
        (record {
          sorted = v.sorted;
          keyed = v.keyed;
          distinct = v.distinct;
          below = Below-suc t.fresh t.rows v.below;
        })
        (omega arith) (Below-Lacks t.fresh t.rows v.below)

  tuple_at-IsValid :
      (w : Option (Tuple R)) (k : Oid) (r : R) (t : Table R)
      → IsValid t
      → IsValid (tuple_at w k r t).0
  unfolding tuple_at
  tuple_at-IsValid (some w) k r t v = v
  tuple_at-IsValid none k r t v = store-IsValid k r t v

  -- The table stays well formed.
  tuple-IsValid : (k : Oid) (r : R) (t : Table R) → IsValid t → IsValid (tuple k r t).0
  unfolding tuple
  tuple-IsValid k r t v = tuple_at-IsValid (find k t) k r t v

  -- The row is written, and no other one changes.
  pub touch_lem :
      (k j : Oid) (r : R) (f : R → R) (t : Table R) (x : Tuple R)
      → IsValid t
      → (find k (touch k r f t) ≡ some (record (tuple k r t).1 { cells = f (tuple k r t).1.cells }))
        × (j ≢ k → find j t ≡ some x → find j (touch k r f t) ≡ some x)
        × IsValid (touch k r f t)
  unfolding touch
  touch_lem k j r f t x v = (
    find-update k f (tuple k r t).0 (tuple k r t).1 (tuple-IsValid k r t v) (tuple-find k r t),
    λ n e.
        find-update_other j k f (tuple k r t).0 (tuple k r t).1 x (tuple-IsValid k r t v) n
          (tuple-find k r t) (tuple_lem k r j x t e).1,
    update-IsValid (tuple k r t).1.id f (tuple k r t).0 (tuple-IsValid k r t v),
  )
