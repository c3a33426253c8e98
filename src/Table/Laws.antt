-- ===== src/Table/Laws.antt =====
-- The operations of a table keep it well formed; what they answer and what they change.
use rmond_drs.Base.{
  ℕ, ◌<◌, ◌≡◌, ◌≢◌, refl, sym, true, false, ◌==◌, if◌then◌else◌, List, [], ◌∷◌, none, some, arith,
  ap, length, Option-cases, Bool-cases, ==_iff, subst, inl, inr, ◌∙◌,
}
use rmond_drs.Oid.{Oid, IndexOrder}
use rmond_drs.Container.{Memory, add, drop_key}
use rmond_drs.Container
use rmond_drs.Container.Laws.{
  Sorted, same, add-Sorted, drop_key-Sorted, remove-eq, find-drop_key, get_subset-find,
}
use rmond_drs.Tuple.{Tuple}
use rmond_drs.Table.{Table, lock, update, find, insert, erase, range}
use rmond_drs.Table.Lookup.{Longer, find-Longer, find-key}
use rmond_drs.Table.Rows.{
  Keyed, Lacks, Distinct, Below, mutate-Keyed, mutate-Distinct, mutate-Below, mutate-Sorted,
  find-mutate, find-mutate_other, lock-find,
}
use rmond_drs.Table.Edits.{
  add-Keyed, add-Distinct, add-Below, drop-Keyed, drop-Distinct, drop-Below, lock-drop,
  lock-drop_other, add_found,
}

-- The rows are sorted by index, each stands under its tuple's index, no two share a tuple, and every
-- id was handed out.
pub record IsValid {R : Type 0} ⦃o : IndexOrder⦄ (t : Table R) : Type 0 where
  pub sorted : Sorted t.rows
  pub keyed : Keyed t.rows
  pub distinct : Distinct t.rows
  pub below : Below t.fresh t.rows

module _ {R : Type 0} ⦃o : IndexOrder⦄ where
  pub update-IsValid : (id : ℕ) (f : R → R) (t : Table R) → IsValid t → IsValid (update id f t)
  update-IsValid id f t v = record {
    sorted = mutate-Sorted id f t.rows v.sorted;
    keyed = mutate-Keyed id f t.rows v.keyed;
    distinct = mutate-Distinct id f t.rows v.distinct;
    below = mutate-Below t.fresh id f t.rows v.below;
  }

  pub insert-rows :
      (r : Tuple R) (t : Table R) → insert r t ≡ (record t { rows = add r.key r t.rows }, false)
  unfolding insert Container.insert
  insert-rows r t = refl

  -- In a valid table, a tuple with an id that was handed out and that no row has can be inserted: the
  -- table stays valid.
  pub insert-IsValid :
      (r : Tuple R) (t : Table R)
      → IsValid t
      → r.id < t.fresh
      → Lacks r.id t.rows
      → IsValid (insert r t).0
  insert-IsValid r t v h l = rw insert-rows (record {
    sorted = add-Sorted r.key r t.rows v.sorted;
    keyed = add-Keyed r.key r t.rows refl v.keyed;
    distinct = add-Distinct r.key r t.rows l v.distinct;
    below = add-Below t.fresh r.key r t.rows h v.below;
  })

  -- A row whose index is taken is not stored, and `insert` reports success all the same.
  insert_taken : (r w : Tuple R) (t : Table R) → find r.key t ≡ some w → insert r t ≡ (t, false)
  unfolding find
  insert_taken r w t e =
      insert-rows r t
      ∙ ap (λ (s : List (Oid × Tuple R)). (record t { rows = s }, false))
          (add_found r.key r t.rows w e)

  pub erase-rows :
      (r w : Tuple R) (t : Table R)
      → find r.key t ≡ some w
      → erase r t ≡ (record t { rows = drop_key r.key t.rows }, false)
  unfolding erase find
  erase-rows r w t e = ground (arith, remove-eq r.key t.rows)

  erase-none : (r : Tuple R) (t : Table R) → find r.key t ≡ none → erase r t ≡ (t, true)
  unfolding erase find
  erase-none r t e = ground arith

  pub erase-IsValid : (r : Tuple R) (t : Table R) → IsValid t → IsValid (erase r t).0
  erase-IsValid r t v = elim (Option-cases (find r.key t)) [
    | inl e ↦ rw (erase-none r t e) v
    | inr (w, e) ↦ rw (erase-rows r w t e) (record {
      sorted = drop_key-Sorted r.key t.rows v.sorted;
      keyed = drop-Keyed r.key t.rows v.keyed;
      distinct = drop-Distinct r.key t.rows v.distinct;
      below = drop-Below t.fresh r.key t.rows v.below;
    })
  ]

  pub erased :
      (r w : Tuple R) (t : Table R) (k : Oid) (i : ℕ)
      → IsValid t
      → find r.key t ≡ some w
      → ((erase r t).1 ≡ false)
        × (find k (erase r t).0 ≡ (if same k r.key then none else find k t))
        × (lock w.id (erase r t).0.rows ≡ none)
        × ((w.id == i) ≡ false → lock i (erase r t).0.rows ≡ lock i t.rows)
  unfolding find
  erased r w t k i v e = rw (erase-rows r w t e) (
    refl,
    find-drop_key k r.key t.rows v.sorted,
    lock-drop r.key t.rows w v.distinct e,
    lock-drop_other r.key i t.rows w e,
  )

  -- Erasing a row whose index is stored, in a valid table, succeeds: its index is free and other
  -- indices are as before; its tuple is gone for every weak pointer, other tuples are as before.
  pub erase_lem :
      (r w : Tuple R) (t : Table R) (k : Oid) (i : ℕ)
      → IsValid t
      → find r.key t ≡ some w
      → ((erase r t).1 ≡ false)
        × (find k (erase r t).0 ≡ (if same k r.key then none else find k t))
        × (lock i (erase r t).0.rows ≡ (if w.id == i then none else lock i t.rows))
  erase_lem r w t k i v e =
      let gone = erased r w t k i v e in
      (
        gone.0,
        gone.1,
        elim (Bool-cases (w.id == i)) [
          | inl p ↦
              rw (p) (subst (λ j. lock j (erase r t).0.rows ≡ none) ((==_iff w.id i).0 p) gone.2)
          | inr p ↦ rw (p) (gone.3 p)
        ],
      )

  -- In a valid table, where no allocation fails, the rows in the range of an index are the row of
  -- exactly that index, or none.
  pub range-find :
      (m : Memory) (k : Oid) (t : Table R)
      → IsValid t
      → m.array ≡ true
      → m.header ≡ true
      → range m k t ≡ (elim (find k t) [ none ↦ [] | some w ↦ w ∷ [] ])
  unfolding range find
  range-find m k t v a b = ground (arith, get_subset-find m k t.rows v.sorted)

  pub range-Longer :
      (m : Memory) (k : Oid) (t : Table R)
      → IsValid t
      → Longer (length k) t.rows
      → m.array ≡ true
      → m.header ≡ true
      → range m k t ≡ []
  unfolding find
  range-Longer m k t v l a b = ground (arith, range-find m k t v a b, find-Longer k t.rows l)

  pub find-update :
      (k : Oid) (f : R → R) (t : Table R) (w : Tuple R)
      → IsValid t
      → find k t ≡ some w
      → find k (update w.id f t) ≡ some (record w { cells = f w.cells })
  unfolding find
  find-update k f t w v e = find-mutate k f t.rows w v.distinct e

  same_row :
      (j k : Oid) (t : Table R) (w x : Tuple R)
      → IsValid t
      → find k t ≡ some w
      → find j t ≡ some x
      → x.id ≡ w.id
      → j ≡ k
  unfolding find
  same_row j k t w x v e f h =
      sym (find-key j t.rows x v.keyed f)
      ∙ ap (λ r. r.key)
          (some-unique x w (
            sym (lock-find j t.rows x v.distinct f)
            ∙ ap (λ i. lock i t.rows) h
            ∙ lock-find k t.rows w v.distinct e))
      ∙ find-key k t.rows w v.keyed e
    where
      some-unique : (x w : Tuple R) → some x ≡ some w → x ≡ w
      some-unique x w e = cc

  -- A write through the pointer to a row leaves every other row.
  pub find-update_other :
      (j k : Oid) (f : R → R) (t : Table R) (w x : Tuple R)
      → IsValid t
      → j ≢ k
      → find k t ≡ some w
      → find j t ≡ some x
      → find j (update w.id f t) ≡ some x
  unfolding find
  find-update_other j k f t w x v n e g = elim (Bool-cases (x.id == w.id)) [
    | inl h ↦ absurd (n (same_row j k t w x v e g ((==_iff x.id w.id).0 h)))
    | inr h ↦ find-mutate_other j w.id f t.rows x h g
  ]
