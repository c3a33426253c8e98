-- ===== src/Table/Edits.antt =====
-- Facts on lists of rows after a row is added or taken out.
use rmond_drs.Base.{ℕ, ◌<◌, ◌≡◌, refl, false, ◌==◌, ==_iff, List, [], ◌∷◌, none, some, arith}
use rmond_drs.Oid.{Oid, IndexOrder, less_irrefl}
use rmond_drs.Container
use rmond_drs.Container.{add, drop_key}
use rmond_drs.Tuple.{Tuple}
use rmond_drs.Table.{lock}
use rmond_drs.Table.Rows.{Keyed, Lacks, Distinct, Below, lock-Lacks, find-Lacks}

module _ {R : Type 0} ⦃o : IndexOrder⦄ where
  pub add-Keyed :
      (k : Oid) (t : Tuple R) (s : List (Oid × Tuple R)) → t.key ≡ k → Keyed s → Keyed (add k t s)
  unfolding add
  add-Keyed k t [] e h = (e, tt)
  add-Keyed k t ((j, w) ∷ s) e h = ground (arith, add-Keyed k t s e h.1)

  add-Lacks :
      (i : ℕ) (k : Oid) (t : Tuple R) (s : List (Oid × Tuple R))
      → (t.id == i) ≡ false
      → Lacks i s
      → Lacks i (add k t s)
  unfolding add
  add-Lacks i k t [] e h = (e, tt)
  add-Lacks i k t ((j, w) ∷ s) e h = ground (arith, add-Lacks i k t s e h.1)

  pub add-Distinct :
      (k : Oid) (t : Tuple R) (s : List (Oid × Tuple R))
      → Lacks t.id s
      → Distinct s
      → Distinct (add k t s)
  unfolding add
  add-Distinct k t [] e h = (tt, tt)
  add-Distinct k t ((j, w) ∷ s) e h =
      ground (
        arith,
        add-Distinct k t s e.1 h.1,
        add-Lacks w.id k t s,
        ==_iff t.id w.id,
        ==_iff w.id t.id,
      )

  pub add-Below :
      (n : ℕ) (k : Oid) (t : Tuple R) (s : List (Oid × Tuple R))
      → t.id < n
      → Below n s
      → Below n (add k t s)
  unfolding add
  add-Below n k t [] e h = (e, tt)
  add-Below n k t ((j, w) ∷ s) e h = ground (arith, add-Below n k t s e h.1)

  pub drop-Keyed : (k : Oid) (s : List (Oid × Tuple R)) → Keyed s → Keyed (drop_key k s)
  unfolding drop_key
  drop-Keyed k [] h = tt
  drop-Keyed k ((j, w) ∷ s) h = ground (arith, drop-Keyed k s h.1)

  drop-Lacks : (i : ℕ) (k : Oid) (s : List (Oid × Tuple R)) → Lacks i s → Lacks i (drop_key k s)
  unfolding drop_key
  drop-Lacks i k [] h = tt
  drop-Lacks i k ((j, w) ∷ s) h = ground (arith, drop-Lacks i k s h.1)

  pub drop-Distinct : (k : Oid) (s : List (Oid × Tuple R)) → Distinct s → Distinct (drop_key k s)
  unfolding drop_key
  drop-Distinct k [] h = tt
  drop-Distinct k ((j, w) ∷ s) h = ground (arith, drop-Distinct k s h.1, drop-Lacks w.id k s)

  pub drop-Below : (n : ℕ) (k : Oid) (s : List (Oid × Tuple R)) → Below n s → Below n (drop_key k s)
  unfolding drop_key
  drop-Below n k [] h = tt
  drop-Below n k ((j, w) ∷ s) h = ground (arith, drop-Below n k s h.1)

  -- Once the row of its key is gone, no pointer to the tuple can be locked.
  pub lock-drop :
      (k : Oid) (s : List (Oid × Tuple R)) (t : Tuple R)
      → Distinct s
      → Container.find k s ≡ some t
      → lock t.id (drop_key k s) ≡ none
  unfolding Container.find lock drop_key
  lock-drop k [] t d e = ground arith
  lock-drop k ((j, w) ∷ s) t d e = ground (
    arith,
    lock-drop k s t d.1,
    find-Lacks k w.id s t,
    lock-Lacks w.id s d.0,
    ==_iff t.id w.id,
    ==_iff w.id t.id,
  )

  -- Other pointers are not affected.
  pub lock-drop_other :
      (k : Oid) (i : ℕ) (s : List (Oid × Tuple R)) (t : Tuple R)
      → Container.find k s ≡ some t
      → (t.id == i) ≡ false
      → lock i (drop_key k s) ≡ lock i s
  unfolding Container.find lock drop_key
  lock-drop_other k i [] t e h = refl
  lock-drop_other k i ((j, w) ∷ s) t e h = ground (arith, lock-drop_other k i s t)

  -- Taking out a key that was just added gives the rows as they were.
  pub drop-add :
      (k : Oid) (t : Tuple R) (s : List (Oid × Tuple R))
      → Container.find k s ≡ none
      → drop_key k (add k t s) ≡ s
  unfolding Container.find add drop_key
  drop-add k t [] e = ground (arith, less_irrefl k)
  drop-add k t ((j, w) ∷ s) e = ground (arith, less_irrefl k, drop-add k t s)

  pub add_found :
      (k : Oid) (t : Tuple R) (s : List (Oid × Tuple R)) (w : Tuple R)
      → Container.find k s ≡ some w
      → add k t s ≡ s
  unfolding Container.find add
  add_found k t [] w e = ground arith
  add_found k t ((j, v) ∷ s) w e = ground (arith, add_found k t s w)
