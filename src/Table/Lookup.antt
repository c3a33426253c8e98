-- ===== src/Table/Lookup.antt =====
-- The two ways to a tuple of a table, by its index and by a pointer, lead to the same rows.
use rmond_drs.Base.{ℕ, ◌<◌, ◌≡◌, refl, ap, length, none, true, List, [], ◌∷◌, some, arith}
use rmond_drs.Oid.{Oid, IndexOrder, less, less_irrefl, eq_of_less}
use rmond_drs.Container
use rmond_drs.Container.Laws.{Above, Sorted}
use rmond_drs.Tuple.{Tuple}
use rmond_drs.Table.{lock}
use rmond_drs.Table.Rows.{Keyed}

length_ap : (j k : Oid) → j ≡ k → length j ≡ length k
length_ap j k e = ap length e

module _ {R : Type 0} ⦃o : IndexOrder⦄ where
  pub find-key :
      (k : Oid) (s : List (Oid × Tuple R)) (r : Tuple R)
      → Keyed s
      → Container.find k s ≡ some r
      → r.key ≡ k
  unfolding Container.find
  find-key k [] r h e = ground arith
  find-key k ((j, w) ∷ s) r h e = ground (arith, find-key k s r h.1, eq_of_less j k)

  lock-Above :
      (j : Oid) (i : ℕ) (s : List (Oid × Tuple R)) (r : Tuple R)
      → Above j s
      → Keyed s
      → lock i s ≡ some r
      → less j r.key ≡ true
  unfolding lock
  lock-Above j i [] r a h e = ground arith
  lock-Above j i ((k, w) ∷ s) r a h e = ground (arith, lock-Above j i s r a.1 h.1)

  pub find-lock :
      (i : ℕ) (s : List (Oid × Tuple R)) (r : Tuple R)
      → Sorted s
      → Keyed s
      → lock i s ≡ some r
      → Container.find r.key s ≡ some r
  unfolding lock Container.find
  find-lock i [] r o h e = ground arith
  find-lock i ((k, w) ∷ s) r o h e =
      ground (arith, find-lock i s r o.1 h.1, lock-Above k i s r o.0 h.1, less_irrefl k)

  -- Every index of the table is longer than the length.
  abbrev pub Longer : ℕ → List (Oid × Tuple R) → Type 0
  Longer n [] = Unit {0}
  Longer n ((k, t) ∷ s) = (n < length k) × Longer n s

  pub find-Longer :
      (k : Oid) (s : List (Oid × Tuple R)) → Longer (length k) s → Container.find k s ≡ none
  unfolding Container.find
  find-Longer k [] h = refl
  find-Longer k ((j, w) ∷ s) h =
      ground (arith, find-Longer k s h.1, eq_of_less j k, length_ap j k, h.0)
