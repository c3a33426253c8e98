-- ===== src/Container/Laws.antt =====
-- The container as a finite map in the order of its keys.
use rmond_drs.Base.{
  ◌+◌, ◌≡◌, refl, sym, Bool, true, false, if◌then◌else◌, List, [], ◌∷◌, Option, none, some, arith,
}
use rmond_drs.Oid.{Oid, IndexOrder, less, less_irrefl, less_asym, less_trans, eq_of_less}
use rmond_drs.Container.{
  add, insert, find, remove, drop_key, remove_found, get_subset, subset_of, equal_range,
  lower_bound, up_to, size, Memory, minus_one,
}

module _ ⦃o : IndexOrder⦄ where
  -- Neither key lies before the other.
  abbrev pub same : Oid → Oid → Bool
  same a b = if less a b then false else if less b a then false else true

  pub eq_of_same : (a b : Oid) → same a b ≡ true → a ≡ b
  eq_of_same a b h = ground (arith, eq_of_less a b)

  pub same_self : (a : Oid) → same a a ≡ true
  same_self a = ground (arith, less_irrefl a)

module _ {ℓ} {V : Type ℓ} ⦃o : IndexOrder⦄ where
  -- Every row of the list lies above the key.
  abbrev pub Above : Oid → List (Oid × V) → Type 0
  Above k [] = Unit {0}
  Above k ((j, w) ∷ s) = (less k j ≡ true) × Above k s

  abbrev pub Sorted : List (Oid × V) → Type 0
  Sorted [] = Unit {0}
  Sorted ((j, w) ∷ s) = Above j s × Sorted s

  pub Above-mono : (i k : Oid) (s : List (Oid × V)) → less i k ≡ true → Above k s → Above i s
  Above-mono i k [] h a = tt
  Above-mono i k ((j, w) ∷ s) h a = (less_trans i k j h a.0, Above-mono i k s h a.1)

  add-Above :
      (i k : Oid) (v : V) (s : List (Oid × V)) → less i k ≡ true → Above i s → Above i (add k v s)
  unfolding add
  add-Above i k v [] h a = (h, tt)
  add-Above i k v ((j, w) ∷ s) h a = ground (arith, add-Above i k v s h a.1)

  pub add-Sorted : (k : Oid) (v : V) (s : List (Oid × V)) → Sorted s → Sorted (add k v s)
  unfolding add
  add-Sorted k v [] h = (tt, tt)
  add-Sorted k v ((j, w) ∷ s) h =
      ground (arith, add-Sorted k v s h.1, add-Above j k v s, Above-mono k j s)

  drop_key-Above : (i k : Oid) (s : List (Oid × V)) → Above i s → Above i (drop_key k s)
  unfolding drop_key
  drop_key-Above i k [] a = tt
  drop_key-Above i k ((j, w) ∷ s) a = ground (arith, drop_key-Above i k s a.1)

  pub drop_key-Sorted : (k : Oid) (s : List (Oid × V)) → Sorted s → Sorted (drop_key k s)
  unfolding drop_key
  drop_key-Sorted k [] h = tt
  drop_key-Sorted k ((j, w) ∷ s) h =
      ground (arith, drop_key-Sorted k s h.1, drop_key-Above j k s h.0)

  drop_key_absent : (k : Oid) (s : List (Oid × V)) → find k s ≡ none → drop_key k s ≡ s
  unfolding find drop_key
  drop_key_absent k [] h = refl
  drop_key_absent k ((j, w) ∷ s) h = ground (arith, drop_key_absent k s)

  remove_found-eq :
      (k : Oid) (r : Option V) (s : List (Oid × V))
      → r ≡ find k s
      → (remove_found k r s).0 ≡ drop_key k s
  unfolding remove_found
  remove_found-eq k r [] h = unfold drop_key in refl
  remove_found-eq k none (e ∷ s) h = sym (drop_key_absent k (e ∷ s) (sym h))
  remove_found-eq k (some v) (e ∷ s) h = refl

  pub remove-eq : (k : Oid) (s : List (Oid × V)) → (remove k s).0 ≡ drop_key k s
  unfolding remove
  remove-eq k s = remove_found-eq k (find k s) s refl

  find-Above : (k : Oid) (s : List (Oid × V)) → Above k s → find k s ≡ none
  unfolding find
  find-Above k [] a = refl
  find-Above k ((j, w) ∷ s) a = ground (arith, less_asym k j a.0)

  -- A new key is added; a key that is there keeps its row.
  pub find-add :
      (j k : Oid) (v : V) (s : List (Oid × V))
      → find j (add k v s)
        ≡ (elim (find j s) [ some w ↦ some w | none ↦ if same j k then some v else none ])
  unfolding find add
  find-add j k v [] = ground arith
  find-add j k v ((i, w) ∷ s) = ground (
    arith,
    find-add j k v s,
    less_trans j k i,
    less_trans j i k,
    eq_of_less j k,
    eq_of_less i k,
    less_asym k i,
    less_asym i k,
    less_asym j i,
    less_asym i j,
    less_trans i j k,
  )

  pub find-drop_key :
      (j k : Oid) (s : List (Oid × V))
      → Sorted s
      → find j (drop_key k s) ≡ (if same j k then none else find j s)
  unfolding find drop_key
  find-drop_key j k [] h = ground arith
  find-drop_key j k ((i, w) ∷ s) h = ground (
    arith,
    find-drop_key j k s h.1,
    eq_of_less j k,
    eq_of_less i k,
    find-Above i s h.0,
    find-Above j s,
    Above-mono j i s,
    less_trans j i k,
    less_trans i j k,
    less_trans j k i,
    less_asym k i,
    less_asym i k,
    less_asym j i,
    less_asym i j,
  )

  size-add :
      (k : Oid) (v : V) (s : List (Oid × V))
      → size (add k v s) ≡ (elim (find k s) [ some w ↦ size s | none ↦ size s + 1 ])
  unfolding size find add
  size-add k v [] = refl
  size-add k v ((i, w) ∷ s) = ground (arith, size-add k v s, less_asym i k)

  -- In a sorted set, an insertion keeps the rows sorted by key and answers 0 always. Afterwards a
  -- key that the set had has its old row, and the inserted key has the new row if it had none; the
  -- size grows by one in that case alone.
  pub insert_lem :
      (j k : Oid) (v : V) (s : List (Oid × V))
      → Sorted s
      → Sorted (insert k v s).0
        × ((insert k v s).1 ≡ 0)
        × (find j (insert k v s).0
            ≡ (elim (find j s) [ some w ↦ some w | none ↦ if same j k then some v else none ]))
        × (size (insert k v s).0 ≡ (elim (find k s) [ some w ↦ size s | none ↦ size s + 1 ]))
  unfolding insert
  insert_lem j k v s h = (add-Sorted k v s h, refl, find-add j k v s, size-add k v s)

  remove_code :
      (k : Oid) (r : Option V) (e : Oid × V) (s : List (Oid × V))
      → (remove_found k r (e ∷ s)).1 ≡ (elim r [ none ↦ minus_one | some v ↦ 0 ])
  unfolding remove_found
  remove_code k none e s = refl
  remove_code k (some v) e s = refl

  -- In a sorted set that is not empty, a removal keeps the rows sorted and takes out the row of
  -- that key and no other. It answers -1 exactly when the key has no row.
  remove_lem :
      (j k : Oid) (e : Oid × V) (s : List (Oid × V))
      → Sorted (e ∷ s)
      → Sorted (remove k (e ∷ s)).0
        × (find j (remove k (e ∷ s)).0 ≡ (if same j k then none else find j (e ∷ s)))
        × ((remove k (e ∷ s)).1 ≡ (elim (find k (e ∷ s)) [ none ↦ minus_one | some v ↦ 0 ]))
  remove_lem j k e s h = rw remove-eq (
    drop_key-Sorted k (e ∷ s) h,
    find-drop_key j k (e ∷ s) h,
    unfold remove in remove_code k (find k (e ∷ s)) e s,
  )

  up_to-Above : (k : Oid) (s : List (Oid × V)) → Above k s → up_to k s ≡ []
  unfolding up_to
  up_to-Above k [] a = refl
  up_to-Above k ((j, w) ∷ s) a = ground (arith, a.0)

  equal_range-find :
      (k : Oid) (s : List (Oid × V))
      → Sorted s
      → equal_range k s ≡ (elim (find k s) [ none ↦ [] | some v ↦ v ∷ [] ])
  unfolding equal_range lower_bound up_to find
  equal_range-find k [] h = refl
  equal_range-find k ((j, w) ∷ s) h =
      ground (arith, equal_range-find k s h.1, eq_of_less j k, up_to-Above j s h.0)

  -- In a sorted set, where no allocation fails, the subset for a key is the row of exactly that
  -- key, or null: never the rows whose indices extend the key.
  pub get_subset-find :
      (m : Memory) (k : Oid) (s : List (Oid × V))
      → Sorted s
      → m.array ≡ true
      → m.header ≡ true
      → get_subset m k s ≡ (elim (find k s) [ none ↦ none | some v ↦ some (v ∷ []) ])
  unfolding get_subset subset_of
  get_subset-find m k s h a b = ground (arith, equal_range-find k s h)
