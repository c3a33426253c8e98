-- ===== src/Table/Rows.antt =====
-- Facts on lists of rows: looking tuples up by key and by id, and writing through a pointer.
use rmond_drs.Base.{
  ℕ, suc, ◌<◌, ◌≡◌, refl, false, ◌==◌, ==_iff, ==_refl, List, [], ◌∷◌, none, some, arith,
}
use rmond_drs.Oid.{Oid, IndexOrder}
use rmond_drs.Container
use rmond_drs.Container.{add, drop_key}
use rmond_drs.Container.Laws.{Above, Sorted}
use rmond_drs.Tuple.{Tuple}
use rmond_drs.Table.{lock, mutate}

module _ {R : Type 0} where
  -- Every row stands under its tuple's key.
  abbrev pub Keyed : List (Oid × Tuple R) → Type 0
  Keyed [] = Unit {0}
  Keyed ((k, t) ∷ s) = (t.key ≡ k) × Keyed s

  abbrev pub Lacks : ℕ → List (Oid × Tuple R) → Type 0
  Lacks id [] = Unit {0}
  Lacks id ((k, t) ∷ s) = ((t.id == id) ≡ false) × Lacks id s

  abbrev pub Distinct : List (Oid × Tuple R) → Type 0
  Distinct [] = Unit {0}
  Distinct ((k, t) ∷ s) = Lacks t.id s × Distinct s

  abbrev pub Below : ℕ → List (Oid × Tuple R) → Type 0
  Below n [] = Unit {0}
  Below n ((k, t) ∷ s) = (t.id < n) × Below n s

  pub lock-Lacks : (id : ℕ) (s : List (Oid × Tuple R)) → Lacks id s → lock id s ≡ none
  unfolding lock
  lock-Lacks id [] h = refl
  lock-Lacks id ((k, t) ∷ s) h = ground (arith, lock-Lacks id s h.1)

  Lacks-of_lock : (id : ℕ) (s : List (Oid × Tuple R)) → lock id s ≡ none → Lacks id s
  unfolding lock
  Lacks-of_lock id [] h = tt
  Lacks-of_lock id ((k, t) ∷ s) h = ground (arith, Lacks-of_lock id s)

  pub Below-Lacks : (n : ℕ) (s : List (Oid × Tuple R)) → Below n s → Lacks n s
  Below-Lacks n [] h = tt
  Below-Lacks n ((k, t) ∷ s) h = ground (arith, Below-Lacks n s h.1)

  pub Below-suc : (n : ℕ) (s : List (Oid × Tuple R)) → Below n s → Below (suc n) s
  Below-suc n [] h = tt
  Below-suc n ((k, t) ∷ s) h = (omega (arith, h.0), Below-suc n s h.1)

  -- A second write makes up for the first.
  pub mutate-mutate :
      (id : ℕ) (f g : R → R) (s : List (Oid × Tuple R)) (t : Tuple R)
      → lock id s ≡ some t
      → f (g t.cells) ≡ t.cells
      → mutate id f (mutate id g s) ≡ s
  unfolding lock mutate
  mutate-mutate id f g [] t h e = ground arith
  mutate-mutate id f g ((k, w) ∷ s) t h e = ground (arith, mutate-mutate id f g s t)

  pub lock-mutate :
      (id : ℕ) (f : R → R) (s : List (Oid × Tuple R)) (t : Tuple R)
      → lock id s ≡ some t
      → lock id (mutate id f s) ≡ some (record t { cells = f t.cells })
  unfolding lock mutate
  lock-mutate id f [] t h = ground arith
  lock-mutate id f ((k, w) ∷ s) t h = ground (arith, lock-mutate id f s t)

  pub mutate-Keyed :
      (id : ℕ) (f : R → R) (s : List (Oid × Tuple R)) → Keyed s → Keyed (mutate id f s)
  unfolding mutate
  mutate-Keyed id f [] h = tt
  mutate-Keyed id f ((k, w) ∷ s) h = ground (arith, mutate-Keyed id f s)

  mutate-Lacks :
      (i id : ℕ) (f : R → R) (s : List (Oid × Tuple R)) → Lacks i s → Lacks i (mutate id f s)
  unfolding mutate
  mutate-Lacks i id f [] h = tt
  mutate-Lacks i id f ((k, w) ∷ s) h = ground (arith, mutate-Lacks i id f s)

  pub mutate-Distinct :
      (id : ℕ) (f : R → R) (s : List (Oid × Tuple R)) → Distinct s → Distinct (mutate id f s)
  unfolding mutate
  mutate-Distinct id f [] h = tt
  mutate-Distinct id f ((k, w) ∷ s) h =
      ground (arith, mutate-Distinct id f s, mutate-Lacks w.id id f s)

  pub mutate-Below :
      (n id : ℕ) (f : R → R) (s : List (Oid × Tuple R)) → Below n s → Below n (mutate id f s)
  unfolding mutate
  mutate-Below n id f [] h = tt
  mutate-Below n id f ((k, w) ∷ s) h = ground (arith, mutate-Below n id f s)

  module _ ⦃o : IndexOrder⦄ where
    mutate-Above :
        (j : Oid) (id : ℕ) (f : R → R) (s : List (Oid × Tuple R))
        → Above j s
        → Above j (mutate id f s)
    unfolding mutate
    mutate-Above j id f [] h = tt
    mutate-Above j id f ((k, w) ∷ s) h = ground (arith, mutate-Above j id f s)

    pub mutate-Sorted :
        (id : ℕ) (f : R → R) (s : List (Oid × Tuple R)) → Sorted s → Sorted (mutate id f s)
    unfolding mutate
    mutate-Sorted id f [] h = tt
    mutate-Sorted id f ((k, w) ∷ s) h = ground (arith, mutate-Sorted id f s, mutate-Above k id f s)

    pub find-Lacks :
        (k : Oid) (i : ℕ) (s : List (Oid × Tuple R)) (t : Tuple R)
        → Container.find k s ≡ some t
        → Lacks i s
        → (t.id == i) ≡ false
    unfolding Container.find
    find-Lacks k i [] t e h = ground arith
    find-Lacks k i ((j, w) ∷ s) t e h = ground (arith, find-Lacks k i s t)

    -- A tuple that is found by its key is the one with its id.
    pub lock-find :
        (k : Oid) (s : List (Oid × Tuple R)) (t : Tuple R)
        → Distinct s
        → Container.find k s ≡ some t
        → lock t.id s ≡ some t
    unfolding Container.find lock
    lock-find k [] t d e = ground arith
    lock-find k ((j, w) ∷ s) t d e = ground (
      arith,
      lock-find k s t d.1,
      find-Lacks k w.id s t,
      ==_refl t.id,
      ==_iff t.id w.id,
      ==_iff w.id t.id,
    )

    pub find-mutate :
        (k : Oid) (f : R → R) (s : List (Oid × Tuple R)) (t : Tuple R)
        → Distinct s
        → Container.find k s ≡ some t
        → Container.find k (mutate t.id f s) ≡ some (record t { cells = f t.cells })
    unfolding Container.find mutate
    find-mutate k f [] t d e = ground arith
    find-mutate k f ((j, w) ∷ s) t d e = ground (
      arith,
      find-mutate k f s t d.1,
      find-Lacks k w.id s t,
      ==_refl t.id,
      ==_iff t.id w.id,
      ==_iff w.id t.id,
    )

    find-mutate-none :
        (k : Oid) (i : ℕ) (f : R → R) (s : List (Oid × Tuple R))
        → Container.find k s ≡ none
        → Container.find k (mutate i f s) ≡ none
    unfolding Container.find mutate
    find-mutate-none k i f [] e = refl
    find-mutate-none k i f ((j, w) ∷ s) e = ground (arith, find-mutate-none k i f s)

    pub find-mutate_other :
        (j : Oid) (id : ℕ) (f : R → R) (s : List (Oid × Tuple R)) (x : Tuple R)
        → (x.id == id) ≡ false
        → Container.find j s ≡ some x
        → Container.find j (mutate id f s) ≡ some x
    unfolding Container.find mutate
    find-mutate_other j id f [] x n e = ground arith
    find-mutate_other j id f ((k, w) ∷ s) x n e = ground (arith, find-mutate_other j id f s x n)
