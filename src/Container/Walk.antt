-- ===== src/Container/Walk.antt =====
-- `Unit::findNext` of src/container.cpp as a traversal: a walk that starts with the null key and
-- asks for the successor of each row that it is given, as GETNEXT requests do.
use rmond_drs.Base.{
  ℕ, zero, suc, ◌≡◌, refl, sym, ap, subst, true, List, [], ◌∷◌, ◌++◌, Option, none, some, arith,
  length,
}
use mathlib.Core.List.{append_assoc}
use rmond_drs.Oid.{Oid, IndexOrder, less, less_irrefl, less_asym}
use rmond_drs.Container.{find_next, upper_bound, size}
use rmond_drs.Container.Laws.{Above, Sorted}

module _ {ℓ} {V : Type ℓ} ⦃o : IndexOrder⦄ where
  abbrev pub walk : ℕ → Option Oid → List (Oid × V) → List (Oid × V)
  walk zero cursor s = []
  walk (suc n) cursor s = elim (find_next cursor s) [
    | none ↦ []
    | some (k, v) ↦ (k, v) ∷ walk n (some k) s
  ]

  upper_bound-Above : (k : Oid) (s : List (Oid × V)) → Above k s → upper_bound k s ≡ s
  unfolding upper_bound
  upper_bound-Above k [] a = refl
  upper_bound-Above k ((j, w) ∷ s) a = ground (arith, a.0)

  Above-less :
      (j k : Oid) (w : V) (pre post : List (Oid × V))
      → Above j (pre ++ (k, w) ∷ post)
      → less j k ≡ true
  Above-less j k w [] post a = a.0
  Above-less j k w (e ∷ pre) post a = Above-less j k w pre post a.1

  upper_bound-append :
      (k : Oid) (w : V) (pre post : List (Oid × V))
      → Sorted (pre ++ (k, w) ∷ post)
      → upper_bound k (pre ++ (k, w) ∷ post) ≡ post
  unfolding upper_bound
  upper_bound-append k w [] post h = ground (arith, less_irrefl k, upper_bound-Above k post h.0)
  upper_bound-append k w ((j, v) ∷ pre) post h =
      ground
        (arith, upper_bound-append k w pre post h.1, Above-less j k w pre post h.0, less_asym j k)

  walk-append :
      (k : Oid) (w : V) (pre post : List (Oid × V)) (n : ℕ)
      → Sorted (pre ++ (k, w) ∷ post)
      → n ≡ length post
      → walk n (some k) (pre ++ (k, w) ∷ post) ≡ post
  unfolding find_next
  walk-append k w pre [] zero h e = refl
  walk-append k w pre [] (suc n) h e = absurd (omega arith)
  walk-append k w pre (p ∷ post) zero h e = absurd (omega arith)
  walk-append k w pre ((j, v) ∷ post) (suc n) h e =
      let shift : (pre ++ (k, w) ∷ []) ++ (j, v) ∷ post ≡ pre ++ (k, w) ∷ (j, v) ∷ post =
        append_assoc pre ((k, w) ∷ []) ((j, v) ∷ post) in
      rw (upper_bound-append k w pre ((j, v) ∷ post) h, walk)
        (ap (◌∷◌ (j, v)) (
          subst (λ t. walk n (some j) t ≡ post) shift
            (walk-append j v (pre ++ (k, w) ∷ []) post n (subst Sorted (sym shift) h)
              (omega arith))))

  -- In a sorted set, the walk from the null key visits every row once, in the order of the keys.
  pub walk_all : (s : List (Oid × V)) → Sorted s → walk (size s) none s ≡ s
  unfolding find_next size
  walk_all [] h = refl
  walk_all ((k, v) ∷ s) h = ap (◌∷◌ (k, v)) (walk-append k v [] s (length s) h refl)
