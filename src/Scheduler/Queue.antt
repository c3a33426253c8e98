-- ===== src/Scheduler/Queue.antt =====
-- The multimap of jobs stays in the order of due times, and an insertion adds exactly its job.
use mathlib.Core.List.{Perm}
use mathlib.Core.List.Perm
use rmond_drs.Base.{◌≡◌, true, false, List, [], ◌∷◌, arith, Bool-cases, inl, inr}
use rmond_drs.Scheduler.{Timespec, less, insert}
use rmond_drs.Scheduler.Order.{less_asym, less_trans}

module _ {J : Type 0} where
  abbrev pub NotBefore : Timespec → List (Timespec × J) → Type 0
  NotBefore t [] = Unit {0}
  NotBefore t (y ∷ q) = (less y.0 t ≡ false) × NotBefore t q

  -- Due times never fall along the queue.
  abbrev pub InOrder : List (Timespec × J) → Type 0
  InOrder [] = Unit {0}
  InOrder (x ∷ q) = NotBefore x.0 q × InOrder q

  insert-NotBefore :
      (t : Timespec) (x : Timespec × J) (q : List (Timespec × J))
      → less x.0 t ≡ false
      → NotBefore t q
      → NotBefore t (insert x q)
  unfolding insert
  insert-NotBefore t x [] h n = (h, tt)
  insert-NotBefore t x (y ∷ q) h n = ground (arith, insert-NotBefore t x q h n.1)

  NotBefore-mono :
      (t u : Timespec) (q : List (Timespec × J)) → less t u ≡ true → NotBefore u q → NotBefore t q
  NotBefore-mono t u [] h n = tt
  NotBefore-mono t u (y ∷ q) h n =
      ground
        (arith, NotBefore-mono t u q h n.1, less_trans y.0 t u, less_asym y.0 t, less_trans t u y.0)

  pub insert-InOrder :
      (x : Timespec × J) (q : List (Timespec × J)) → InOrder q → InOrder (insert x q)
  unfolding insert
  insert-InOrder x [] h = (tt, tt)
  insert-InOrder x (y ∷ q) h = ground (
    arith,
    insert-InOrder x q h.1,
    insert-NotBefore y.0 x q,
    NotBefore-mono x.0 y.0 q,
    less_asym x.0 y.0,
  )

  pub insert-perm : (x : Timespec × J) (q : List (Timespec × J)) → Perm (insert x q) (x ∷ q)
  unfolding insert
  insert-perm x [] = Perm.rfl
  insert-perm x (y ∷ q) = elim (Bool-cases (less x.0 y.0)) [
    | inl e ↦ rw e Perm.rfl
    | inr e ↦ rw e (Perm.trans (Perm.cons y (insert-perm x q)) (Perm.swap x y q))
  ]
