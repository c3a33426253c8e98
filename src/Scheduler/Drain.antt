-- ===== src/Scheduler/Drain.antt =====
-- How the consumer empties the queue where nothing is pushed, stopped or signalled.
use rmond_drs.Base.{
  ℕ, suc, ◌+◌, ◌*◌, ◌≡◌, refl, ap, sym, ◌∙◌, true, ◌⊎◌, inl, inr, List, [], ◌∷◌, arith, length,
  subst, Bool-cases,
}
use rmond_drs.Scheduler.{
  Timespec, less, Phase, idle, waiting, exited, holding, running, World, begin, take_first, expire,
}
use rmond_drs.Scheduler.Invariant.{outstanding}
use rmond_drs.Scheduler.Order.{less_irrefl, less_asym}
use rmond_drs.Scheduler.Steps.{
  pushes, stops, ticks, begins, wakes, returns, times_out, finishes, Reach, here, next,
}

module _ {J : Type 0} where
  -- No step of a run is a push, a stop, or a signal that ends a wait.
  abbrev pub Undisturbed : {w v : World J} → Reach w v → Type 0
  Undisturbed here = Unit {0}
  Undisturbed (next r (pushes w when_ job)) = ⊥
  Undisturbed (next r (stops w)) = ⊥
  Undisturbed (next r (ticks w t e)) = Undisturbed r
  Undisturbed (next r (begins w p)) = Undisturbed r
  Undisturbed (next r (wakes w p)) = ⊥
  Undisturbed (next r (returns w x p)) = ⊥
  Undisturbed (next r (times_out w x p d)) = Undisturbed r
  Undisturbed (next r (finishes w x p)) = Undisturbed r

  -- The steps of the consumer in a run; the clock's are not counted.
  abbrev pub consumed : {w v : World J} → Reach w v → ℕ
  consumed here = 0
  consumed (next r (pushes w when_ job)) = consumed r
  consumed (next r (stops w)) = consumed r
  consumed (next r (ticks w t e)) = consumed r
  consumed (next r (begins w p)) = suc (consumed r)
  consumed (next r (wakes w p)) = suc (consumed r)
  consumed (next r (returns w x p)) = suc (consumed r)
  consumed (next r (times_out w x p d)) = suc (consumed r)
  consumed (next r (finishes w x p)) = suc (consumed r)

  abbrev pub weight : Phase J → ℕ
  weight waiting = 0
  weight exited = 0
  weight idle = 1
  weight (running x) = 2
  weight (holding x) = 3

  -- How many steps the consumer takes until it waits for a first job.
  abbrev pub rank : World J → ℕ
  rank w = 3 * length w.queue + weight w.phase

  -- The jobs that were run, in their order, and then those that are still to be run.
  abbrev pub order : List (Timespec × (Timespec × J)) → List (Timespec × J) → List (Timespec × J)
  order [] q = q
  order (r ∷ rs) q = order rs (r.1 ∷ q)

  abbrev pub Calm : Phase J → List (Timespec × J) → Type 0
  Calm waiting q = q ≡ []
  Calm exited q = ⊥
  Calm idle q = Unit {0}
  Calm (running x) q = Unit {0}
  Calm (holding x) q = Unit {0}

  -- What steps lead to from u: the scheduler is not stopped, waits for a first job only where the queue
  -- is empty, has k steps fewer to take, and runs what was to be run in the order that it was.
  abbrev Follows : World J → World J → ℕ → Type 0
  Follows u v k =
      ((v.held ≡ true) × Calm v.phase v.queue)
      × (rank v + k ≡ rank u)
      × (order v.ran (outstanding v.phase v.queue) ≡ order u.ran (outstanding u.phase u.queue))

  begin-Follows :
      (u : World J) (q : List (Timespec × J))
      → u.held ≡ true
      → u.phase ≡ idle
      → u.queue ≡ q
      → Follows u (begin u) 1
  unfolding begin take_first
  begin-Follows u [] h p e = rw (h, e, p) ((refl, refl), refl, refl)
  begin-Follows u (x ∷ q) h p e = rw (h, e, p) ((refl, tt), omega arith, refl)

  expire-Follows :
      (u : World J) (x : Timespec × J)
      → u.held ≡ true
      → u.phase ≡ holding x
      → Follows u (expire x u) 1
  unfolding expire
  expire-Follows u x h p = rw (h, p) ((refl, tt), omega arith, refl)

  finish-Follows :
      (u : World J) (x : Timespec × J)
      → u.held ≡ true
      → u.phase ≡ running x
      → Follows u (record u { phase = idle }) 1
  finish-Follows u x h p = rw p ((h, tt), omega arith, refl)

  then_Follows : (w u v : World J) (k : ℕ) → Follows w u k → Follows u v 1 → Follows w v (suc k)
  then_Follows w u v k (a, b, c) (d, e, f) = (d, omega (arith, b, e), f ∙ c)

  Reach-Follows :
      (w : World J)
      → (w.held ≡ true) × Calm w.phase w.queue
      → {v : World J} (r : Reach w v) → Undisturbed r
      → Follows w v (consumed r)
  Reach-Follows w a here u = (a, omega arith, refl)
  Reach-Follows w a (next r (pushes v when_ job)) u = absurd u
  Reach-Follows w a (next r (stops v)) u = absurd u
  Reach-Follows w a (next r (ticks v t e)) u = Reach-Follows w a r u
  Reach-Follows w a (next r (begins v p)) u =
      let f = Reach-Follows w a r u in
      then_Follows w v (begin v) (consumed r) f (begin-Follows v v.queue f.0.0 p refl)
  Reach-Follows w a (next r (wakes v p)) u = absurd u
  Reach-Follows w a (next r (returns v x p)) u = absurd u
  Reach-Follows w a (next r (times_out v x p d)) u =
      let f = Reach-Follows w a r u in
      then_Follows w v (expire x v) (consumed r) f (expire-Follows v x f.0.0 p)
  Reach-Follows w a (next r (finishes v x p)) u =
      let f = Reach-Follows w a r u in
      then_Follows w v (record v { phase = idle }) (consumed r) f (finish-Follows v x f.0.0 p)

  -- The consumer can go on, once the clock has come to the time of the job that it waits for.
  abbrev pub Going : World J → Type 0
  Going v = (u : World J) × (r : Reach v u) × Undisturbed r × (consumed r ≡ 1)

  going : (v : World J) (p : Phase J) → v.phase ≡ p → Calm p v.queue → (p ≡ waiting) ⊎ Going v
  going v waiting e c = inl refl
  going v exited e c = absurd c
  going v idle e c = inr (begin v, next here (begins v e), tt, refl)
  going v (running x) e c = inr (record v { phase = idle }, next here (finishes v x e), tt, refl)
  going v (holding x) e c = elim (Bool-cases (less v.now x.0)) [
    | inr d ↦ inr (expire x v, next here (times_out v x e d), tt, refl)
    | inl d ↦ inr (
      expire x (record v { now = x.0 }),
      next (next here (ticks v x.0 (less_asym v.now x.0 d)))
          (times_out (record v { now = x.0 }) x e (less_irrefl x.0)),
      tt,
      refl,
    )
  ]

  -- From the top of the loop of a scheduler that is not stopped, on any run with no push, stop or
  -- signal: each step of the consumer is one of the 3 for each job of the queue and 1 more that it
  -- takes, and at any moment the jobs that were run, in their order, and then those still to be run
  -- are the jobs that had been run at first and then the queue. The consumer can go on, as soon as
  -- the clock has come to its job's time, unless it waits for a first job; and then the queue is
  -- empty, all the steps are taken, and every job was run.
  pub drains :
      (w : World J)
      → w.phase ≡ idle
      → w.held ≡ true
      → {v : World J} (r : Reach w v) → Undisturbed r
      → (rank v + consumed r ≡ 3 * length w.queue + 1)
        × (order v.ran (outstanding v.phase v.queue) ≡ order w.ran w.queue)
        × (Going v
            ⊎ ((v.phase ≡ waiting)
                × (v.queue ≡ [])
                × (consumed r ≡ 3 * length w.queue + 1)
                × (order v.ran [] ≡ order w.ran w.queue)))
  drains w p h {v} r u =
      let (a, b, c) = Reach-Follows w (h, subst (λ f. Calm f w.queue) (sym p) tt) r u in
      let start = b ∙ ap (λ f. 3 * length w.queue + weight f) p in
      let same = c ∙ ap (λ f. order w.ran (outstanding f w.queue)) p in
      (
        start,
        same,
        elim (going v v.phase refl a.1) [
          | inr g ↦ inl g
          | inl e ↦
              let empty = subst (λ f. Calm f v.queue) e a.1 in
              inr (
                e,
                empty,
                omega (arith, start, ap weight e, ap length empty),
                ap (order v.ran) (sym empty)
                    ∙ ap (λ f. order v.ran (outstanding f v.queue)) (sym e)
                    ∙ same,
              )
        ],
      )
