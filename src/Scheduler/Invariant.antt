-- ===== src/Scheduler/Invariant.antt =====
-- No job is lost, made up, or run early, however the threads interleave.
use mathlib.Core.List.{Perm, perm_middle}
use mathlib.Core.List.Perm
use rmond_drs.Base.{
  ℕ, ◌+◌, ◌≡◌, refl, ◌==◌, not, true, false, List, [], ◌∷◌, ◌++◌, map, some, arith, Bool-cases, inl,
  inr, subst, Bool, ◌⊎◌,
}
use rmond_drs.Scheduler.{
  Timespec, less, Phase, idle, waiting, holding, running, World, insert, go, push, stop, begin,
  take_first, put_back, expire,
}
use rmond_drs.Scheduler.Steps.{
  Step, pushes, stops, ticks, begins, wakes, returns, times_out, finishes, Reach, here, next,
}
use rmond_drs.Scheduler.Queue.{InOrder, insert-InOrder, insert-perm}

still : {A B : Type 0} {b : Bool} → (A → B) → (b ≡ false) ⊎ A → (b ≡ false) ⊎ B
still f (inl e) = inl e
still f (inr a) = inr (f a)

kept : {A : Type 0} {b : Bool} → b ≡ true → (b ≡ false) ⊎ A → A
kept e (inl d) = ground arith
kept e (inr a) = a

module _ {J : Type 0} where
  -- The jobs that still wait: those of the queue, and the one that the consumer holds.
  abbrev pub outstanding : Phase J → List (Timespec × J) → List (Timespec × J)
  outstanding (holding x) q = x ∷ q
  outstanding _ q = q

  abbrev pub OnTime : List (Timespec × (Timespec × J)) → Type 0
  OnTime [] = Unit {0}
  OnTime ((t, x) ∷ r) = (less t x.0 ≡ false) × OnTime r

  abbrev pub jobs_run : List (Timespec × (Timespec × J)) → List (Timespec × J)
  jobs_run = map (λ e. e.1)

  pub record Inv (w : World J) : Type 0 where
    pub in_order : InOrder w.queue
    pub conserved : (w.held ≡ false) ⊎ Perm (jobs_run w.ran ++ outstanding w.phase w.queue) w.pushed
    pub on_time : OnTime w.ran
    pub tied : (w.consumer == 0) ≡ not w.held

  outstanding-insert :
      (p : Phase J) (x : Timespec × J) (q : List (Timespec × J))
      → Perm (outstanding p (insert x q)) (x ∷ outstanding p q)
  outstanding-insert (holding y) x q = Perm.trans (Perm.cons y (insert-perm x q)) (Perm.swap x y q)
  outstanding-insert idle x q = insert-perm x q
  outstanding-insert _ x q = insert-perm x q

  outstanding-push :
      (r : List (Timespec × J)) (p : Phase J) (x : Timespec × J) (q pushed : List (Timespec × J))
      → Perm (r ++ outstanding p q) pushed
      → Perm (r ++ outstanding p (insert x q)) (x ∷ pushed)
  outstanding-push r p x q pushed h =
      Perm.trans (Perm.append_left r (outstanding-insert p x q))
        (Perm.trans (perm_middle r (outstanding p q)) (Perm.cons x h))

  push-Inv : (when_ : ℕ) (job : J) (w : World J) → Inv w → Inv (push when_ job w).0
  unfolding push
  push-Inv when_ job w v = elim (Bool-cases (w.consumer == 0)) [
    | inl e ↦ rw e v
    | inr e ↦ rw e (record {
      in_order = insert-InOrder (due, job) w.queue v.in_order;
      conserved =
          still (outstanding-push (jobs_run w.ran) w.phase (due, job) w.queue w.pushed) v.conserved;
      on_time = v.on_time;
      tied = v.tied;
    })
  ]
    where
      due : Timespec
      due = record { tv_sec = w.now.tv_sec + when_; tv_nsec = w.now.tv_nsec }

  stop-Inv : (w : World J) → Inv w → Inv (stop w)
  unfolding stop
  stop-Inv w v = elim (Bool-cases (w.consumer == 0)) [
    | inl e ↦ rw e v
    | inr e ↦
        rw e
          (record { in_order = v.in_order; conserved = inl refl; on_time = v.on_time; tied = refl })
  ]

  take_first-Inv :
      (q : List (Timespec × J)) (w : World J)
      → w.queue ≡ q
      → w.phase ≡ idle
      → Inv w
      → Inv (take_first q w)
  unfolding take_first
  take_first-Inv [] w e p v = record {
    in_order = v.in_order;
    conserved =
        still (subst (λ f. Perm (jobs_run w.ran ++ outstanding f w.queue) w.pushed) p) v.conserved;
    on_time = v.on_time;
    tied = v.tied;
  }
  take_first-Inv (x ∷ q) w e p v = record {
    in_order = (subst InOrder e v.in_order).1;
    conserved =
        still
          (λ h.
            subst (λ (z : List (Timespec × J)). Perm (jobs_run w.ran ++ z) w.pushed) e
              (subst (λ f. Perm (jobs_run w.ran ++ outstanding f w.queue) w.pushed) p h))
          v.conserved;
    on_time = v.on_time;
    tied = v.tied;
  }

  begin-Inv : (w : World J) → w.phase ≡ idle → Inv w → Inv (begin w)
  unfolding begin
  begin-Inv w p v = elim (Bool-cases w.held) [
    | inl e ↦ simp e (take_first-Inv w.queue w refl p v)
    | inr e ↦ simp e (record {
      in_order = v.in_order;
      conserved = inl refl;
      on_time = v.on_time;
      tied = ground (arith, v.tied);
    })
  ]

  put_back-Inv : (w : World J) (x : Timespec × J) → w.phase ≡ holding x → Inv w → Inv (put_back x w)
  unfolding put_back
  put_back-Inv w x p v = record {
    in_order = insert-InOrder x w.queue v.in_order;
    conserved =
        still
          (λ h.
            Perm.trans (Perm.append_left (jobs_run w.ran) (insert-perm x w.queue))
              (subst (λ f. Perm (jobs_run w.ran ++ outstanding f w.queue) w.pushed) p h))
          v.conserved;
    on_time = v.on_time;
    tied = v.tied;
  }

  expire-Inv :
      (w : World J) (x : Timespec × J)
      → w.phase ≡ holding x
      → less w.now x.0 ≡ false
      → Inv w
      → Inv (expire x w)
  unfolding expire
  expire-Inv w x p d v = elim (Bool-cases w.held) [
    | inl e ↦ rw e (record {
      in_order = v.in_order;
      conserved = inr (
          Perm.trans (Perm.symm (perm_middle (jobs_run w.ran) w.queue)) (
            subst (λ f. Perm (jobs_run w.ran ++ outstanding f w.queue) w.pushed) p
              (kept e v.conserved)));
      on_time = (d, v.on_time);
      tied = ground (arith, v.tied);
    })
    | inr e ↦ rw e (record {
      in_order = v.in_order;
      conserved = inl refl;
      on_time = v.on_time;
      tied = ground (arith, v.tied);
    })
  ]

  rest-Inv :
      (w : World J) (f : Phase J)
      → ((q : List (Timespec × J)) → outstanding f q ≡ q)
      → w.phase ≡ f
      → Inv w
      → Inv (record w { phase = idle })
  rest-Inv w f plain p v = record {
    in_order = v.in_order;
    conserved =
        still
          (λ h.
            subst (λ (z : List (Timespec × J)). Perm (jobs_run w.ran ++ z) w.pushed) (plain w.queue)
              (subst (λ f. Perm (jobs_run w.ran ++ outstanding f w.queue) w.pushed) p h))
          v.conserved;
    on_time = v.on_time;
    tied = v.tied;
  }

  Step-Inv : {u w : World J} → Step u w → Inv u → Inv w
  Step-Inv (pushes w when_ job) v = push-Inv when_ job w v
  Step-Inv (stops w) v = stop-Inv w v
  Step-Inv (ticks w t h) v = record {
    in_order = v.in_order;
    conserved = v.conserved;
    on_time = v.on_time;
    tied = v.tied;
  }
  Step-Inv (begins w p) v = begin-Inv w p v
  Step-Inv (wakes w p) v = rest-Inv w waiting (λ q. refl) p v
  Step-Inv (returns w x p) v = put_back-Inv w x p v
  Step-Inv (times_out w x p d) v = expire-Inv w x p d v
  Step-Inv (finishes w x p) v = rest-Inv w (running x) (λ q. refl) p v

  -- After a `go` that starts a thread, whose number is not 0, of a scheduler that had none,
  -- however pushes, signals, timeouts, jobs and a stop interleave: the queue is in the order of
  -- due times; until a stop, the jobs that ran, the one that the consumer holds and those of the
  -- queue are the pushed ones, each as often; and every job began no earlier than it was due.
  pub Reach-Inv :
      (w : World J) (thread : ℕ)
      → (thread == 0) ≡ false
      → (w.consumer == 0) ≡ true
      → {v : World J} → Reach (go (some thread) w).0 v
      → Inv v
  unfolding go
  Reach-Inv w thread h c here =
      rw c (record { in_order = tt; conserved = inr Perm.nil; on_time = tt; tied = h })
  Reach-Inv w thread h c (next r s) = Step-Inv s (Reach-Inv w thread h c r)
