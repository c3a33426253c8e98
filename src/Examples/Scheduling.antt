-- ===== src/Examples/Scheduling.antt =====
-- A scheduler at concrete inputs.
use rmond_drs.Base.{ℕ, ◌≡◌, refl, true, false, [], ◌∷◌, some, ◌+◌, ◌*◌, ◌⊎◌}
use rmond_drs.Scheduler.{
  Timespec, less, World, idle, waiting, holding, go, push, stop, begin, take_first, expire,
}
use rmond_drs.Scheduler.Steps.{Reach, here, next, pushes, begins, times_out}
use rmond_drs.Scheduler.Invariant.{Inv, outstanding, Reach-Inv}
use rmond_drs.Scheduler.Stop.{stop_final}
use rmond_drs.Scheduler.Drain.{rank, order, Going, drains}

abbrev at : ℕ → ℕ → Timespec
at sec nsec = record { tv_sec = sec; tv_nsec = nsec }

-- Before `go`; jobs are numbers.
abbrev fresh : World ℕ
fresh = record {
  consumer = 0;
  held = false;
  queue = [];
  phase = idle;
  now = at 100 5;
  pushed = [];
  ran = [];
}

abbrev started : World ℕ
started = (go (some 7) fresh).0

-- One job, that is due.
abbrev ready : World ℕ
ready = record fresh {
  consumer = 7;
  held = true;
  queue = (at 99 0, 3) ∷ [];
  pushed = (at 99 0, 3) ∷ [];
}

pushed_one : Reach started (push 10 3 started).0
pushed_one = next here (pushes started 10 3)

Reach-Inv_example : Inv (push 10 3 started).0
Reach-Inv_example = Reach-Inv fresh 7 refl refl pushed_one

stop_final_example :
    ((push 5 4 (stop started)).0.ran ≡ started.ran)
    × (push 10 3 (push 5 4 (stop started)).0 ≡ ((push 5 4 (stop started)).0, true))
stop_final_example =
    stop_final started 10 3 (Reach-Inv fresh 7 refl refl here)
      (next here (pushes (stop started) 5 4))

holds_job : (begin ready).phase ≡ holding (at 99 0, 3)
unfolding begin take_first
holds_job = refl

job_due : less (begin ready).now (at 99 0) ≡ false
unfolding begin take_first less
job_due = refl

-- The job is taken off the queue, and run.
abbrev ran_one : World ℕ
ran_one = expire (at 99 0, 3) (begin ready)

abbrev run_one : Reach ready ran_one
run_one =
    next (next here (begins ready refl)) (times_out (begin ready) (at 99 0, 3) holds_job job_due)

drains_example :
    (rank ran_one + 2 ≡ 3 * 1 + 1)
    × (order ran_one.ran (outstanding ran_one.phase ran_one.queue) ≡ (at 99 0, 3) ∷ [])
    × (Going ran_one
        ⊎ ((ran_one.phase ≡ waiting)
            × (ran_one.queue ≡ [])
            × (2 ≡ 3 * 1 + 1)
            × (order ran_one.ran [] ≡ (at 99 0, 3) ∷ [])))
drains_example = drains ready refl refl run_one tt
