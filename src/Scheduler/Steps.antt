-- ===== src/Scheduler/Steps.antt =====
-- The runs of a scheduler: pushes and a stop by any thread, the clock, and the consumer.
use rmond_drs.Base.{ℕ, ◌≡◌, false}
use rmond_drs.Scheduler.{
  Timespec, less, idle, waiting, holding, running, World, push, stop, begin, put_back, expire,
}

module _ {J : Type 0} where
  pub data Step : World J → World J → Type 0 where
    pushes : (w : World J) (when_ : ℕ) (job : J) → Step w (push when_ job w).0
    stops : (w : World J) → Step w (stop w)
    ticks : (w : World J) (t : Timespec) → less t w.now ≡ false → Step w (record w { now = t })
    begins : (w : World J) → w.phase ≡ idle → Step w (begin w)
    wakes : (w : World J) → w.phase ≡ waiting → Step w (record w { phase = idle })
    returns : (w : World J) (x : Timespec × J) → w.phase ≡ holding x → Step w (put_back x w)
    times_out :
        (w : World J) (x : Timespec × J)
        → w.phase ≡ holding x
        → less w.now x.0 ≡ false
        → Step w (expire x w)
    finishes :
        (w : World J) (x : Timespec × J) → w.phase ≡ running x → Step w (record w { phase = idle })

  pub data Reach (w : World J) : World J → Type 0 where
    here : Reach w w
    next : {u v : World J} → Reach w u → Step u v → Reach w v
