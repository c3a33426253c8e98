-- ===== src/Scheduler.antt =====
-- The job queue of src/scheduler.h and src/scheduler.cpp: `less<timespec>`, the multimap of jobs by
-- due time, `Unit::go`, `stop` and `push`, and the consumer thread. All of them hold the one mutex
-- but while the consumer waits for a signal or runs a job, so the model steps between those points.
pub mod Order
pub mod Steps
pub mod Queue
pub mod Invariant
pub mod Stop
pub mod Drain
use rmond_drs.Base.{
  ℕ, ◌+◌, Bool, true, false, ◌==◌, ltb, ◌||◌, if◌then◌else◌, List, [], ◌∷◌, Option, none, some,
}

pub record Timespec : Type 0 where
  pub tv_sec : ℕ
  pub tv_nsec : ℕ

-- `std::less<timespec>`.
unfoldable pub less : Timespec → Timespec → Bool
less left right =
    if ltb right.tv_sec left.tv_sec
    then false
    else (ltb left.tv_sec right.tv_sec || ltb left.tv_nsec right.tv_nsec)

-- Where the consumer's loop stands: before it takes the mutex, in the wait for a first job, in the
-- timed wait for a job that it took off the queue, in a job, or past `pthread_exit`.
pub data Phase (J : Type 0) : Type 0 where
  idle waiting exited : Phase J
  holding running : Timespec × J → Phase J

-- A scheduler and its thread. `held` is whether `m_state` is set, so that the consumer's pointer is
-- not unique. `pushed` and `ran` are the history since `go`: the jobs in the order of their pushes,
-- and the jobs that were run, the last one first, each with the time at which it began.
pub record World (J : Type 0) : Type 0 where
  pub consumer : ℕ
  pub held : Bool
  pub queue : List (Timespec × J)
  pub phase : Phase J
  pub now : Timespec
  pub pushed : List (Timespec × J)
  pub ran : List (Timespec × (Timespec × J))

module _ {J : Type 0} where
  -- `std::multimap::insert`: behind the entries with the same time.
  unfoldable pub insert : Timespec × J → List (Timespec × J) → List (Timespec × J)
  insert x [] = x ∷ []
  insert x (y ∷ q) = let rest = insert x q in if less x.0 y.0 then x ∷ y ∷ q else y ∷ rest

  -- `Unit::go`, true on failure: `thread` is what `pthread_create` gives, if it succeeds.
  unfoldable pub go : Option ℕ → World J → World J × Bool
  go none w = (w, true)
  go (some thread) w =
      if w.consumer == 0
      then (
        record w {
          consumer = thread;
          held = true;
          queue = [];
          phase = idle;
          pushed = [];
          ran = [];
        },
        false,
      )
      else (w, true)

  -- `Unit::stop`: both branches drop the state; the caller then detaches or joins the consumer.
  unfoldable pub stop : World J → World J
  stop w = if w.consumer == 0 then w else record w { consumer = 0; held = false }

  -- `Unit::push`, true on failure; the time is the monotonic clock's and `when_` seconds more.
  unfoldable pub push : ℕ → J → World J → World J × Bool
  unfolding insert
  push when_ job w =
      if w.consumer == 0
      then (w, true)
      else (let x : Timespec × J =
            (record { tv_sec = w.now.tv_sec + when_; tv_nsec = w.now.tv_nsec }, job) in
          (record w { queue = insert x w.queue; pushed = x ∷ w.pushed }, false))

  unfoldable pub take_first : List (Timespec × J) → World J → World J
  take_first [] w = record w { phase = waiting }
  take_first (x ∷ q) w = record w { queue = q; phase = holding x }

  -- `Unit::consume` from the top of the loop to the next wait.
  unfoldable pub begin : World J → World J
  unfolding take_first
  begin w = if w.held then take_first w.queue w else record w { phase = exited }

  -- The timed wait ends by a signal: the job goes back to the queue.
  unfoldable pub put_back : Timespec × J → World J → World J
  unfolding insert
  put_back x w = record w { queue = insert x w.queue; phase = idle }

  -- The timed wait ends by its time: the job is run, unless the state was dropped.
  unfoldable pub expire : Timespec × J → World J → World J
  expire x w =
      if w.held
      then record w { phase = running x; ran = (w.now, x) ∷ w.ran }
      else record w { phase = exited }
