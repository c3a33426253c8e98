-- ===== src/Central.antt =====
-- `Central` of src/mib.cpp, which starts and stops the module, and `Link`, which attaches the server
-- to the dispatcher.
pub mod Laws
pub mod Startup
use rmond_drs.Base.{
  ℕ, suc, Bool, true, false, not, ◌&&◌, ◌||◌, if◌then◌else◌, List, [], ◌∷◌, Option, none, some,
}

-- `running` is whether `s_scheduler` is set, `up` whether the SDK is initialised; `jobs` counts the
-- jobs that were pushed to the scheduler when it was started, `stops` the schedulers stopped, and
-- `active` the entries of `g_active`.
pub record Central : Type 0 where
  pub running : Bool
  pub up : Bool
  pub jobs : ℕ
  pub stops : ℕ
  pub active : ℕ

-- What `init` depends on: whether the SDK can be initialised, the server and the reaper can be made,
-- the scheduler's thread starts, and it takes its two jobs.
pub record Attempt : Type 0 where
  pub sdk : Bool
  pub server : Bool
  pub reaper : Bool
  pub thread : Bool
  pub first_push : Bool
  pub second_push : Bool

-- The body of the block under the mutex, which leaves the SDK initialised only if it succeeds. The
-- result of the second push is dropped.
unfoldable pub start : Attempt → Central → Central × Bool
start a c =
    let pushed = if a.second_push then suc (suc c.jobs) else suc c.jobs in
    if c.running
    then (c, false)
    else if a.server && (a.reaper && (a.thread && a.first_push))
    then (record c { running = true; jobs = pushed }, false)
    else (record c { up = false }, true)

-- `Central::init`, true on failure: an SDK that is initialised already answers PRL_ERR_DOUBLE_INIT,
-- which is no failure.
unfoldable pub init : Attempt → Central → Central × Bool
unfolding start
init a c = if c.up || a.sdk then start a (record c { up = true }) else (c, true)

-- `Central::fini`.
unfoldable pub fini : Central → Central
fini c =
    if c.running
    then record c { running = false; up = false; stops = suc c.stops; active = 0 }
    else c

-- `Central::schedule`, true on failure; `failed` is what the scheduler's push answers.
unfoldable pub schedule : Bool → Central → Bool
schedule failed c = not c.running || failed

-- What the SDK answers to an attempt to log in: the server's handle, the job's, whether the wait for
-- the job succeeds, and whether its code says success.
pub record Login : Type 0 where
  pub handle : Option ℕ
  pub job : Option ℕ
  pub waited : Bool
  pub succeeded : Bool

-- What `Link` has done: the handle that was given to `Server::attach`, the handles that were freed,
-- and whether it comes again.
pub record Linked : Type 0 where
  pub attached : Option ℕ
  pub freed : List ℕ
  pub again : Bool

abbrev pub freeing : Option ℕ → List ℕ
freeing none = []
freeing (some h) = h ∷ []

-- `refused` is what `Server::attach` answers, which owns the handle from there on.
unfoldable pub finish : Bool → ℕ → Option ℕ → Bool → Linked
finish refused s j true = record { attached = some s; freed = freeing j; again = refused }
finish refused s none false = record { attached = none; freed = s ∷ []; again = true }
finish refused s (some j) false = record { attached = none; freed = j ∷ s ∷ []; again = true }

-- `Link::operator()`.
unfoldable pub link : Bool → Login → Linked
unfolding finish
link refused l = elim l.handle [
  | none ↦ record { attached = none; freed = []; again = true }
  | some s ↦ elim l.job [
    | none ↦ finish refused s none false
    | some j ↦ finish refused s (some j) (l.waited && l.succeeded)
  ]
]
