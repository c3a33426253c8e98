-- ===== src/System.antt =====
-- The helpers of src/system.cpp: the guard of a mutex, what a wait tells its caller, and strings and
-- results from the SDK. An answer of pthreads is a number, and 0 is success.
pub mod Laws
use rmond_drs.Base.{
  ℕ, zero, suc, ◌-◌, ltb, Bool, true, false, ◌==◌, if◌then◌else◌, List, [], ◌∷◌, ◌++◌, Option, none,
  some,
}

-- `Lock`: `attached` is whether `m_mutex` is set, and `held` whether the mutex is locked by it.
pub record Lock : Type 0 where
  pub idle : Bool
  pub attached : Bool
  pub held : Bool

-- `Lock::enter`, true on failure; `e` is what `pthread_mutex_lock` answers.
unfoldable pub enter : ℕ → Lock → Lock × Bool
enter e l =
    if l.attached
    then (if e == 0 then (record l { idle = false; held = true }, false) else (l, true))
    else (l, true)

-- `Lock::leave`, true on failure; `e` is what `pthread_mutex_unlock` answers.
unfoldable pub leave : ℕ → Lock → Lock × Bool
leave e l =
    if l.attached
    then (if l.idle
        then (l, false)
        else if e == 0
        then (record l { idle = true; held = false }, false)
        else (l, true))
    else (l, true)

-- The constructor: a lock whose mutex cannot be entered lets go of it.
unfoldable pub make : ℕ → Lock
unfolding enter
make e =
    let (l, failed) = enter e (record { idle = true; attached = true; held = false }) in
    if failed then record l { attached = false } else l

pub data Call : Type 0 where
  enters leaves : ℕ → Call

unfoldable pub calls : List Call → Lock → Lock
unfolding enter leave
calls [] l = l
calls (enters e ∷ cs) l = calls cs (enter e l).0
calls (leaves e ∷ cs) l = calls cs (leave e l).0

-- `ConditionalVariable::wait` without a time, true on failure.
unfoldable pub wait : ℕ → Bool
wait e = if e == 0 then false else true

-- From errno.h.
abbrev pub etimedout : ℕ
etimedout = 110

-- `ConditionalVariable::wait` until a time: false only when the time is out.
unfoldable pub wait_until : ℕ → Bool
wait_until e = if e == etimedout then false else true

-- Characters of the buffer, padded by zeros where the SDK writes fewer.
unfoldable pub filled : ℕ → List ℕ → List ℕ
filled zero b = []
filled (suc n) [] = 0 ∷ filled n []
filled (suc n) (x ∷ b) = x ∷ filled n b

-- `Sdk::getString`: `size` is what the first call stores, if it succeeds, with the final zero; `buffer`
-- is what the second call writes, if it succeeds.
unfoldable pub get_string : Option ℕ → Option (List ℕ) → List ℕ
unfolding filled
get_string none buffer = []
get_string (some size) none = []
get_string (some size) (some b) = if ltb size 2 then [] else filled (size - 1) b

-- `Sdk::getAsyncResult` of a job that is valid or not: the result's handle, if it has one, and the
-- handles that were freed. `waited` is whether the wait succeeds, and `result` the handle of the
-- job's result.
unfoldable pub get_async_result : Option ℕ → Bool → Option ℕ → Option ℕ → Option ℕ × List ℕ
get_async_result none waited result param = (none, [])
get_async_result (some j) waited none param = (none, j ∷ [])
get_async_result (some j) waited (some r) param =
    if waited then (param, r ∷ j ∷ []) else (none, j ∷ [])
