-- ===== src/System/Laws.antt =====
-- A guard holds its mutex just while it is not idle.
use rmond_drs.Base.{
  ℕ, zero, suc, ◌-◌, ltb, ◌≡◌, refl, ap, false, not, ◌&&◌, if◌then◌else◌, List, [], ◌∷◌, some,
  arith, length,
}
use rmond_drs.System.{Lock, enter, leave, make, Call, enters, leaves, calls, filled, get_string}

abbrev Sound : Lock → Type 0
Sound l = (l.held ≡ not l.idle) × ((l.held && not l.attached) ≡ false)

enter-Sound : (e : ℕ) (l : Lock) → Sound l → Sound (enter e l).0
unfolding enter
enter-Sound e l h = (ground (arith, h.0), ground (arith, h.1))

leave-Sound : (e : ℕ) (l : Lock) → Sound l → Sound (leave e l).0
unfolding leave
leave-Sound e l h = (ground (arith, h.0), ground (arith, h.1))

calls-Sound : (cs : List Call) (l : Lock) → Sound l → Sound (calls cs l)
unfolding calls
calls-Sound [] l h = h
calls-Sound (enters e ∷ cs) l h = calls-Sound cs (enter e l).0 (enter-Sound e l h)
calls-Sound (leaves e ∷ cs) l h = calls-Sound cs (leave e l).0 (leave-Sound e l h)

make-Sound : (e : ℕ) → Sound (make e)
unfolding make enter
make-Sound e = (ground arith, ground arith)

leave-free : (l : Lock) → Sound l → (leave 0 l).0.held ≡ false
unfolding leave
leave-free l h = ground (arith, h.0, h.1)

-- Whatever the calls of a guard are and whatever the mutex answers to them, the guard holds the mutex
-- just while it is not idle, and its destructor, if the mutex can be unlocked, does not leave it
-- locked.
guard_lem :
    (e : ℕ) (cs : List Call)
    → ((calls cs (make e)).held ≡ not (calls cs (make e)).idle)
      × ((leave 0 (calls cs (make e))).0.held ≡ false)
guard_lem e cs =
    let h = calls-Sound cs (make e) (make-Sound e) in (h.0, leave-free (calls cs (make e)) h)

length-filled : (n : ℕ) (b : List ℕ) → length (filled n b) ≡ n
unfolding filled
length-filled zero b = refl
length-filled (suc n) [] = ap suc (length-filled n [])
length-filled (suc n) (x ∷ b) = ap suc (length-filled n b)

-- A string from the SDK has one character less than the SDK has asked for, or none.
length-get_string :
    (size : ℕ) (b : List ℕ)
    → length (get_string (some size) (some b)) ≡ (if ltb size 2 then 0 else size - 1)
unfolding get_string
length-get_string size b = ground (arith, length-filled (size - 1) b)
