-- ===== src/Central/Laws.antt =====
-- The SDK is initialised while the module runs and not otherwise; the handle of a login is attached
-- or freed.
use rmond_drs.Base.{ℕ, ◌≡◌, Bool, true, false, not, ◌||◌, ◌++◌, [], ◌∷◌, Option, none, some, arith}
use rmond_drs.Central.{Central, Attempt, start, init, fini, schedule, Login, link, finish, freeing}

-- Where the SDK is initialised just while the module runs, this is so after every `init`, which
-- answers success exactly if the module runs then, and after every `fini`, after which it does not
-- run and schedules nothing.
pub init-fini :
    (a : Attempt) (c : Central) (failed : Bool)
    → c.up ≡ c.running
    → ((init a c).0.up ≡ (init a c).0.running)
      × ((init a c).1 ≡ not (init a c).0.running)
      × ((fini c).up ≡ false)
      × ((fini c).running ≡ false)
      × (schedule failed (fini c) ≡ true)
unfolding init start fini schedule
init-fini a c failed e = (ground arith, ground arith, ground arith, ground arith, ground arith)

abbrev pub absent : Option ℕ → Bool
absent none = true
absent (some h) = false

-- Each handle that a login has got is freed or, last, given to the server, once; and the link comes
-- again exactly if nothing was given or the server has refused it.
link_lem :
    (refused : Bool) (l : Login)
    → ((link refused l).freed ++ freeing (link refused l).attached
        ≡ (elim l.handle [ none ↦ [] | some s ↦ freeing l.job ++ s ∷ [] ]))
      × ((link refused l).again ≡ (absent (link refused l).attached || refused))
unfolding link finish
link_lem refused l = (ground arith, ground arith)
