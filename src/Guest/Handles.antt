-- ===== src/Guest/Handles.antt =====
-- The constructor and the destructor of `ConnectionToVM` in src/ve.cpp: which handles and descriptors
-- they take and release.
use rmond_drs.Base.{
  ℕ, ◌+◌, ◌==◌, ◌≡◌, ◌≢◌, Bool, true, false, if◌then◌else◌, List, [], ◌∷◌, ◌++◌, Option, none, some,
  arith,
}

-- The handles by the order in which they are made, and the descriptors of the pipe.
pub data Resource : Type 0 where
  login result vm_guest connect args envs exec_job : Resource
  descriptor : ℕ → Resource

-- What the calls of the SDK and `pipe` answer: `pipe` gives the two descriptors, or fails.
pub record Answers : Type 0 where
  pub login_job : Bool
  pub login_wait : Bool
  pub get_result : Bool
  pub get_param : Bool
  pub connect_job : Bool
  pub connect_wait : Bool
  pub create_args : Bool
  pub create_envs : Bool
  pub pipe : Option (ℕ × ℕ)
  pub run : Bool

-- A call, whether it succeeds, and what is held from then on.
abbrev pub piped : Option (ℕ × ℕ) → Bool × List Resource
piped none = (false, [])
piped (some (r, w)) = (true, descriptor r ∷ descriptor w ∷ [])

unfoldable pub stages : Answers → List (Bool × List Resource)
stages a =
    (a.login_job, login ∷ [])
    ∷ (a.login_wait, [])
    ∷ (a.get_result, result ∷ [])
    ∷ (a.get_param, vm_guest ∷ [])
    ∷ (a.connect_job, connect ∷ [])
    ∷ (a.connect_wait, [])
    ∷ (a.create_args, args ∷ [])
    ∷ (a.create_envs, envs ∷ [])
    ∷ piped a.pipe
    ∷ (a.run, exec_job ∷ [])
    ∷ []

-- A call that fails throws.
unfoldable pub take_all : List (Bool × List Resource) → List Resource → List Resource × Bool
take_all [] held = (held, false)
take_all ((success, more) ∷ ss) held =
    let rest = take_all ss (held ++ more) in if success then rest else (held, true)

-- The constructor: what is held at its end, and whether it threw.
unfoldable pub construct : Answers → List Resource × Bool
unfolding stages take_all
construct a = take_all (stages a) []

-- `if (!fd) close(fd)`.
abbrev pub closed : ℕ → List Resource
closed fd = if fd == 0 then descriptor fd ∷ [] else []

-- The destructor, of the two descriptors: what it frees and closes, in order.
unfoldable pub destroy : ℕ → ℕ → List Resource
destroy r w =
    exec_job ∷ (closed r ++ (closed w ++ (envs ∷ args ∷ connect ∷ vm_guest ∷ result ∷ login ∷ [])))

abbrev number : Resource → ℕ
number login = 0
number result = 1
number vm_guest = 2
number connect = 3
number args = 4
number envs = 5
number exec_job = 6
number (descriptor n) = 7 + n

has : Resource → List Resource → Bool
has x [] = false
has x (y ∷ ys) = if number y == number x then true else has x ys

-- What is held and was not released.
unfoldable pub kept : List Resource → List Resource → List Resource
unfolding has
kept freed [] = []
kept freed (x ∷ xs) = if has x freed then kept freed xs else x ∷ kept freed xs

-- A connection that could be made, by a pipe whose descriptors are not 0, is destroyed with both
-- descriptors left open, and nothing else kept.
destroy_lem :
    (a : Answers) (r w : ℕ)
    → a.pipe ≡ some (r, w)
    → (construct a).1 ≡ false
    → r ≢ 0
    → w ≢ 0
    → kept (destroy r w) (construct a).0 ≡ descriptor r ∷ descriptor w ∷ []
unfolding construct destroy kept stages take_all has
destroy_lem a r w p h m n = ground arith
