-- ===== src/Environment.antt =====
-- `Environment` of src/environment.cpp: the storages of a host or of a virtual environment, each a
-- number, and what is refreshed with what.
use rmond_drs.Base.{ℕ, List, [], ◌∷◌, map, Option, none, some}
use rmond_drs.Value.{Chain, list_make}

-- The lists of `Environment`: the storages of the state, of events and of queries.
pub record Environment : Type 0 where
  pub h : ℕ
  pub state_list : List ℕ
  pub event_list : List ℕ
  pub query_list : List ℕ

-- The type of a handle of the SDK.
pub data HandleType : Type 0 where
  event event_parameter other : HandleType

-- Each storage of a list with the handle that it is refreshed with.
unfoldable pub each : ℕ → List ℕ → List (ℕ × ℕ)
each h values = map (λ v. (v, h)) values

-- `Environment::pullState`.
unfoldable pub pull_state : Environment → List (ℕ × ℕ)
unfolding each
pull_state e = each e.h e.state_list

abbrev pub list_for : HandleType → Environment → List ℕ
list_for event e = e.event_list
list_for event_parameter e = e.event_list
list_for other e = e.query_list

-- `Environment::refresh`; the type is `none` where it cannot be read.
unfoldable pub refresh : Option HandleType → ℕ → Environment → List (ℕ × ℕ)
unfolding each
refresh none performance e = []
refresh (some t) performance e = each performance (list_for t e)

-- `Environment::snapshot`, of the snapshots of its providers: `none` is a null pointer. The chain is
-- what the list that it returns makes.
unfoldable pub present : List (Option Chain) → List Chain
present [] = []
present (none ∷ ps) = present ps
present (some c ∷ ps) = c ∷ present ps

unfoldable pub snapshot : List (Option Chain) → Chain
unfolding present
snapshot ps = list_make (present ps)
