-- ===== src/Ve/Unit.antt =====
-- `VE::Unit` of src/ve.cpp: a virtual environment, whose row stands in the table while the object
-- lives.
use rmond_drs.Base.{ℕ, suc, Bool, true, false, if◌then◌else◌, List, [], ◌∷◌, Option, none, some}
use rmond_drs.Oid.{Oid, IndexOrder}
use rmond_drs.Tuple.{Tuple}
use rmond_drs.Table.{Table, insert, erase}
use rmond_drs.Ve.{Ve, Watched, extract}

-- The storages of an environment.
pub data Storage : Type 0 where
  state type_ name provenance cpu_number cpu_limit cpu_units : Storage
  memory_query memory_event disk_io disk_space traffic_query traffic_event : Storage
  cpu_usage cpu_event linux_query : Storage

-- `m_tuple`, which is null where the row was refused, with which `m_state` is set, and the three lists
-- of `Environment`.
pub record VeUnit : Type 0 where
  pub row : Option (Tuple Ve)
  pub state_list : List Storage
  pub event_list : List Storage
  pub query_list : List Storage

abbrev pub bare : VeUnit
bare = record { row = none; state_list = []; event_list = []; query_list = [] }

-- What `addState`, `addEventUsage` and `addQueryUsage` append.
unfoldable pub equipped : Tuple Ve → VeUnit
equipped r = record {
  row = some r;
  state_list = state ∷ type_ ∷ name ∷ provenance ∷ cpu_number ∷ cpu_limit ∷ cpu_units ∷ [];
  event_list = memory_event ∷ disk_io ∷ traffic_event ∷ cpu_event ∷ [];
  query_list = memory_query ∷ disk_space ∷ traffic_query ∷ cpu_usage ∷ linux_query ∷ [];
}

module _ ⦃o : IndexOrder⦄ where
  abbrev pub made : Tuple Ve → Table Ve × Bool → Table Ve × VeUnit
  made r (t, true) = (t, bare)
  made r (t, false) = (t, equipped r)

  -- The constructor, while the table is alive: `blank` is the row that the key makes.
  unfoldable pub construct : Oid → Ve → Table Ve → Table Ve × VeUnit
  unfolding insert equipped
  construct key blank t =
      let r : Tuple Ve = record { id = t.fresh; key = key; cells = blank } in
      made r (insert r (record t { fresh = suc t.fresh }))

  -- The destructor, while the table is alive.
  unfoldable pub destroy : VeUnit → Table Ve → Table Ve
  unfolding erase
  destroy u t = elim u.row [ none ↦ t | some r ↦ (erase r t).0 ]

-- `Unit::uuid`: the string, and whether it is empty.
unfoldable pub uuid : List ℕ → List ℕ × Bool
uuid [] = ([], true)
uuid (c ∷ cs) = (c ∷ cs, false)

-- `Unit::pullState`: the storages that are refreshed; `job` is whether the wait succeeds for the job of
-- `PrlVm_RefreshConfig`, if there is one.
unfoldable pub pull_state : Option Bool → VeUnit → List Storage
pull_state none u = []
pull_state (some false) u = []
pull_state (some true) u = u.state_list

-- `Unit::pullUsage`, of the result of `PrlVm_GetStatistics`, if there is one; what it is refreshed with
-- is no event.
unfoldable pub pull_usage : Option ℕ → VeUnit → List Storage
pull_usage none u = []
pull_usage (some r) u = u.query_list

-- `Unit::state`.
unfoldable pub see_state : ℕ → Option (Option ℕ) → VeUnit → Watched → Watched
unfolding extract
see_state running event u w = elim u.row [ none ↦ w | some r ↦ extract running event w ]

-- The tables that `Unit::inject` attaches, in its order.
pub data TableName : Type 0 where
  ve_table cpu_table disk_table network_table linux_table : TableName

unfoldable pub attach_all : (TableName → Bool) → List TableName → List TableName × Bool
attach_all fails [] = ([], false)
attach_all fails (t ∷ ts) =
    let rest = attach_all fails ts in if fails t then ([], true) else (t ∷ rest.0, rest.1)

-- `Unit::inject`: the tables that were attached, and whether it fails, in which case none of them is
-- passed on.
unfoldable pub inject : (TableName → Bool) → List TableName × Bool
unfolding attach_all
inject fails =
    attach_all fails (ve_table ∷ cpu_table ∷ disk_table ∷ network_table ∷ linux_table ∷ [])
