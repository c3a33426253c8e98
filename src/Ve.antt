-- ===== src/Ve.antt =====
-- The row of a virtual environment in src/ve.cpp, and the storages that fill it: `Name`, `Type`,
-- `State`, `Provenance`, `Memory` and the numbers of `CPU`. Texts are lists of bytes with no zero.
pub mod Laws
pub mod Cpus
pub mod Unit
use rmond_drs.Base.{
  ℕ, suc, ◌+◌, ◌==◌, ltb, eqb, Bool, true, false, not, ◌&&◌, ◌||◌, if◌then◌else◌, List, [], ◌∷◌,
  ◌++◌, Option, none, some, length,
}
use rmond_drs.License.{is_space, skip_spaces, starts_with}
use rmond_drs.Disk.{after, or_else}

-- The beans of `VE::TABLE`.
pub record Ve : Type 0 where
  pub veid : List ℕ
  pub name : List ℕ
  pub state : ℕ
  pub perfect_node : List ℕ
  pub memory_total : ℕ
  pub memory_usage : ℕ
  pub swap_total : ℕ
  pub swap_usage : ℕ
  pub cpu_number : ℕ
  pub cpu_limit : ℕ
  pub cpu_units : ℕ
  pub cpu_system : ℕ
  pub cpu_user : ℕ
  pub ve_type : ℕ
  pub os_type : ℕ
  pub uuid : List ℕ

-- `if (!x.empty()) y->put<NAME>(x)`.
abbrev pub or_kept : List ℕ → List ℕ → List ℕ
or_kept [] old = old
or_kept (c ∷ cs) old = c ∷ cs

-- `Name::refresh`, while the row is alive, of the strings that the SDK gives.
unfoldable pub refresh_name : List ℕ → List ℕ → Ve → Ve
refresh_name name uuid y = record y { name = or_kept name y.name; uuid = or_kept uuid y.uuid }

-- The types of `PRL_VM_TYPE`.
pub record Types : Type 0 where
  pub vm : ℕ
  pub ct : ℕ

-- `Type::refresh`: the types that the SDK gives, where it does; `left` is what the variable of the
-- second one holds before it is set.
unfoldable pub refresh_type : Types → Option ℕ → Option ℕ → ℕ → Ve → Ve
refresh_type k t os_type left y = record y {
  ve_type = or_else t k.vm;
  os_type = or_else os_type left;
}

-- The row, and how many times `PrlVm_SubscribeToPerfStats` was called.
pub record Watched : Type 0 where
  pub ve : Ve
  pub subscribed : ℕ

-- `State::put`, while the row is alive; `running` is VMS_RUNNING.
unfoldable pub put_state : ℕ → ℕ → Watched → Watched
put_state running value w = record {
  ve = record w.ve { state = value };
  subscribed =
      if (value == running) && not (value == w.ve.state) then suc w.subscribed else w.subscribed;
}

-- `State::extract`, of the event's parameter, if it has it, and its number, if it can be read.
unfoldable pub extract : ℕ → Option (Option ℕ) → Watched → Watched
unfolding put_state
extract running none w = w
extract running (some v) w = put_state running (or_else v 0) w

-- `State::refresh`, of the state that the SDK gives, if it does.
unfoldable pub refresh_state : ℕ → Option ℕ → Watched → Watched
unfolding put_state
refresh_state running none w = w
refresh_state running (some s) w = put_state running s w

-- "shaman get-last-node vm-"
abbrev pub get_vm : List ℕ
get_vm =
    115 ∷ 104 ∷ 97 ∷ 109 ∷ 97 ∷ 110 ∷ 32 ∷ 103 ∷ 101 ∷ 116 ∷ 45 ∷ 108 ∷ 97 ∷ 115 ∷ 116 ∷ 45 ∷ 110
    ∷ 111 ∷ 100 ∷ 101 ∷ 32 ∷ 118 ∷ 109 ∷ 45 ∷ []

-- "shaman get-last-node ct-"
abbrev pub get_ct : List ℕ
get_ct =
    115 ∷ 104 ∷ 97 ∷ 109 ∷ 97 ∷ 110 ∷ 32 ∷ 103 ∷ 101 ∷ 116 ∷ 45 ∷ 108 ∷ 97 ∷ 115 ∷ 116 ∷ 45 ∷ 110
    ∷ 111 ∷ 100 ∷ 101 ∷ 32 ∷ 99 ∷ 116 ∷ 45 ∷ []

-- "Resource last node ID :"
abbrev pub mark : List ℕ
mark =
    82 ∷ 101 ∷ 115 ∷ 111 ∷ 117 ∷ 114 ∷ 99 ∷ 101 ∷ 32 ∷ 108 ∷ 97 ∷ 115 ∷ 116 ∷ 32 ∷ 110 ∷ 111 ∷ 100
    ∷ 101 ∷ 32 ∷ 73 ∷ 68 ∷ 32 ∷ 58 ∷ []

-- The command line of `Provenance::shaman`.
unfoldable pub shaman : Types → Option ℕ → Ve → Option (List ℕ)
shaman k none ve = none
shaman k (some t) ve =
    if t == k.vm
    then some (get_vm ++ ve.name)
    else if t == k.ct
    then some (get_ct ++ ve.veid)
    else none

-- `boost::trim`.
abbrev pub keep_first : ℕ → List ℕ → List ℕ
keep_first c [] = if is_space c then [] else c ∷ []
keep_first c (d ∷ ds) = c ∷ d ∷ ds

unfoldable pub trim_right : List ℕ → List ℕ
trim_right [] = []
trim_right (c ∷ cs) = keep_first c (trim_right cs)

unfoldable pub trim : List ℕ → List ℕ
unfolding skip_spaces trim_right
trim cs = trim_right (skip_spaces cs)

-- The body of the loop of `Provenance::refresh`, for what `fgets` read.
unfoldable pub node_line : List ℕ → Ve → Ve
unfolding starts_with after trim
node_line b y = if starts_with b mark then record y { perfect_node = trim (after b mark) } else y

-- The loop; it ends once 1024 characters were seen.
unfoldable pub node_lines : ℕ → List (List ℕ) → Ve → Ve
unfolding node_line
node_lines seen [] y = y
node_lines seen (b ∷ bs) y =
    let rest = node_lines (seen + length b) bs (node_line b y) in if ltb seen 1024 then rest else y

abbrev pub output_of : (List ℕ → Option (List (List ℕ))) → Option (List ℕ) → List (List ℕ)
output_of popen none = []
output_of popen (some x) = elim (popen x) [ none ↦ [] | some bs ↦ bs ]

-- `Provenance::refresh`, while the row is alive: `popen` gives what a command prints, in the pieces
-- that `fgets` reads, if it can be started.
unfoldable pub refresh_node : (List ℕ → Option (List (List ℕ))) → Types → Option ℕ → Ve → Ve
unfolding node_lines shaman
refresh_node popen k t y =
    let cleared = record y { perfect_node = [] } in
    node_lines 0 (output_of popen (shaman k t cleared)) cleared

-- `Memory::Query::refresh`, of the numbers that the SDK gives, where it does.
unfoldable pub query_memory : Option ℕ → Option ℕ → Option ℕ → Option ℕ → Ve → Ve
query_memory ram_total ram_usage swap_total swap_usage y = record y {
  memory_total = or_else ram_total y.memory_total;
  memory_usage = or_else ram_usage y.memory_usage;
  swap_total = or_else swap_total y.swap_total;
  swap_usage = or_else swap_usage y.swap_usage;
}

-- `Memory::Event::refresh`; `pattern` is PRL_GUEST_RAM_USAGE_PTRN.
unfoldable pub event_memory : List ℕ → List ℕ → Option ℕ → Ve → Ve
event_memory pattern n none y = y
event_memory pattern n (some u) y =
    if eqb n pattern then (if u == 0 then y else record y { memory_usage = u }) else y

-- `CPU::Number::refresh`, `CPU::Limit::refresh` and `CPU::Units::refresh`.
unfoldable pub refresh_number : Option ℕ → Ve → Ve
refresh_number n y = record y { cpu_number = or_else n y.cpu_number }

unfoldable pub refresh_limit : Option ℕ → Ve → Ve
refresh_limit n y = record y { cpu_limit = or_else n y.cpu_limit }

unfoldable pub refresh_units : Option ℕ → Ve → Ve
refresh_units n y = record y { cpu_units = or_else n y.cpu_units }
