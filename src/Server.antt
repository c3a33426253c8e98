-- ===== src/Server.antt =====
-- `Server` of src/mib.cpp: the host that the module is attached to, its virtual environments by
-- UUID, and what the events of the SDK do to them. A handle or an object is a number.
pub mod Names
pub mod Steps
pub mod Invariant
pub mod Laws
pub mod Races
use rmond_drs.Base.{
  ℕ, suc, zero, Bool, true, false, ◌==◌, if◌then◌else◌, List, [], ◌∷◌, map, Option, none, some,
  Outcome, ok, fault, length, ◌>>=◌,
}
use rmond_drs.Oid.{IndexOrder, less, lex, lex_eq_iff, lex_flip, lex_trans}
use rmond_drs.Automat.{Row, do_}
use rmond_drs.Container.{find, drop_key}

-- `std::less<std::string>` is lexicographic.
instance unfoldable pub strings : IndexOrder
strings = record {
  compare = lex;
  compare_eq_iff = lex_eq_iff;
  compare_flip = lex_flip;
  compare_trans = lex_trans;
}

abbrev pub Uuid : Type 0
Uuid = List ℕ

-- The jobs that are pushed to the scheduler: `Snatch::pullState` and `Snatch::pullUsage` of an
-- environment, and a new attempt of `Link`.
pub data Job : Type 0 where
  pull_state pull_usage : ℕ → Job
  link : Job

-- `active` is the server's entry in `g_active`, which may hold a null pointer; `shown` is the number
-- of environments that the host publishes; `pushed` is the jobs, the last one first; `hooked` and
-- `unhooked` count the calls of `PrlSrv_RegEventHandler` and `PrlSrv_UnregEventHandler`.
pub record Server : Type 0 where
  pub active : Option Bool
  pub psdk : Option ℕ
  pub host : Option ℕ
  pub shown : ℕ
  pub ves : List (Uuid × ℕ)
  pub pushed : List Job
  pub hooked : ℕ
  pub unhooked : ℕ

-- `m_ves.second[u] = x`.
unfoldable pub assign : {V : Type 0} → Uuid → V → List (Uuid × V) → List (Uuid × V)
assign k v [] = (k, v) ∷ []
assign k v ((j, w) ∷ s) =
    let rest = assign k v s in
    if less j k then (j, w) ∷ rest else if less k j then (k, v) ∷ (j, w) ∷ s else (j, v) ∷ s

-- The environments that the SDK lists: `none` where the UUID cannot be read.
unfoldable pub attach_ves : List (Option Uuid × ℕ) → Server → Server
unfolding assign
attach_ves [] s = s
attach_ves ((none, x) ∷ a) s = attach_ves a s
attach_ves ((some u, x) ∷ a) s =
    attach_ves a
      (record s { ves = assign u x s.ves; pushed = pull_usage x ∷ pull_state x ∷ s.pushed })

-- Under the mutex: nothing is done if there is a host already.
unfoldable pub attach_free : ℕ → ℕ → List (Option Uuid × ℕ) → Option ℕ → Server → Server
unfolding attach_ves
attach_free handle h a (some g) s = s
attach_free handle h a none s =
    let t = attach_ves a (record s {
      psdk = some handle;
      host = some h;
      pushed = pull_usage h ∷ pull_state h ∷ s.pushed;
    }) in
    record t { shown = length t.ves; active = some true; hooked = suc t.hooked }

-- `Server::attach`, true on failure: `listed` is what `Host::Unit::list` answers, and `scheduler` is
-- whether there is one.
unfoldable pub attach : ℕ → ℕ → Option (List (Option Uuid × ℕ)) → Bool → Server → Server × Bool
unfolding attach_free
attach handle h none scheduler s = (s, true)
attach handle h (some a) scheduler s =
    if scheduler then (attach_free handle h a s.host s, false) else (s, false)

abbrev unhook : Option Bool → ℕ → ℕ
unhook none n = n
unhook (some _) n = suc n

-- `Server::detach`; `Link::reschedule` pushes only if there is a scheduler.
unfoldable pub detach : Bool → Server → Server
detach scheduler s = record s {
  active = none;
  unhooked = unhook s.active s.unhooked;
  host = none;
  psdk = none;
  ves = [];
  pushed = if scheduler then link ∷ s.pushed else s.pushed;
}

-- `Server::pull` under the mutex at first. A known environment is pulled by a job. Otherwise the
-- result is the host to be asked for it.
unfoldable pub pull_known : Bool → Option ℕ → Server → Server × Option ℕ
pull_known scheduler none s = (s, s.host)
pull_known scheduler (some u) s =
    (if scheduler then record s { pushed = pull_state u ∷ s.pushed } else s, none)

unfoldable pub pull_begin : Uuid → Bool → Server → Server × Option ℕ
unfolding pull_known
pull_begin d scheduler s = pull_known scheduler (find d s.ves) s

-- `m_host.second->ves(n)`.
unfoldable pub show_ves : Option ℕ → Server → Outcome Server
show_ves none s = fault
show_ves (some h) s = ok (record s { shown = length s.ves })

abbrev pub when : Bool → Job → Server → Server
when scheduler j s = if scheduler then record s { pushed = j ∷ s.pushed } else s

-- `Server::pull` once it has the mutex again, with what the host has found.
unfoldable pub pull_end : Uuid → ℕ → Bool → Server → Outcome Server
unfolding assign show_ves
pull_end d u scheduler s = do
  t ← show_ves s.host (record s { ves = assign d u s.ves })
  ok (when scheduler (pull_usage u) t)

-- `Server::erase`.
unfoldable pub erase : Uuid → Server → Outcome Server
unfolding show_ves
erase d s = show_ves s.host (record s { ves = drop_key d s.ves })

-- `Server::state`: the environment that is given the event.
unfoldable pub state : Uuid → Server → Option ℕ
state d s = find d s.ves

-- The look-up of `Server::handle` in `g_active`, by `operator[]`.
abbrev pub entry : Option Bool → Server → Server × Bool
entry none s = (record s { active = some false }, false)
entry (some b) s = (s, b)

unfoldable pub handle_entry : Server → Server × Bool
handle_entry s = entry s.active s

-- The types of events that the server's table has rows for, from the SDK.
pub record EventTypes : Type 0 where
  pub connection_closed : ℕ
  pub shutdown : ℕ
  pub perfstats : ℕ
  pub deleted : ℕ
  pub unregistered : ℕ
  pub added : ℕ
  pub state_changed : ℕ
  pub config_changed : ℕ
  pub started : ℕ
  pub stopped : ℕ
  pub tools_state_changed : ℕ
  pub migrate_finished : ℕ
  pub paused : ℕ
  pub suspended : ℕ
  pub reseted : ℕ
  pub aborted : ℕ
  pub migrate_started : ℕ
  pub continued : ℕ
  pub resumed : ℕ

pub data Operation : Type 0 where
  detaching refreshing erasing pulling stating : Operation

abbrev pub on : ℕ → Operation → Row (Option Operation)
on event operation = record { this_case = event; execute = some operation }

-- `Server::table_type`.
abbrev pub table : EventTypes → List (Row (Option Operation))
table t =
    on t.connection_closed detaching
    ∷ on t.shutdown detaching
    ∷ on t.perfstats refreshing
    ∷ on t.deleted erasing
    ∷ on t.unregistered erasing
    ∷ on t.added pulling
    ∷ on t.state_changed stating
    ∷ on t.config_changed pulling
    ∷ on t.started pulling
    ∷ on t.stopped pulling
    ∷ on t.tools_state_changed pulling
    ∷ on t.migrate_finished pulling
    ∷ on t.paused pulling
    ∷ on t.suspended pulling
    ∷ on t.reseted pulling
    ∷ on t.aborted pulling
    ∷ on t.migrate_started pulling
    ∷ on t.continued pulling
    ∷ on t.resumed pulling
    ∷ []

-- The operation for a type of event, if the table has a row for it.
unfoldable pub dispatch : EventTypes → ℕ → Option Operation
dispatch types t = do_ (table types) none t

-- `Server::handle`, up to the call of the operation: `t` is the type of the event, if the handle is
-- an event's and has one.
unfoldable pub handle : EventTypes → Option ℕ → Server → Server × Option Operation
unfolding handle_entry
handle types none s = (s, none)
handle types (some t) s =
    let (s1, live) = handle_entry s in (s1, if live then dispatch types t else none)

-- The issuer of an event, if its type can be read.
pub data Issuer : Type 0 where
  dispatcher other : Issuer
  machine : Uuid → Issuer

-- What an environment is refreshed with: the event, or one of its parameters.
pub data Source : Type 0 where
  event : Source
  param : ℕ → Source

unfoldable pub issuer_env : Issuer → Server → Option ℕ
unfolding state
issuer_env dispatcher s = s.host
issuer_env other s = none
issuer_env (machine d) s = state d s

-- The loop of `Server::performance`, which counts down; `got` is which parameters can be read.
unfoldable pub refreshes : ℕ → (ℕ → Bool) → ℕ → List (ℕ × Source)
refreshes e got zero = []
refreshes e got (suc n) =
    let rest = refreshes e got n in if got n then (e, param n) ∷ rest else rest

-- `~0U`.
abbrev pub no_count : ℕ
no_count = 4294967295

pub refresh_env : Option ℕ → ℕ → (ℕ → Bool) → List (ℕ × Source)
unfolding refreshes
refresh_env none count got = []
refresh_env (some e) count got =
    if count == no_count then (e, event) ∷ [] else refreshes e got count

-- `Server::performance`; `count` is what `PrlEvent_GetParamsCount` left in n.
unfoldable pub performance : Option Issuer → ℕ → (ℕ → Bool) → Server → List (ℕ × Source)
unfolding issuer_env refresh_env
performance none count got s = []
performance (some i) count got s = refresh_env (issuer_env i s) count got

-- `Server::snapshot`: the environments that are asked for a provider, in turn.
unfoldable pub snapshot : Server → List ℕ
snapshot s = elim s.host [ none ↦ [] | some h ↦ h ∷ map (λ p. p.1) s.ves ]
