-- ===== src/Central/Startup.antt =====
-- What `Central::init` of src/mib.cpp puts together: `Server::inject`, and `Sink::Unit::inject` of
-- src/sink.cpp; and the jobs that it leaves with the scheduler.
use rmond_drs.Base.{
  ℕ, ◌≡◌, Bool, true, false, not, ◌&&◌, ◌||◌, if◌then◌else◌, List, [], ◌∷◌, Option, none, some,
  arith,
}
use rmond_drs.Oid.{IndexOrder}
use rmond_drs.Container.{Memory}
use rmond_drs.Central.{Central, Attempt, init, start, schedule}
use rmond_drs.Sinks.{World, reaper_do}
use rmond_drs.Ve.Unit.{
  TableName, ve_table, cpu_table, disk_table, network_table, linux_table, inject as inject_tables,
  attach_all,
}
use rmond_drs.Host.Scalars.{Answers, inject as inject_scalars}

-- `Server::inject`: whether a server is made, of what net-snmp answers to the scalars of the host and
-- of whether each table of environments fails.
unfoldable pub server_inject : (ℕ → Answers) → (TableName → Bool) → Bool
unfolding inject_scalars inject_tables
server_inject a fails = not ((inject_scalars a).1 || (inject_tables fails).1)

-- What `Sink::Unit::inject` leaves: whether each of its tables is attached, and whether it gives a
-- reaper.
pub record Registered : Type 0 where
  pub metrix : Bool
  pub sinks : Bool
  pub reaper : Bool

-- `Sink::Unit::inject`, of whether each table fails.
unfoldable pub sink_inject : Bool → Bool → Registered
sink_inject metrix_fails sinks_fails =
    if metrix_fails
    then record { metrix = false; sinks = false; reaper = false }
    else record { metrix = true; sinks = not sinks_fails; reaper = not sinks_fails }

-- The rest of what a start depends on.
pub record Conditions : Type 0 where
  pub scalars : ℕ → Answers
  pub fails : TableName → Bool
  pub metrix_fails : Bool
  pub sinks_fails : Bool
  pub sdk : Bool
  pub thread : Bool
  pub first_push : Bool
  pub second_push : Bool

unfoldable pub attempt : Conditions → Attempt
unfolding server_inject sink_inject
attempt c = record {
  sdk = c.sdk;
  server = server_inject c.scalars c.fails;
  reaper = (sink_inject c.metrix_fails c.sinks_fails).reaper;
  thread = c.thread;
  first_push = c.first_push;
  second_push = c.second_push;
}

module _ ⦃o : IndexOrder⦄ where
  -- `Handler::Reaper`: what the reaper does, and whether the job is scheduled again.
  unfoldable pub reaper_job : Memory → Bool → Central → World → World × Bool
  unfolding reaper_do schedule
  reaper_job m failed c w = (reaper_do m w, not (schedule failed c))

-- `Snatch::Unit` with `pullState`, and with `pullUsage`, which is scheduled again: the environment
-- that is asked, if it is still there.
unfoldable pub pull_state : Option ℕ → List ℕ
pull_state none = []
pull_state (some ve) = ve ∷ []

unfoldable pub pull_usage : Bool → Central → Option ℕ → List ℕ × Bool
unfolding schedule
pull_usage failed c none = ([], false)
pull_usage failed c (some ve) = (ve ∷ [], not (schedule failed c))

-- No table fails.
abbrev pub tables : (TableName → Bool) → Bool
tables fails =
    not (fails ve_table)
    && (not (fails cpu_table)
        && (not (fails disk_table) && (not (fails network_table) && not (fails linux_table))))

-- A start of a module that does not run succeeds exactly if the SDK can be initialised, each of the
-- five tables of environments and the two of sinks is attached, the thread starts and takes the first
-- job; the scalars of the host and the second job, the reaper's, do not matter. The module runs, and
-- the SDK stays initialised, exactly after a start that succeeds.
pub init_lem :
    (c : Conditions) (z : Central)
    → z.running ≡ false
    → z.up ≡ false
    → ((init (attempt c) z).0.running ≡ (
        c.sdk
        && (tables c.fails
            && ((not c.metrix_fails && not c.sinks_fails) && (c.thread && c.first_push)))))
      × ((init (attempt c) z).1 ≡ not (init (attempt c) z).0.running)
      × ((init (attempt c) z).0.up ≡ (init (attempt c) z).0.running)
unfolding init start attempt server_inject sink_inject inject_scalars inject_tables attach_all
init_lem c z r u = (ground (arith, r, u), ground (arith, r, u), ground (arith, r, u))
