-- ===== src/Examples/Reports.antt =====
-- Reports, traps and sessions at concrete inputs.
use rmond_drs.Base.{ℕ, ◌≡◌, ◌==◌, refl, true, false, not, List, [], ◌∷◌, map, none, some, ok, arith}
use rmond_drs.Asn.{get_integer}
use rmond_drs.Value.{NamedVar, Chain}
use rmond_drs.Value.Laws.{flat}
use rmond_drs.Trap.{Externs, Agent}
use rmond_drs.Session.{Push, parts, limit}
use rmond_drs.Session.Parts.{made, concat, Full, parts-Full}
use rmond_drs.Session.Report.{Delivery, report, AllSettled, report_lem}
use rmond_drs.Container.{Memory}
use rmond_drs.Examples.{big_endian, lex_order, first_sink}

abbrev var_of : ℕ → NamedVar
var_of x = record { name = 1 ∷ x ∷ []; var = get_integer 2 x }

-- Three providers make something and one makes nothing.
abbrev chains : List Chain
chains = (var_of 1 ∷ []) ∷ [] ∷ (var_of 2 ∷ var_of 3 ∷ []) ∷ (var_of 4 ∷ []) ∷ []

parts-Full_example :
    (gs : List (List Chain)) × (parts 2 [] 0 chains ≡ map flat gs)
    × (concat gs ≡ made chains)
    × Full 2 gs
parts-Full_example = parts-Full 2 chains (omega arith)

-- The names that net-snmp exports: that of the address is one shorter than that of the trap.
abbrev names : Externs
names = record {
  sysuptime_oid = 1 ∷ 3 ∷ 6 ∷ 1 ∷ 2 ∷ 1 ∷ 1 ∷ 3 ∷ 0 ∷ [];
  snmptrap_oid = 1 ∷ 3 ∷ 6 ∷ 1 ∷ 6 ∷ 3 ∷ 1 ∷ 1 ∷ 4 ∷ 1 ∷ 0 ∷ [];
  agentaddr_oid = 1 ∷ 3 ∷ 6 ∷ 1 ∷ 6 ∷ 3 ∷ 18 ∷ 1 ∷ 3 ∷ 0 ∷ [];
  behind = 77 ∷ [];
}

abbrev agent : Agent
agent = record {
  created = true;
  uptime_memory = true;
  trap_memory = true;
  address_memory = true;
  uptime = 5;
  myaddr = 6;
}

abbrev plenty : Memory
plenty = record { array = true; header = true }

-- Each trap is made, and the second one is not taken.
abbrev deliveries : ℕ → Delivery
deliveries i = record { agent = agent; memory = true; accepted = not (i == 1) }

report_lem_example :
    ((gs : List (List Chain)) × (ps : List Push) × (report names deliveries plenty true
          (some (λ metrics. chains))
          none
          (some first_sink)
        ≡ ok ps)
      × AllSettled (map flat gs) ps
      × (concat gs ≡ made chains)
      × Full (limit (some first_sink)) gs)
    × (report names deliveries plenty false (some (λ metrics. chains)) none (some first_sink)
        ≡ ok [])
    × (report names deliveries plenty true none none (some first_sink) ≡ ok [])
report_lem_example =
    report_lem names (omega arith) deliveries plenty (λ metrics. chains) none first_sink refl
