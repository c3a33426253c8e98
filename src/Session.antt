-- ===== src/Session.antt =====
-- `Sink::Unit` of src/sink.cpp, a session to one sink, and `Inform::push` of src/mib.cpp, which
-- sends a report to it in parts.
pub mod Laws
pub mod Parts
pub mod Report
use rmond_drs.Base.{
  ℕ, suc, ◌+◌, ◌≡◌, Bool, true, false, not, ◌==◌, ltb, ◌&&◌, ◌||◌, eqb, if◌then◌else◌, List, [],
  ◌∷◌, ◌++◌, Option, none, some, Outcome, ok, fault, ◌>>=◌,
}
use rmond_drs.Oid.{Oid, IndexOrder}
use rmond_drs.Asn.{Netsnmp}
use rmond_drs.Container.{Memory}
use rmond_drs.Tuple.{Tuple}
use rmond_drs.Table.{Table, range}
use rmond_drs.SinkTable.{Sink, table_oid, schema, ticket}
use rmond_drs.MetrixTable.{Metrix}
use rmond_drs.Value.{Chain, cell_make, count}
use rmond_drs.Trap.{Externs, Agent, pdu}

abbrev pub int_max : ℕ
int_max = 2147483647

-- `0 < x` for a 32-bit pattern read as an int.
abbrev pub positive : ℕ → Bool
positive x = ltb 0 x && ltb x 2147483648

-- `Sink::Unit`: the session, if one is open, and the tuple, which is none for a null pointer.
pub record Session : Type 0 where
  pub session : Bool
  pub tuple : Option (Tuple Sink)

-- The constructor: `opened` is whether `snmp_sess_open` gives a session.
unfoldable pub open_unit : Bool → Option (Tuple Sink) → Session
open_unit opened none = record { session = false; tuple = none }
open_unit opened (some t) =
    if t.cells.port == 0
    then record { session = false; tuple = some t }
    else record { session = opened; tuple = some t }

-- `Unit::bad`.
abbrev pub bad : Session → Bool
bad u = not u.session

-- `Unit::limit`.
unfoldable pub limit : Option (Tuple Sink) → ℕ
limit none = 0
limit (some t) = if positive t.cells.limit then t.cells.limit else int_max

-- `std::set::insert`.
abbrev pub add_metric : Oid → List Oid → List Oid
add_metric x s = if count x s then s else x ∷ s

metrics_of : List (Tuple Metrix) → List Oid
metrics_of [] = []
metrics_of (y ∷ ys) = add_metric y.cells.metric (metrics_of ys)

-- `Unit::metrix`; the table is none once its weak pointer is dead.
unfoldable pub metrix :
    ⦃o : IndexOrder⦄ → Memory → Option (Table Metrix) → Option (Tuple Sink) → List Oid
unfolding metrics_of
metrix m none t = []
metrix m (some s) none = []
metrix m (some s) (some t) = metrics_of (range m t.key s)

-- What became of the chain given to `push`: the variables of the PDU that was sent, or what was
-- freed; `failed` is the answer.
pub record Push : Type 0 where
  pub failed : Bool
  pub sent : Option Chain
  pub freed : Chain

abbrev pub is_empty : List ℕ → Bool
is_empty [] = true
is_empty (x ∷ xs) = false

module _ ⦃n : Netsnmp⦄ where
  -- A sink with a ticket gets it in front of the report; `memory` is whether it can be allocated.
  unfoldable pub ticketed : Bool → Option (Tuple Sink) → Chain → Chain
  ticketed memory none list_ = list_
  ticketed memory (some t) list_ =
      if is_empty t.cells.ticket
      then list_
      else cell_make table_oid schema memory ticket (some t) ++ list_

  -- `accepted` is whether `snmp_sess_async_send` takes the PDU.
  pub send : Bool → Option Chain → Chain → Push
  send accepted none freed = record { failed = true; sent = none; freed = freed }
  send accepted (some u) freed =
      if accepted
      then record { failed = false; sent = some u; freed = freed }
      else record { failed = true; sent = none; freed = u ++ freed }

  -- `Unit::push`.
  unfoldable pub push : Externs → Agent → Bool → Bool → Session → Chain → Outcome Push
  unfolding send
  push x a memory accepted u list_ =
      let deliver = (do
        p ← pdu x a (ticketed memory u.tuple list_)
        ok (send accepted p.pdu p.freed)) in
      if u.session then deliver else ok (record { failed = true; sent = none; freed = list_ })

-- The loop of `Inform::push`: the chains that the providers made, in turn. `sofar` is the chain from
-- `a.next_variable`, and `i` counts the providers that it is from. The result is the chains that
-- are given to `Unit::push`, the last one after the loop.
unfoldable pub parts : ℕ → Chain → ℕ → List Chain → List Chain
parts n sofar i [] = sofar ∷ []
parts n sofar i ([] ∷ vs) = parts n sofar i vs
parts n sofar i ((v ∷ c) ∷ vs) =
    let more = parts n (sofar ++ v ∷ c) (i + 1) vs in
    let full = (sofar ++ v ∷ c) ∷ parts n [] 0 vs in if ltb (i + 1) n then more else full
