-- ===== src/Examples.antt =====
-- Concrete instances and data: an order of indices, a net-snmp, memory without failures, rows and
-- tables.
pub mod Containers
pub mod Requests
pub mod Scheduling
pub mod Reports
pub mod Reaper
pub mod Host
pub mod Cpus
pub mod Ves
pub mod Guests
pub mod Servers
use Prim.Native.Nat.{Ordering}
use rmond_drs.Base.{
  ℕ, ◌+◌, ◌*◌, ◌^◌, ◌%◌, ◌<◌, ◌≡◌, refl, true, List, [], ◌∷◌, Option, none, some, arith,
}
use rmond_drs.Oid.{Oid, IndexOrder, lex, lex_eq_iff, lex_flip, lex_trans}
use rmond_drs.Asn.{
  Buffer, word, counter, octets, objid, null, Netsnmp, int_mod, Varbind, get_integer,
}
use rmond_drs.Container.{Memory}
use rmond_drs.Tuple.{Tuple, Cell}
use rmond_drs.Table.{Table}
use rmond_drs.SinkTable.{Sink}
use rmond_drs.MetrixTable.{Metrix}
use rmond_drs.Request.{Request}

instance pub lex_order : IndexOrder
lex_order = record {
  compare = lex;
  compare_eq_iff = lex_eq_iff;
  compare_flip = lex_flip;
  compare_trans = lex_trans;
}

-- A big-endian host.
abbrev long_of : Buffer → ℕ
long_of (word x) = x
long_of _ = 0

abbrev pair_of : Buffer → ℕ × ℕ
pair_of (counter high low) = (high, low)
pair_of _ = (0, 0)

abbrev octets_of : Buffer → List ℕ
octets_of (octets s) = s
octets_of _ = []

abbrev objid_of : Buffer → Oid
objid_of (objid u) = u
objid_of _ = []

instance pub big_endian : Netsnmp
big_endian = record {
  val_integer = long_of;
  val_counter64 = pair_of;
  val_string = octets_of;
  val_objid = objid_of;
  htonl = λ x. x % int_mod;
  ntohl = λ x. x % int_mod;
  val_integer_word = λ x h. omega (arith, h);
  val_counter64_lem = λ high low. refl;
  val_string_lem = λ s. refl;
  val_objid_lem = λ u. refl;
  val_objid_null = refl;
  htonl-lt = λ x. omega arith;
  ntohl-htonl = λ x h. omega (arith, h);
}

abbrev pub memory : Memory
memory = record { header = true; array = true }

-- Two sinks, of which the first has two reports to come and the second none.
abbrev pub first_sink : Tuple Sink
first_sink = record {
  id = 0;
  key = 1 ∷ 9 ∷ [];
  cells = record {
    host = 49 ∷ [];
    port = 162;
    period = 60;
    limit = 2;
    acks = 2;
    ticket = 55 ∷ [];
    row_status = 1;
  };
}

abbrev pub second_sink : Tuple Sink
second_sink = record {
  id = 1;
  key = 2 ∷ 9 ∷ [];
  cells = record {
    host = 50 ∷ [];
    port = 162;
    period = 30;
    limit = 0;
    acks = 0;
    ticket = [];
    row_status = 1;
  };
}

abbrev pub two_sinks : Table Sink
two_sinks = record { rows = (1 ∷ 9 ∷ [], first_sink) ∷ (2 ∷ 9 ∷ [], second_sink) ∷ []; fresh = 2 }

-- A metric of the second sink.
abbrev pub only_metric : Tuple Metrix
only_metric = record {
  id = 0;
  key = 2 ∷ 9 ∷ 7 ∷ [];
  cells = record { metric = 7 ∷ []; row_status = 1 };
}

abbrev pub one_metric : Table Metrix
one_metric = record { rows = (2 ∷ 9 ∷ 7 ∷ [], only_metric) ∷ []; fresh = 1 }

-- A varbind of a SET, for a column of a row.
abbrev pub request_for : ℕ → Oid → ℕ → Request
request_for column index value = record {
  context = none;
  cell = some (record { colnum = column; index_oid = index; indexes = [] });
  requestvb = get_integer 2 value;
  backup = none;
  status = 0;
  processed = 0;
  set_error = λ code v. record { status = code; processed = 1; requestvb = v };
}
