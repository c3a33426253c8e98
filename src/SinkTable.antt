-- ===== src/SinkTable.antt =====
-- The sink table of src/sink.h and src/sink.cpp: columns, index and OID.
pub mod Laws
use rmond_drs.Base.{ℕ, List, [], ◌∷◌, some}
use rmond_drs.Oid.{Oid, uuid}
use rmond_drs.Asn.{Varbind, Netsnmp, asn_integer, get_integer, put_integer, get_string, put_string}
use rmond_drs.Tuple.{Column, Schema}

-- The beans of `Data<Sink::TABLE>`; numbers are 32-bit patterns, and strings are bytes.
pub record Sink : Type 0 where
  pub host : List ℕ
  pub port : ℕ
  pub period : ℕ
  pub limit : ℕ
  pub acks : ℕ
  pub ticket : List ℕ
  pub row_status : ℕ

-- `enum TABLE`.
abbrev pub host : ℕ
host = 1

abbrev pub port : ℕ
port = 2

abbrev pub period : ℕ
period = 3

abbrev pub limit : ℕ
limit = 4

abbrev pub acks : ℕ
acks = 5

abbrev pub row_status : ℕ
row_status = 6

abbrev pub ticket : ℕ
ticket = 7

abbrev pub blank : Sink
blank = record { host = []; port = 0; period = 0; limit = 0; acks = 0; ticket = []; row_status = 0 }

-- `Schema<Sink::TABLE>`: the declarations in their order, and the index.
unfoldable pub schema : ⦃n : Netsnmp⦄ → Schema Sink
schema = record {
  columns =
      record {
        name = host;
        read = λ r. get_string r.host;
        write = λ v r. record r { host = put_string v };
      }
      ∷ record {
        name = port;
        read = λ r. get_integer asn_integer r.port;
        write = λ v r. record r { port = put_integer v };
      }
      ∷ record {
        name = period;
        read = λ r. get_integer asn_integer r.period;
        write = λ v r. record r { period = put_integer v };
      }
      ∷ record {
        name = limit;
        read = λ r. get_integer asn_integer r.limit;
        write = λ v r. record r { limit = put_integer v };
      }
      ∷ record {
        name = acks;
        read = λ r. get_integer asn_integer r.acks;
        write = λ v r. record r { acks = put_integer v };
      }
      ∷ record {
        name = ticket;
        read = λ r. get_string r.ticket;
        write = λ v r. record r { ticket = put_string v };
      }
      ∷ record {
        name = row_status;
        read = λ r. get_integer asn_integer r.row_status;
        write = λ v r. record r { row_status = put_integer v };
      }
      ∷ [];
  index_type = some host ∷ some port ∷ [];
  row_status = row_status;
  status = λ r. r.row_status;
  set_status = λ x r. record r { row_status = x };
  blank = blank;
}

-- `Schema<Sink::TABLE>::uuid`.
unfoldable pub table_oid : Oid
unfolding uuid
table_oid = uuid 51
