-- ===== src/MetrixTable.antt =====
-- The metrix table of src/sink.h and src/sink.cpp: the metrics that a sink asks for, one a row.
pub mod Laws
use rmond_drs.Base.{ℕ, [], ◌∷◌, none, some}
use rmond_drs.Oid.{Oid, uuid}
use rmond_drs.Asn.{Netsnmp, asn_integer, get_integer, put_integer, get_objid, put_objid}
use rmond_drs.Tuple.{Schema}

-- The beans of `Data<Metrix::TABLE>`.
pub record Metrix : Type 0 where
  pub metric : Oid
  pub row_status : ℕ

-- `enum TABLE`.
abbrev pub metric : ℕ
metric = 1

abbrev pub row_status : ℕ
row_status = 2

abbrev pub blank : Metrix
blank = record { metric = []; row_status = 0 }

-- `Schema<Metrix::TABLE>`: the index is a sink's host and port, and then the metric.
unfoldable pub schema : ⦃n : Netsnmp⦄ → Schema Metrix
schema = record {
  columns =
      record {
        name = metric;
        read = λ r. get_objid r.metric;
        write = λ v r. record r { metric = put_objid v };
      }
      ∷ record {
        name = row_status;
        read = λ r. get_integer asn_integer r.row_status;
        write = λ v r. record r { row_status = put_integer v };
      }
      ∷ [];
  index_type = none ∷ none ∷ some metric ∷ [];
  row_status = row_status;
  status = λ r. r.row_status;
  set_status = λ x r. record r { row_status = x };
  blank = blank;
}

-- `Schema<Metrix::TABLE>::uuid`.
unfoldable pub table_oid : Oid
unfolding uuid
table_oid = uuid 52
