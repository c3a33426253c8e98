-- ===== src/SinkTable/Laws.antt =====
-- The sink table satisfies the laws that the request handlers rely on.
use rmond_drs.Base.{ℕ, ◌<◌, ◌≡◌, ◌≢◌, refl, none, some, arith}
use rmond_drs.Asn.{Varbind, Netsnmp, int_mod}
use rmond_drs.Asn.Laws.{put_integer-get_integer, put_string-get_string}
use rmond_drs.Tuple
use rmond_drs.Request.Rows.{Lawful}
use rmond_drs.SinkTable.{Sink, schema}

-- Every number fits an int.
pub record Fits (r : Sink) : Type 0 where
  pub port : r.port < int_mod
  pub period : r.period < int_mod
  pub limit : r.limit < int_mod
  pub acks : r.acks < int_mod
  pub row_status : r.row_status < int_mod

module _ ⦃n : Netsnmp⦄ where
  write_back :
      (name : ℕ) (v b : Varbind) (r : Sink)
      → Fits r
      → Tuple.get schema name r ≡ some b
      → Tuple.write schema name b (Tuple.write schema name v r) ≡ r
  unfolding Tuple.get Tuple.put schema
  write_back name v b r h e = ground (
    arith,
    put_integer-get_integer 2 r.port h.port,
    put_integer-get_integer 2 r.period h.period,
    put_integer-get_integer 2 r.limit h.limit,
    put_integer-get_integer 2 r.acks h.acks,
    put_integer-get_integer 2 r.row_status h.row_status,
    put_string-get_string r.host,
    put_string-get_string r.ticket,
  )

  put_of_get :
      (name : ℕ) (v b : Varbind) (r : Sink)
      → Tuple.get schema name r ≡ some b
      → Tuple.put schema name v r ≢ none
  unfolding Tuple.get Tuple.put schema
  put_of_get name v b r e = ground arith

  -- The beans of the sink table satisfy the laws that the request handlers rely on, for rows whose
  -- numbers fit an int: a value that was read and is written back undoes any write, a column that
  -- can be read can be written, and ROW_STATUS keeps what is stored there.
  pub sink-Lawful : Lawful Fits schema
  unfolding schema
  sink-Lawful = record {
    write_back = write_back;
    put_of_get = put_of_get;
    status-set_status = λ x r. refl;
  }
