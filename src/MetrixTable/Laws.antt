-- ===== src/MetrixTable/Laws.antt =====
-- The metrix table satisfies the laws that the request handlers rely on.
use rmond_drs.Base.{ℕ, ◌<◌, ◌≡◌, ◌≢◌, refl, none, some, arith}
use rmond_drs.Asn.{Varbind, Netsnmp, int_mod}
use rmond_drs.Asn.Laws.{put_integer-get_integer, put_objid-get_objid}
use rmond_drs.Tuple
use rmond_drs.Request.Rows.{Lawful}
use rmond_drs.MetrixTable.{Metrix, schema}

-- The status fits an int.
pub record Fits (r : Metrix) : Type 0 where
  pub row_status : r.row_status < int_mod

module _ ⦃n : Netsnmp⦄ where
  write_back :
      (name : ℕ) (v b : Varbind) (r : Metrix)
      → Fits r
      → Tuple.get schema name r ≡ some b
      → Tuple.write schema name b (Tuple.write schema name v r) ≡ r
  unfolding Tuple.get Tuple.put schema
  write_back name v b r h e =
      ground
        (arith, put_integer-get_integer 2 r.row_status h.row_status, put_objid-get_objid r.metric)

  put_of_get :
      (name : ℕ) (v b : Varbind) (r : Metrix)
      → Tuple.get schema name r ≡ some b
      → Tuple.put schema name v r ≢ none
  unfolding Tuple.get Tuple.put schema
  put_of_get name v b r e = ground arith

  -- The beans of the metrix table satisfy the laws that the request handlers rely on, for rows whose
  -- status fits an int: a value that was read and is written back undoes any write, a column that
  -- can be read can be written, and ROW_STATUS keeps what is stored there.
  metrix-Lawful : Lawful Fits schema
  unfolding schema
  metrix-Lawful = record {
    write_back = write_back;
    put_of_get = put_of_get;
    status-set_status = λ x r. refl;
  }
