-- ===== src/Examples/Requests.antt =====
-- Requests on the sink table at concrete inputs.
use rmond_drs.Base.{ℕ, ◌≡◌, refl, true, false, if◌then◌else◌, [], ◌∷◌, none, some, ok, arith}
use rmond_drs.Oid.{Oid, less, lex}
use rmond_drs.Asn.{get_integer, put_integer}
use rmond_drs.Container
use rmond_drs.Container.Laws.{same}
use rmond_drs.Tuple.{Tuple, Cell, write}
use rmond_drs.Tuple
use rmond_drs.Table.{Table, find, lock, extract, update}
use rmond_drs.Table.Laws.{IsValid}
use rmond_drs.SinkTable.{Sink, schema}
use rmond_drs.SinkTable.Laws.{Fits, sink-Lawful}
use rmond_drs.Request.{Request, row, row_at, row_by_cell}
use rmond_drs.Request.Rollback.{undone, undone_column}
use rmond_drs.Request.Creation.{undone_made}
use rmond_drs.Request.Lifecycle.{done, committed, done-create, done-destroy}
use rmond_drs.Sinks.{World}
use rmond_drs.Sinks.Registration.{enlist, enlist_lem}
use rmond_drs.Examples.{one_metric, lex_order, big_endian, second_sink, two_sinks, request_for}
use rmond_drs.Examples.Containers.{two_sinks-IsValid}

abbrev cell_of : ℕ → Oid → Cell
cell_of column index = record { colnum = column; index_oid = index; indexes = [] }

-- A SET of the second sink's port.
abbrev set_port : Request
set_port = request_for 2 (2 ∷ 9 ∷ []) 80

-- A SET of ROW_STATUS at an index, in use or free.
abbrev set_status : Oid → ℕ → Request
set_status index value = request_for 6 index value

row_second :
    (column value : ℕ)
    → row two_sinks (request_for column (2 ∷ 9 ∷ []) value) ≡ ok (some second_sink)
unfolding row row_at row_by_cell extract find Container.find less lex lex_order
row_second column value = refl

row_third : (column value : ℕ) → row two_sinks (request_for column (3 ∷ 9 ∷ []) value) ≡ ok none
unfolding row row_at row_by_cell extract find Container.find less lex lex_order
row_third column value = refl

second_sink-Fits : Fits second_sink.cells
second_sink-Fits = record {
  port = omega arith;
  period = omega arith;
  limit = omega arith;
  acks = omega arith;
  row_status = omega arith;
}

read_port : Tuple.get schema 2 second_sink.cells ≡ some (get_integer 2 162)
unfolding Tuple.get schema
read_port = refl

undone_column_example :
    (undone schema true two_sinks set_port ≡ ok (two_sinks, record set_port { backup = none }))
    × (undone schema false two_sinks set_port
        ≡ ok (update second_sink.id (write schema 2 set_port.requestvb) two_sinks, set_port))
unfolding schema
undone_column_example =
    undone_column schema Fits sink-Lawful two_sinks set_port (cell_of 2 (2 ∷ 9 ∷ [])) second_sink
      (get_integer 2 162) two_sinks-IsValid refl refl (row_second 2 80) second_sink-Fits read_port
      refl

abbrev third : Oid
third = 3 ∷ 9 ∷ []

undone_made_example :
    undone schema true two_sinks (set_status third 4)
    ≡ ok (record two_sinks { fresh = 3 }, set_status third 4)
unfolding schema put_integer get_integer big_endian
undone_made_example =
    undone_made schema two_sinks (set_status third 4) (cell_of 6 third) refl refl (row_third 6 4)
      refl Fits sink-Lawful refl

done-create_example :
    (t : Table Sink) × (r : Tuple Sink) × (done schema two_sinks (set_status third 4)
      ≡ ok (t, set_status third 4))
    × IsValid t
    × (find third t ≡ some r)
    × (r.key ≡ third)
    × (r.cells.row_status ≡ committed schema (put_integer (get_integer 2 4)))
unfolding schema put_integer get_integer big_endian
done-create_example =
    done-create schema Fits sink-Lawful two_sinks (set_status third 4) (cell_of 6 third)
      two_sinks-IsValid refl refl (row_third 6 4) refl

done-destroy_example :
    (t : Table Sink) × (done schema two_sinks (set_status (2 ∷ 9 ∷ []) 6)
      ≡ ok (t, set_status (2 ∷ 9 ∷ []) 6))
    × IsValid t
    × (lock 1 t.rows ≡ none)
    × (find (1 ∷ 9 ∷ []) t
        ≡ (if same (1 ∷ 9 ∷ []) (2 ∷ 9 ∷ []) then none else find (1 ∷ 9 ∷ []) two_sinks))
unfolding schema put_integer get_integer big_endian
done-destroy_example =
    done-destroy schema two_sinks (set_status (2 ∷ 9 ∷ []) 6) (cell_of 6 (2 ∷ 9 ∷ [])) refl refl
      second_sink (1 ∷ 9 ∷ []) two_sinks-IsValid refl (row_second 6 6)

-- No sink is tracked yet, and no job is scheduled.
abbrev quiet : World
quiet = record {
  sinks = two_sinks;
  metrix = one_metric;
  tracked = [];
  informed = [];
  scheduled = [];
}

enlist_lem_example :
    (v : World) × (r : Tuple Sink) × (enlist true false quiet (set_status third 4)
      ≡ ok (v, set_status third 4))
    × IsValid v.sinks
    × (find third v.sinks ≡ some r)
    × (r.cells.row_status ≡ committed schema (put_integer (get_integer 2 4)))
    × (v.tracked ≡ r.id ∷ [])
    × (v.scheduled ≡ (r.cells.period, r.id) ∷ [])
unfolding schema put_integer get_integer big_endian
enlist_lem_example =
    enlist_lem quiet (set_status third 4) (cell_of 6 third) two_sinks-IsValid refl refl
      (row_third 6 4) refl true false
