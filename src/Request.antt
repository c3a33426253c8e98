-- ===== src/Request.antt =====
-- `Table::Request::Unit` of src/handler.h and `Request::Details` of src/details.cpp: what a handler
-- does with one varbind of a request, on the table that it is registered for.
pub mod Rows
pub mod Rollback
pub mod Creation
pub mod Lifecycle
use rmond_drs.Base.{
  ℕ, ◌≡◌, Bool, true, false, ◌==◌, ◌||◌, if◌then◌else◌, Option, none, some, Outcome, ok, fault,
  ◌>>=◌,
}
use rmond_drs.Oid.{IndexOrder}
use rmond_drs.Asn.{Varbind, Netsnmp, null, put_integer}
use rmond_drs.Tuple.{Tuple, Schema, Cell, write}
use rmond_drs.Tuple
use rmond_drs.Table.{Table, update, extract, find, insert, erase, allocate}

-- What `netsnmp_request_set_error` leaves in a request: the error, the mark, and the varbind.
pub record Refusal : Type 0 where
  pub status : ℕ
  pub processed : ℕ
  pub requestvb : Varbind

-- `netsnmp_request_info`: the row that the container's handler left, the table info, the varbind, the
-- saved value under "RmondMIB:backup", the error that was set (0 is none), and the mark of a request
-- that has been dealt with. `set_error` is what net-snmp makes of a code and the varbind, in the mode
-- of the request.
pub record Request : Type 0 where
  pub context : Option ℕ
  pub cell : Option Cell
  pub requestvb : Varbind
  pub backup : Option Varbind
  pub status : ℕ
  pub processed : ℕ
  pub set_error : ℕ → Varbind → Refusal

-- RowStatus values of the SNMPv2 textual conventions.
abbrev pub rs_active : ℕ
rs_active = 1

abbrev pub rs_notinservice : ℕ
rs_notinservice = 2

abbrev pub rs_notready : ℕ
rs_notready = 3

abbrev pub rs_createandgo : ℕ
rs_createandgo = 4

abbrev pub rs_createandwait : ℕ
rs_createandwait = 5

abbrev pub rs_destroy : ℕ
rs_destroy = 6

abbrev pub snmp_nosuchobject : ℕ
snmp_nosuchobject = 128

abbrev pub snmp_err_generr : ℕ
snmp_err_generr = 5

abbrev pub snmp_err_wrongvalue : ℕ
snmp_err_wrongvalue = 10

abbrev pub snmp_err_inconsistentvalue : ℕ
snmp_err_inconsistentvalue = 12

-- `Details::cannot`.
abbrev pub cannot : ℕ → Request → Request
cannot code q =
    let refusal = q.set_error code q.requestvb in
    record q {
      status = refusal.status;
      processed = refusal.processed;
      requestvb = refusal.requestvb;
    }

-- `cannotInsert` and `cannotExtract`: the error code is stored as the type of the varbind.
abbrev pub spoil : Request → Request
spoil q = record q { requestvb = record { asn = snmp_err_generr; value = null } }

abbrev pub Answer : Type 0 → Type 0
Answer R = Outcome (Table R × Request)

module _ {R : Type 0} ⦃o : IndexOrder⦄ where
  unfoldable pub row_by_cell : Option (Tuple R) → Option Cell → Table R → Option (Tuple R)
  row_by_cell (some r) c t = some r
  row_by_cell none none t = none
  row_by_cell none (some c) t = find c.index_oid t

  -- `Unit::row`.
  unfoldable pub row_at : Option ℕ → Option Cell → Table R → Outcome (Option (Tuple R))
  unfolding row_by_cell
  row_at k c t = do r ← extract k t; ok (row_by_cell r c t)

  unfoldable pub row : Table R → Request → Outcome (Option (Tuple R))
  unfolding row_at
  row t q = row_at q.context q.cell t

  module _ ⦃n : Netsnmp⦄ (s : Schema R) where
    abbrev pub in_service : Tuple R → Option (Tuple R)
    in_service r = if s.status r.cells == rs_notinservice then some r else none

    inserted_row : Option (Tuple R) → Option (Tuple R)
    inserted_row none = none
    inserted_row (some r) = in_service r

    inserted_cell : Option Cell → Table R → Request → Outcome (Option (Tuple R))
    unfolding inserted_row row
    inserted_cell none t q = ok none
    inserted_cell (some c) t q =
        if c.colnum == s.row_status then (do r ← row t q; ok (inserted_row r)) else ok none

    -- `Unit::inserted`.
    unfoldable pub inserted : Table R → Request → Outcome (Option (Tuple R))
    unfolding inserted_cell
    inserted t q = inserted_cell q.cell t q

    get_row : Option (Tuple R) → Option Cell → Request → Request
    get_row none c q = spoil q
    get_row (some r) none q = spoil q
    get_row (some r) (some c) q = elim (Tuple.get s c.colnum r.cells) [
      | none ↦ cannot snmp_nosuchobject q
      | some v ↦ record q { requestvb = v }
    ]

    -- `Unit::get`.
    unfoldable pub get : Table R → Request → Answer R
    unfolding get_row row
    get t q = do r ← row t q; ok (t, get_row r q.cell q)

    put_row : Option (Tuple R) → Option Cell → Table R → Request → Table R × Request
    put_row none c t q = (t, spoil q)
    put_row (some r) none t q = (t, spoil q)
    put_row (some r) (some c) t q =
        if s.row_status == c.colnum
        then (t, q)
        else (elim (Tuple.put s c.colnum q.requestvb r.cells) [
          | none ↦ (t, cannot snmp_nosuchobject q)
          | some _ ↦ (update r.id (write s c.colnum q.requestvb) t, q)
        ])

    -- `Unit::put`.
    unfoldable pub put : Table R → Request → Answer R
    unfolding put_row row
    put t q = do r ← row t q; ok (put_row r q.cell t q)

    -- The value of a column is saved for a rollback; `memory` is whether the allocation succeeds.
    save_column : Bool → Option (Tuple R) → Cell → Request → Request
    save_column memory none c q = q
    save_column memory (some r) c q =
        if memory
        then (elim (Tuple.get s c.colnum r.cells) [
          | none ↦ cannot snmp_nosuchobject q
          | some v ↦ record q { backup = some v }
        ])
        else q

    create_row : Option (Tuple R) → Cell → Table R → Request → Table R × Request
    create_row (some r) c t q =
        if s.status r.cells == rs_active then (t, q) else (t, cannot snmp_err_inconsistentvalue q)
    create_row none c t q =
        let (r, t1) = allocate s c t in
        let (t2, failed) = insert (record r { cells = s.set_status rs_notinservice r.cells }) t1 in
        if failed then (t2, spoil q) else (t2, q)

    -- The `switch` of `reserve`.
    reserve_status : ℕ → Option (Tuple R) → Cell → Table R → Request → Table R × Request
    unfolding create_row
    reserve_status v r c t q =
        if v == rs_createandgo || v == rs_createandwait
        then create_row r c t q
        else if v == rs_destroy
        then (t, q)
        else (t, cannot snmp_err_wrongvalue q)

    reserve_cell : Bool → Option Cell → Table R → Request → Answer R
    unfolding save_column reserve_status row
    reserve_cell memory none t q = ok (t, spoil q)
    reserve_cell memory (some c) t q = do
      r ← row t q
      ok (
          if s.row_status == c.colnum
          then reserve_status (put_integer q.requestvb) r c t q
          else (t, save_column memory r c q))

    -- `Unit::reserve`.
    unfoldable pub reserve : Bool → Table R → Request → Answer R
    unfolding reserve_cell
    reserve memory t q = reserve_cell memory q.cell t q

    -- A write through the row's pointer, which must not be null.
    store_status : ℕ → Option (Tuple R) → Table R → Request → Answer R
    store_status v none t q = fault
    store_status v (some r) t q = ok (update r.id (s.set_status v) t, q)

    destroy_row : Option (Tuple R) → Table R → Request → Answer R
    destroy_row none t q = ok (t, q)
    destroy_row (some r) t q = ok ((erase r t).0, q)

    -- The `switch` of `commit`; other values do nothing.
    commit_status : ℕ → Option (Tuple R) → Table R → Request → Answer R
    unfolding store_status destroy_row
    commit_status v r t q =
        if v == rs_createandgo
        then store_status rs_active r t q
        else if v == rs_createandwait
        then store_status rs_notready r t q
        else if v == rs_destroy
        then destroy_row r t q
        else ok (t, q)

    commit_cell : Option Cell → Table R → Request → Answer R
    unfolding commit_status row
    commit_cell none t q = ok (t, q)
    commit_cell (some c) t q =
        if c.colnum == s.row_status
        then (do r ← row t q; commit_status (put_integer q.requestvb) r t q)
        else ok (t, q)

    -- `Unit::commit`.
    unfoldable pub commit : Table R → Request → Answer R
    unfolding commit_cell
    commit t q = commit_cell q.cell t q

    -- The saved value is taken out of the request and written back.
    restore : Option Varbind → Option Cell → Tuple R → Table R → Request → Answer R
    restore none c r t q = ok (t, q)
    restore (some b) none r t q = fault
    restore (some b) (some c) r t q =
        ok (update r.id (write s c.colnum b) t, record q { backup = none })

    restore_row : Option (Tuple R) → Table R → Request → Answer R
    unfolding restore
    restore_row none t q = ok (t, q)
    restore_row (some r) t q = restore q.backup q.cell r t q

    -- `Unit::rollback`.
    unfoldable pub rollback : Table R → Request → Answer R
    unfolding restore_row inserted destroy_row row
    rollback t q = do
      r ← row t q
      (t1, q1) ← restore_row r t q
      i ← inserted t1 q1
      destroy_row i t1 q1
