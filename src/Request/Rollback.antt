-- ===== src/Request/Rollback.antt =====
-- A SET that fails is undone: `reserve`, then perhaps `put`, then `rollback`.
use rmond_drs.Base.{
  ◌≡◌, ap, ◌==◌, Bool, true, false, none, some, ok, ◌>>=◌, arith, Option-cases, inl, inr,
}
use rmond_drs.Oid.{IndexOrder}
use rmond_drs.Asn.{Varbind, Netsnmp}
use rmond_drs.Tuple.{Tuple, Schema, Cell, write}
use rmond_drs.Tuple
use rmond_drs.Table.{Table, update}
use rmond_drs.Table.Rows.{mutate-mutate}
use rmond_drs.Table.Laws.{IsValid}
use rmond_drs.Request.{Request, Answer, row, reserve, put, rollback}
use rmond_drs.Request.Rows.{Lawful, lock-row, row-update}

module _ {R : Type 0} ⦃o : IndexOrder⦄ ⦃n : Netsnmp⦄ (s : Schema R) where
  -- A SET of one varbind that is reserved, put and rolled back; `memory` is whether the saved value can
  -- be allocated.
  abbrev pub undone : Bool → Table R → Request → Answer R
  undone memory t q = do (t1, q1) ← reserve s memory t q; (t2, q2) ← put s t1 q1; rollback s t2 q2

  module _ (Fits : R → Type 0) (law : Lawful Fits s) (t : Table R) (q : Request) (c : Cell)
      (r : Tuple R) (b : Varbind) (valid : IsValid t) (at : q.cell ≡ some c)
      (plain : (s.row_status == c.colnum) ≡ false) (own : row t q ≡ ok (some r))
      (fits : Fits r.cells) (old : Tuple.get s c.colnum r.cells ≡ some b) where
    reserve_column : reserve s true t q ≡ ok (t, record q { backup = some b })
    unfolding reserve
    reserve_column = ground arith

    put_column :
        put s t (record q { backup = some b })
        ≡ ok (update r.id (write s c.colnum q.requestvb) t, record q { backup = some b })
    unfolding put
    put_column = elim (Option-cases (Tuple.put s c.colnum q.requestvb r.cells)) [
      | inl e ↦ absurd (law.put_of_get c.colnum q.requestvb b r.cells old e)
      | inr (w, e) ↦ ground arith
    ]

    written : Table R
    written = update r.id (write s c.colnum q.requestvb) t

    written_back : update r.id (write s c.colnum b) written ≡ t
    unfolding written
    written_back =
        ap (λ x. record t { rows = x })
          (mutate-mutate r.id (write s c.colnum b) (write s c.colnum q.requestvb) t.rows r
            (lock-row t q r valid own) (law.write_back c.colnum q.requestvb b r.cells fits old))

    row-written :
        row written q ≡ ok (some (record r { cells = write s c.colnum q.requestvb r.cells }))
    unfolding written
    row-written = row-update t q r (write s c.colnum q.requestvb) valid own

    rollback_column :
        rollback s written (record q { backup = some b }) ≡ ok (t, record q { backup = none })
    unfolding rollback
    rollback_column = ground (arith, written_back, row-written)

    reserve_unsaved : reserve s false t q ≡ ok (t, q)
    unfolding reserve
    reserve_unsaved = ground arith

    put_unsaved : put s t q ≡ ok (written, q)
    unfolding put written
    put_unsaved = elim (Option-cases (Tuple.put s c.colnum q.requestvb r.cells)) [
      | inl e ↦ absurd (law.put_of_get c.colnum q.requestvb b r.cells old e)
      | inr (w, e) ↦ ground arith
    ]

    rollback_unsaved : q.backup ≡ none → rollback s written q ≡ ok (written, q)
    unfolding rollback
    rollback_unsaved e = ground (arith, row-written)

    -- A SET of a column other than ROW_STATUS that is put and then rolled back, in a row that the
    -- request has, whose values fit their columns and whose column can be read, under a lawful
    -- schema and in a valid table, where the request comes with no saved value. If the saved
    -- value can be allocated, the table is as it was, for it was written back, and none is left
    -- with the request. If it cannot, the row keeps what was put.
    pub undone_column :
        q.backup ≡ none
        → (undone true t q ≡ ok (t, record q { backup = none }))
          × (undone false t q ≡ ok (update r.id (write s c.colnum q.requestvb) t, q))
    undone_column e = (
      rw reserve_column (rw put_column (unfold written in rollback_column)),
      rw reserve_unsaved (rw put_unsaved (unfold written in rollback_unsaved e)),
    )
