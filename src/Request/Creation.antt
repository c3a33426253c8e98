-- ===== src/Request/Creation.antt =====
-- Creation of a row by a SET of its ROW_STATUS: the row between `reserve` and `commit`, and what is
-- left of it after a rollback.
use rmond_drs.Base.{
  ℕ, suc, ◌≡◌, refl, ap, ◌∙◌, ◌==◌, ==_iff, ◌||◌, true, false, Option, none, some, ok, arith, subst,
  List,
}
use rmond_drs.Oid.{IndexOrder, Oid}
use rmond_drs.Asn.{Netsnmp, put_integer}
use rmond_drs.Container.{add}
use rmond_drs.Container.Laws.{find-add, same_self}
use rmond_drs.Tuple.{Tuple, Schema, Cell, from_request}
use rmond_drs.Table.{Table, find, extract, erase, allocate}
use rmond_drs.Table.Edits.{drop-add}
use rmond_drs.Table.Laws.{insert-rows, erase-rows}
use rmond_drs.Request.{
  Request, inserted, row, row_at, row_by_cell, reserve, put, rollback, rs_createandgo,
  rs_createandwait, rs_notinservice,
}
use rmond_drs.Request.Rows.{Lawful}
use rmond_drs.Request.Rollback.{undone}

module _ {R : Type 0} ⦃o : IndexOrder⦄ where
  absent_at :
      (k : Option ℕ) (c : Cell) (t : Table R)
      → row_at k (some c) t ≡ ok none
      → (k ≡ none) × (find c.index_oid t ≡ none)
  unfolding row_at row_by_cell extract
  absent_at none c t e = ground arith
  absent_at (some i) c t e = ground arith

  -- A request without a row has no context, and its index has no row.
  pub absent :
      (t : Table R) (q : Request) (c : Cell)
      → q.cell ≡ some c
      → row t q ≡ ok none
      → (q.context ≡ none) × (find c.index_oid t ≡ none)
  unfolding row
  absent t q c at e = absent_at q.context c t (subst (λ x. row_at q.context x t ≡ ok none) at e)

  module _ ⦃n : Netsnmp⦄ (s : Schema R) where
    -- The row that `reserve` makes for a cell.
    abbrev pub made : Cell → Table R → Tuple R
    made c t =
        let r = from_request s t.fresh c in
        record r { cells = s.set_status rs_notinservice r.cells }

    abbrev pub with_made : Cell → Table R → Table R
    with_made c t = record { rows = add c.index_oid (made c t) t.rows; fresh = suc t.fresh }

    pub made_key :
        (c : Cell) (t : Table R) → ((made c t).key ≡ c.index_oid) × ((made c t).id ≡ t.fresh)
    unfolding from_request
    made_key c t = (refl, refl)

    module _ (t : Table R) (q : Request) (c : Cell) (at : q.cell ≡ some c)
        (status : (s.row_status == c.colnum) ≡ true) (missing : row t q ≡ ok none)
        (create : (put_integer q.requestvb == rs_createandgo
            || put_integer q.requestvb == rs_createandwait)
          ≡ true) where
      -- The new row is stored under the index, not in service.
      pub reserve_made : reserve s true t q ≡ ok (with_made c t, q)
      unfolding reserve allocate from_request
      reserve_made = ground (arith, insert-rows (made c t) (record t { fresh = suc t.fresh }))

      pub row-made : row (with_made c t) q ≡ ok (some (made c t))
      unfolding row row_at row_by_cell find extract
      row-made = ground (
        arith,
        (absent t q c at missing).0,
        (absent t q c at missing).1,
        find-add c.index_oid c.index_oid (made c t) t.rows,
        same_self c.index_oid,
      )

      pub put_made : put s (with_made c t) q ≡ ok (with_made c t, q)
      unfolding put
      put_made = ground (arith, row-made)

      pub found_made : find c.index_oid (with_made c t) ≡ some (made c t)
      unfolding find
      found_made = ground (
        arith,
        (absent t q c at missing).1,
        find-add c.index_oid c.index_oid (made c t) t.rows,
        same_self c.index_oid,
      )

      erase-made : erase (made c t) (with_made c t) ≡ (record t { fresh = suc t.fresh }, false)
      unfolding from_request
      erase-made =
          erase-rows (made c t) (made c t) (with_made c t) found_made
          ∙ ap (λ (x : List (Oid × Tuple R)). (record { rows = x; fresh = suc t.fresh }, false))
              (drop-add c.index_oid (made c t) t.rows (unfold find in (absent t q c at missing).1))

      pub inserted-made :
          (Fits : R → Type 0) → Lawful Fits s → inserted s (with_made c t) q ≡ ok (some (made c t))
      unfolding inserted
      inserted-made Fits law = ground (
        arith,
        row-made,
        ==_iff s.row_status c.colnum,
        ==_iff c.colnum s.row_status,
        law.status-set_status rs_notinservice (from_request s t.fresh c).cells,
      )

      rollback_made :
          (Fits : R → Type 0)
          → Lawful Fits s
          → q.backup ≡ none
          → rollback s (with_made c t) q ≡ ok (record t { fresh = suc t.fresh }, q)
      unfolding rollback
      rollback_made Fits law none_saved = ground (
        arith,
        erase-made,
        row-made,
        ==_iff s.row_status c.colnum,
        ==_iff c.colnum s.row_status,
        law.status-set_status rs_notinservice (from_request s t.fresh c).cells,
      )

      -- A creation by createAndGo or createAndWait at an index without a row that is then refused,
      -- under a lawful schema and without a saved value, leaves the rows as they were: the row that
      -- `reserve` stored is erased.
      pub undone_made :
          (Fits : R → Type 0)
          → Lawful Fits s
          → q.backup ≡ none
          → undone s true t q ≡ ok (record t { fresh = suc t.fresh }, q)
      undone_made Fits law none_saved =
          rw reserve_made (rw put_made (rollback_made Fits law none_saved))
