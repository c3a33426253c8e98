-- ===== src/Request/Rows.antt =====
-- The row of a request before and after a write through its pointer, and the laws of a schema that
-- the request handlers rely on.
use rmond_drs.Base.{ℕ, ◌≡◌, ◌≢◌, List, [], ◌∷◌, ==_iff, Option, none, some, ok, arith}
use rmond_drs.Oid.{Oid, IndexOrder}
use rmond_drs.Asn.{Varbind}
use rmond_drs.Tuple.{Tuple, Schema, Cell}
use rmond_drs.Tuple
use rmond_drs.Table.{Table, update, lock, find, extract}
use rmond_drs.Table.Laws.{IsValid}
use rmond_drs.Table.Rows.{lock-find, lock-mutate, find-mutate}
use rmond_drs.Table.Lookup.{find-lock}
use rmond_drs.Request.{Request, row, row_at, row_by_cell}

-- What holds of the beans of a schema, for rows with `Fits`: writing back a value that was read
-- undoes any write to that column, a column that can be read can be written, and ROW_STATUS keeps
-- what is written there.
pub record Lawful {R : Type 0} (Fits : R → Type 0) (s : Schema R) : Type 0 where
  pub write_back :
      (name : ℕ) (v b : Varbind) (r : R)
      → Fits r
      → Tuple.get s name r ≡ some b
      → Tuple.write s name b (Tuple.write s name v r) ≡ r
  pub put_of_get :
      (name : ℕ) (v b : Varbind) (r : R) → Tuple.get s name r ≡ some b → Tuple.put s name v r ≢ none
  pub status-set_status : (x : ℕ) (r : R) → s.status (s.set_status x r) ≡ x

module _ {R : Type 0} where
  pub lock_id : (i : ℕ) (s : List (Oid × Tuple R)) (r : Tuple R) → lock i s ≡ some r → r.id ≡ i
  unfolding lock
  lock_id i [] r e = ground arith
  lock_id i ((k, w) ∷ s) r e = ground (arith, lock_id i s r, (==_iff w.id i).0)

module _ {R : Type 0} ⦃o : IndexOrder⦄ where
  lock-row_at :
      (k : Option ℕ) (c : Option Cell) (t : Table R) (r : Tuple R)
      → IsValid t
      → row_at k c t ≡ ok (some r)
      → lock r.id t.rows ≡ some r
  unfolding row_at row_by_cell extract find
  lock-row_at none none t r v e = ground arith
  lock-row_at none (some c) t r v e = ground (arith, lock-find c.index_oid t.rows r v.distinct)
  lock-row_at (some i) c t r v e = ground (arith, lock_id i t.rows r)

  -- The row of a request is a tuple of the table.
  pub lock-row :
      (t : Table R) (q : Request) (r : Tuple R)
      → IsValid t
      → row t q ≡ ok (some r)
      → lock r.id t.rows ≡ some r
  unfolding row
  lock-row t q r v e = lock-row_at q.context q.cell t r v e

  row_at-update :
      (k : Option ℕ) (c : Option Cell) (t : Table R) (r : Tuple R) (f : R → R)
      → IsValid t
      → row_at k c t ≡ ok (some r)
      → row_at k c (update r.id f t) ≡ ok (some (record r { cells = f r.cells }))
  unfolding row_at row_by_cell extract find
  row_at-update none none t r f v e = ground arith
  row_at-update none (some c) t r f v e =
      ground (arith, find-mutate c.index_oid f t.rows r v.distinct)
  row_at-update (some i) c t r f v e = ground (arith, lock_id i t.rows r, lock-mutate i f t.rows r)

  -- After a write through the row's pointer the request still has that row, as written.
  pub row-update :
      (t : Table R) (q : Request) (r : Tuple R) (f : R → R)
      → IsValid t
      → row t q ≡ ok (some r)
      → row (update r.id f t) q ≡ ok (some (record r { cells = f r.cells }))
  unfolding row
  row-update t q r f v e = row_at-update q.context q.cell t r f v e

  -- The index of a request's row is the index under which the table has it.
  pub find-row :
      (t : Table R) (q : Request) (r : Tuple R)
      → IsValid t
      → row t q ≡ ok (some r)
      → find r.key t ≡ some r
  unfolding find
  find-row t q r v e = find-lock r.id t.rows r v.sorted v.keyed (lock-row t q r v e)
