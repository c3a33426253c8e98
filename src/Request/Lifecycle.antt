-- ===== src/Request/Lifecycle.antt =====
-- What `commit` makes of a row: creation, destruction, and the null pointer of a missing row.
use rmond_drs.Base.{
  ℕ, suc, ◌≡◌, ap, ◌==◌, ==_iff, ◌||◌, true, false, if◌then◌else◌, none, some, ok, fault, ◌>>=◌,
  arith, subst,
}
use rmond_drs.Oid.{IndexOrder, Oid}
use rmond_drs.Asn.{Netsnmp, put_integer}
use rmond_drs.Container.Laws.{same}
use rmond_drs.Tuple.{Tuple, Schema, Cell, from_request}
use rmond_drs.Table.{Table, find, erase, update, lock}
use rmond_drs.Table.Rows.{Below-Lacks, Below-suc}
use rmond_drs.Table.Laws.{
  IsValid, insert-IsValid, insert-rows, update-IsValid, erase-IsValid, erased, find-update,
}
use rmond_drs.Request.{
  Request, Answer, row, reserve, put, commit, rs_createandgo, rs_createandwait, rs_active,
  rs_notready, rs_destroy,
}
use rmond_drs.Request.Rows.{Lawful, find-row}
use rmond_drs.Request.Creation.{
  made, with_made, reserve_made, row-made, found_made, put_made, made_key,
}

module _ {R : Type 0} ⦃o : IndexOrder⦄ ⦃n : Netsnmp⦄ (s : Schema R) where
  pub with_made-IsValid : (c : Cell) (t : Table R) → IsValid t → IsValid (with_made s c t)
  unfolding from_request
  with_made-IsValid c t v =
      subst IsValid (ap (λ x. x.0) (insert-rows (made s c t) (record t { fresh = suc t.fresh }))) (
        insert-IsValid (made s c t) (record t { fresh = suc t.fresh })
          (record {
            sorted = v.sorted;
            keyed = v.keyed;
            distinct = v.distinct;
            below = Below-suc t.fresh t.rows v.below;
          })
          (omega arith) (Below-Lacks t.fresh t.rows v.below))

  -- The status that `commit` gives to a created row.
  abbrev pub committed : ℕ → ℕ
  committed v = if v == rs_createandgo then rs_active else rs_notready

  -- A SET of one varbind of which every phase succeeds.
  abbrev pub done : Table R → Request → Answer R
  done t q = do (t1, q1) ← reserve s true t q; (t2, q2) ← put s t1 q1; commit s t2 q2

  module _ (Fits : R → Type 0) (law : Lawful Fits s) (t : Table R) (q : Request) (c : Cell)
      (valid : IsValid t) (at : q.cell ≡ some c) (status : (s.row_status == c.colnum) ≡ true)
      (missing : row t q ≡ ok none)
      (create : (put_integer q.requestvb == rs_createandgo
          || put_integer q.requestvb == rs_createandwait)
        ≡ true) where
    abbrev pub born : Tuple R
    born = record (made s c t) {
      cells = s.set_status (committed (put_integer q.requestvb)) (made s c t).cells;
    }

    pub commit-made :
        commit s (with_made s c t) q
        ≡ ok (
          update
              (made s c t).id
              (s.set_status (committed (put_integer q.requestvb)))
              (with_made s c t),
          q,
        )
    unfolding commit
    commit-made = ground (
      arith,
      row-made s t q c at status missing create,
      ==_iff s.row_status c.colnum,
      ==_iff c.colnum s.row_status,
    )

    -- A SET of ROW_STATUS to createAndGo or createAndWait at an index without a row of a valid table,
    -- under a lawful schema, succeeds: the index then has a row of that index which is active, or not
    -- ready, and the table stays valid.
    pub done-create :
        (t' : Table R) × (r : Tuple R) × (done t q ≡ ok (t', q))
        × IsValid t'
        × (find c.index_oid t' ≡ some r)
        × (r.key ≡ c.index_oid)
        × (s.status r.cells ≡ committed (put_integer q.requestvb))
    done-create = (
      update (made s c t).id (s.set_status (committed (put_integer q.requestvb))) (with_made s c t),
      born,
      rw (reserve_made s t q c at status missing create)
          (rw (put_made s t q c at status missing create) commit-made),
      update-IsValid (made s c t).id _ (with_made s c t) (with_made-IsValid c t valid),
      find-update c.index_oid _ (with_made s c t) (made s c t) (with_made-IsValid c t valid)
          (found_made s t q c at status missing create),
      (made_key s c t).0,
      law.status-set_status _ _,
    )

  module _ (t : Table R) (q : Request) (c : Cell) (at : q.cell ≡ some c)
      (status : (s.row_status == c.colnum) ≡ true) where
    reserve_destroy :
        put_integer q.requestvb ≡ rs_destroy
        → (r : Tuple R) → row t q ≡ ok (some r)
        → reserve s true t q ≡ ok (t, q)
    unfolding reserve
    reserve_destroy value r own = ground arith

    put_status : (r : Tuple R) → row t q ≡ ok (some r) → put s t q ≡ ok (t, q)
    unfolding put
    put_status r own = ground arith

    commit_destroy :
        put_integer q.requestvb ≡ rs_destroy
        → (r : Tuple R) → row t q ≡ ok (some r)
        → commit s t q ≡ ok ((erase r t).0, q)
    unfolding commit
    commit_destroy value r own =
        ground (arith, ==_iff s.row_status c.colnum, ==_iff c.colnum s.row_status)

    -- A SET of ROW_STATUS to destroy, on a row of a valid table, takes out that row, for its index and
    -- for every weak pointer; the rows of other indices stay, and the table stays valid.
    pub done-destroy :
        (r : Tuple R) (k : Oid)
        → IsValid t
        → put_integer q.requestvb ≡ rs_destroy
        → row t q ≡ ok (some r)
        → (t' : Table R) × (done t q ≡ ok (t', q))
          × IsValid t'
          × (lock r.id t'.rows ≡ none)
          × (find k t' ≡ (if same k r.key then none else find k t))
    done-destroy r k v value own =
        let gone = erased r r t k 0 v (find-row t q r v own) in
        (
          (erase r t).0,
          rw reserved (rw (put_status r own) committed_gone),
          erase-IsValid r t v,
          gone.2,
          gone.1,
        )
      where
        reserved : reserve s true t q ≡ ok (t, q)
        reserved = reserve_destroy value r own

        committed_gone : commit s t q ≡ ok ((erase r t).0, q)
        committed_gone = commit_destroy value r own

    -- Where the request has no row, the commit of a ROW_STATUS that creates dereferences a null
    -- pointer; any other value does nothing.
    commit_missing :
        row t q ≡ ok none
        → commit s t q ≡ (
            if put_integer q.requestvb == rs_createandgo
              || put_integer q.requestvb == rs_createandwait
            then fault
            else ok (t, q))
    unfolding commit
    commit_missing missing =
        ground (arith, ==_iff s.row_status c.colnum, ==_iff c.colnum s.row_status)

  -- A varbind of another column, or without table info, is committed without any effect.
  commit_column :
      (t : Table R) (q : Request) (c : Cell)
      → q.cell ≡ some c
      → (c.colnum == s.row_status) ≡ false
      → commit s t q ≡ ok (t, q)
  unfolding commit
  commit_column t q c at plain = ground arith
