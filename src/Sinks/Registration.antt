-- ===== src/Sinks/Registration.antt =====
-- How a sink comes to be known to the scheduler and the reaper.
use rmond_drs.Base.{
  arith, ◌≡◌, refl, ◌==◌, ◌||◌, Bool, true, if◌then◌else◌, [], ◌∷◌, ◌++◌, none, some, Outcome, ok,
  ◌>>=◌,
}
use rmond_drs.Oid.{IndexOrder}
use rmond_drs.Asn.{Netsnmp, put_integer}
use rmond_drs.Tuple.{Tuple, Cell}
use rmond_drs.Table.{find, update}
use rmond_drs.Table.Laws.{IsValid, update-IsValid, find-update}
use rmond_drs.SinkTable.{Sink, schema}
use rmond_drs.SinkTable.Laws.{Fits, sink-Lawful}
use rmond_drs.Request.{Request, row, reserve, put, rs_createandgo, rs_createandwait}
use rmond_drs.Request.Creation.{made, with_made, reserve_made, put_made, found_made, inserted-made}
use rmond_drs.Request.Lifecycle.{committed, commit-made, born, with_made-IsValid}
use rmond_drs.Sinks.{World, announce, schedule, track, actor_commit}

tracked-announce :
    (reaper refused : Bool) (i : Tuple Sink) (w : World)
    → (announce reaper refused (some i) w).tracked
      ≡ (if reaper then w.tracked ++ i.id ∷ [] else w.tracked)
unfolding announce track schedule
tracked-announce reaper refused i w = ground arith

scheduled-announce :
    (reaper refused : Bool) (i : Tuple Sink) (w : World)
    → (announce reaper refused (some i) w).scheduled
      ≡ (if refused then w.scheduled else (i.cells.period, i.id) ∷ w.scheduled)
unfolding announce track schedule
scheduled-announce reaper refused i w = ground arith

module _ ⦃o : IndexOrder⦄ ⦃n : Netsnmp⦄ where
  -- The phases of a SET on the sink table of which none fails, with the actor's commit.
  abbrev pub enlist : Bool → Bool → World → Request → Outcome (World × Request)
  enlist reaper refused w q = do
    (t1, q1) ← reserve schema true w.sinks q
    (t2, q2) ← put schema t1 q1
    actor_commit reaper refused (record w { sinks = t2 }) q2

  module _ (w : World) (q : Request) (c : Cell) (valid : IsValid w.sinks) (at : q.cell ≡ some c)
      (status : (schema.row_status == c.colnum) ≡ true) (missing : row w.sinks q ≡ ok none)
      (create : (put_integer q.requestvb == rs_createandgo
          || put_integer q.requestvb == rs_createandwait)
        ≡ true) where
    abbrev after : Bool → Bool → World
    after reaper refused =
        let v =
          announce reaper refused (some (made schema c w.sinks))
            (record w { sinks = with_made schema c w.sinks }) in
        record v {
          sinks =
              update (made schema c w.sinks).id
                (schema.set_status (committed schema (put_integer q.requestvb)))
                (with_made schema c w.sinks);
        }

    sinks-announce :
        (reaper refused : Bool)
        → (announce reaper refused
            (some (made schema c w.sinks))
            (record w { sinks = with_made schema c w.sinks })).sinks
          ≡ with_made schema c w.sinks
    unfolding announce track schedule
    sinks-announce reaper refused = ground arith

    enlist-after :
        (reaper refused : Bool) → enlist reaper refused w q ≡ ok (after reaper refused, q)
    unfolding actor_commit announce track schedule
    enlist-after reaper refused = rw (reserve_made schema w.sinks q c at status missing create) (
        rw (put_made schema w.sinks q c at status missing create) (
          rw (inserted-made schema w.sinks q c at status missing create Fits sink-Lawful) (
            rw (sinks-announce reaper refused) (
              rw (commit-made schema Fits sink-Lawful w.sinks q c valid at status missing create)
                refl))))

    -- A SET of ROW_STATUS to createAndGo or createAndWait at an index without a row of a valid
    -- sink table makes a sink of that index, which the reaper tracks last, if there is one, and
    -- whose job is scheduled for its period unless the scheduler refuses it; the other sinks that
    -- are tracked and the other jobs stay.
    pub enlist_lem :
        (reaper refused : Bool)
        → (v : World) × (r : Tuple Sink) × (enlist reaper refused w q ≡ ok (v, q))
          × IsValid v.sinks
          × (find c.index_oid v.sinks ≡ some r)
          × (r.cells.row_status ≡ committed schema (put_integer q.requestvb))
          × (v.tracked ≡ (if reaper then w.tracked ++ r.id ∷ [] else w.tracked))
          × (v.scheduled ≡ (if refused then w.scheduled else (r.cells.period, r.id) ∷ w.scheduled))
    unfolding schema announce schedule
    enlist_lem reaper refused = (
      after reaper refused,
      born schema Fits sink-Lawful w.sinks q c valid at status missing create,
      enlist-after reaper refused,
      update-IsValid (made schema c w.sinks).id _ (with_made schema c w.sinks)
          (with_made-IsValid schema c w.sinks valid),
      find-update c.index_oid _ (with_made schema c w.sinks) (made schema c w.sinks)
          (with_made-IsValid schema c w.sinks valid)
          (found_made schema w.sinks q c at status missing create),
      refl,
      tracked-announce reaper refused (made schema c w.sinks)
          (record w { sinks = with_made schema c w.sinks }),
      scheduled-announce reaper refused (made schema c w.sinks)
          (record w { sinks = with_made schema c w.sinks }),
    )
