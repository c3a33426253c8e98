-- ===== src/Sinks.antt =====
-- The life of a sink in src/sink.cpp: `Actor::commit` announces it, `Inform` reports to it until its
-- acks are used up, and `Reaper` erases it. Tuples are held by the sink table alone between calls.
pub mod Countdown
pub mod Reaping
pub mod Orphans
pub mod Registration
use rmond_drs.Base.{
  ℕ, ◌+◌, ◌-◌, ◌%◌, Bool, true, false, ◌==◌, if◌then◌else◌, List, [], ◌∷◌, ◌++◌, Option, none, some,
  Outcome, ok, ◌>>=◌,
}
use rmond_drs.Oid.{IndexOrder}
use rmond_drs.Asn.{Netsnmp, int_mod}
use rmond_drs.Container.{Memory}
use rmond_drs.Tuple.{Tuple}
use rmond_drs.Table.{Table, lock, update, range, erase}
use rmond_drs.SinkTable.{Sink, schema}
use rmond_drs.MetrixTable.{Metrix}
use rmond_drs.Request.{Request, inserted, commit}
use rmond_drs.Session.{positive}

-- The two tables, the reaper's list, the reports that were made, each for a sink and the last one
-- first, and the jobs `Inform` that were scheduled: the delay in seconds, and the sink.
pub record World : Type 0 where
  pub sinks : Table Sink
  pub metrix : Table Metrix
  pub tracked : List ℕ
  pub informed : List ℕ
  pub scheduled : List (ℕ × ℕ)

-- `t->put<ACKS>(a - 1)`, in unsigned arithmetic.
abbrev pub decrement : ℕ → ℕ
decrement a = (a + int_mod - 1) % int_mod

-- `Central::schedule`, whose failure is ignored here: `refused` is what it answers.
unfoldable pub schedule : Bool → ℕ × ℕ → World → World
schedule refused job w = if refused then w else record w { scheduled = job ∷ w.scheduled }

inform_sink : Bool → Option (Tuple Sink) → World → World
unfolding schedule
inform_sink refused none w = w
inform_sink refused (some t) w =
    if t.cells.acks == 0
    then w
    else schedule refused (t.cells.period, t.id)
        (record w {
          sinks = update t.id (λ c. record c { acks = decrement t.cells.acks }) w.sinks;
          informed = t.id ∷ w.informed;
        })

-- `Inform::operator()`; the report itself is `Inform::push`.
unfoldable pub inform : Bool → ℕ → World → World
unfolding inform_sink
inform refused id w = inform_sink refused (lock id w.sinks.rows) w

-- `Reaper::track`, of a sink that is not null.
unfoldable pub track : ℕ → World → World
track id w = record w { tracked = w.tracked ++ id ∷ [] }

pub announce : Bool → Bool → Option (Tuple Sink) → World → World
unfolding track schedule
announce reaper refused none w = w
announce reaper refused (some i) w =
    let v = if reaper then track i.id w else w in schedule refused (i.cells.period, i.id) v

module _ ⦃o : IndexOrder⦄ where
  -- `Actor::commit`; `reaper` is whether the weak pointer to the reaper locks, and `refused`
  -- whether the scheduler does not take the job.
  unfoldable pub actor_commit :
      ⦃n : Netsnmp⦄ → Bool → Bool → World → Request → Outcome (World × Request)
  unfolding announce
  actor_commit reaper refused w q = do
    i ← inserted schema w.sinks q
    let v = announce reaper refused i w
    (t, r) ← commit schema v.sinks q
    ok (record v { sinks = t }, r)

  pub erase_all : List (Tuple Metrix) → Table Metrix → Table Metrix
  erase_all [] t = t
  erase_all (m ∷ ms) t = erase_all ms (erase m t).0

  -- The rows of the metrix table in the range of a sink's index go, and then the sink.
  pub reap : Memory → Tuple Sink → World → World
  unfolding erase_all
  reap m y w = record w {
    metrix = erase_all (range m y.key w.metrix) w.metrix;
    sinks = (erase y w.sinks).0;
  }

  -- The body of the loop for one weak pointer: the sinks to keep, and the world.
  pub reap_one : Memory → ℕ → Option (Tuple Sink) → World → World × List ℕ
  unfolding reap
  reap_one m id none w = (w, [])
  reap_one m id (some y) w = if positive y.cells.acks then (w, id ∷ []) else (reap m y w, [])

  unfoldable pub reap_all : Memory → List ℕ → World → World × List ℕ
  unfolding reap_one
  reap_all m [] w = (w, [])
  reap_all m (id ∷ ids) w =
      let (w1, kept) = reap_one m id (lock id w.sinks.rows) w in
      let (w2, rest) = reap_all m ids w1 in (w2, kept ++ rest)

  -- `Reaper::do_`.
  unfoldable pub reaper_do : Memory → World → World
  unfolding reap_all
  reaper_do m w = let (w1, kept) = reap_all m w.tracked w in record w1 { tracked = kept }
