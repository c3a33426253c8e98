-- ===== src/Sinks/Countdown.antt =====
-- How many reports a sink gets.
use rmond_drs.Base.{
  ℕ, zero, suc, Bool, if◌then◌else◌, ◌+◌, ◌<◌, ◌≡◌, refl, ap, ◌∙◌, ◌++◌, ◌∷◌, replicate,
  replicate-cons, subst, sym, some, arith,
}
use native.Mathlib.Nat.{zero-add, suc-add}
use rmond_drs.Asn.{int_mod}
use rmond_drs.Tuple.{Tuple}
use rmond_drs.Table.{lock}
use rmond_drs.Table.Rows.{lock-mutate}
use rmond_drs.SinkTable.{Sink}
use rmond_drs.Request.Rows.{lock_id}
use rmond_drs.Sinks.{World, schedule, inform}

-- Runs of the job `Inform` for one sink, with nothing in between; `refused k` is what the scheduler
-- answers when k runs are left.
abbrev pub informs : (ℕ → Bool) → ℕ → ℕ → World → World
informs refused zero id w = w
informs refused (suc k) id w = informs refused k id (inform (refused k) id w)

inform_step :
    (refused : Bool) (id : ℕ) (w : World) (t : Tuple Sink) (a : ℕ)
    → lock id w.sinks.rows ≡ some t
    → t.cells.acks ≡ suc a
    → suc a < int_mod
    → (lock id (inform refused id w).sinks.rows
        ≡ some (record t { cells = record t.cells { acks = a } }))
      × ((inform refused id w).informed ≡ id ∷ w.informed)
      × ((inform refused id w).scheduled
          ≡ (if refused then w.scheduled else (t.cells.period, id) ∷ w.scheduled))
unfolding inform schedule
inform_step refused id w t a e h l = ground (
  arith,
  lock_id id w.sinks.rows t,
  lock-mutate id (λ (c : Sink). record c { acks = a }) w.sinks.rows t,
)

inform_done :
    (refused : Bool) (id : ℕ) (w : World) (t : Tuple Sink)
    → lock id w.sinks.rows ≡ some t
    → t.cells.acks ≡ 0
    → inform refused id w ≡ w
unfolding inform
inform_done refused id w t e h = ground arith

informs_done :
    (refused : ℕ → Bool) (j id : ℕ) (w : World) (t : Tuple Sink)
    → lock id w.sinks.rows ≡ some t
    → t.cells.acks ≡ 0
    → informs refused j id w ≡ w
informs_done refused zero id w t e h = refl
informs_done refused (suc j) id w t e h =
    rw (inform_done (refused j) id w t e h, informs) (informs_done refused j id w t e h)

-- A sink of the table with a acks is informed exactly a times, however often its job runs beyond that
-- and whatever the scheduler answers, unless its acks are written in between: the acks are unsigned
-- here, so a negative number counts as its value modulo 2^32. At the end the sink has no acks left
-- and is otherwise as it was.
pub informs_exact :
    (refused : ℕ → Bool) (a j id : ℕ) (w : World) (t : Tuple Sink)
    → lock id w.sinks.rows ≡ some t
    → t.cells.acks ≡ a
    → a < int_mod
    → ((informs refused (a + j) id w).informed ≡ replicate a id ++ w.informed)
      × (lock id (informs refused (a + j) id w).sinks.rows
          ≡ some (record t { cells = record t.cells { acks = 0 } }))
informs_exact refused zero j id w t e h l =
    rw (zero-add j) (rw (informs_done refused j id w t e h) (refl, ground arith))
informs_exact refused (suc a) j id w t e h l =
    let s = inform_step (refused (a + j)) id w t a e h l in
    let r =
      informs_exact refused a j id (inform (refused (a + j)) id w)
        (record t { cells = record t.cells { acks = a } }) s.0 refl (omega arith) in
    subst
      (λ z.
        ((informs refused z id w).informed ≡ id ∷ replicate a id ++ w.informed)
        × (lock id (informs refused z id w).sinks.rows
            ≡ some (record t { cells = record t.cells { acks = 0 } })))
      (sym (suc-add a j))
      (r.0 ∙ ap (λ z. replicate a id ++ z) s.1 ∙ replicate-cons a id w.informed, r.1)
