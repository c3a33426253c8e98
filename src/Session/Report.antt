-- ===== src/Session/Report.antt =====
-- `Inform::push` of src/mib.cpp: a whole report to a sink, from the providers of the server to the
-- traps.
use rmond_drs.Base.{
  ℕ, suc, ◌==◌, ◌≤◌, ◌≡◌, refl, Bool, true, false, if◌then◌else◌, List, [], ◌∷◌, ◌++◌, map, Option,
  none, some, Outcome, ok, ◌>>=◌, length,
}
use rmond_drs.Oid.{Oid, IndexOrder}
use rmond_drs.Asn.{Netsnmp}
use rmond_drs.Container.{Memory}
use rmond_drs.Tuple.{Tuple}
use rmond_drs.Table.{Table}
use rmond_drs.SinkTable.{Sink}
use rmond_drs.MetrixTable.{Metrix}
use rmond_drs.Value.{Chain}
use rmond_drs.Value.Laws.{flat}
use rmond_drs.Trap.{Externs, Agent}
use rmond_drs.Session.{Session, Push, open_unit, bad, limit, metrix, push, parts}
use rmond_drs.Session.Laws.{Settled, push_settles, limit_bounds}
use rmond_drs.Session.Parts.{made, concat, Full, parts-Full}

-- What is answered while one trap is made and sent.
pub record Delivery : Type 0 where
  pub agent : Agent
  pub memory : Bool
  pub accepted : Bool

module _ ⦃n : Netsnmp⦄ where
  -- The calls of `Unit::push`, in turn; their answers are dropped. The i-th trap meets `d i`.
  unfoldable pub push_all :
      Externs → (ℕ → Delivery) → ℕ → Session → List Chain → Outcome (List Push)
  unfolding push
  push_all x d i u [] = ok []
  push_all x d i u (c ∷ cs) = do
    p ← push x (d i).agent (d i).memory (d i).accepted u c
    ps ← push_all x d (suc i) u cs
    ok (p ∷ ps)

  module _ ⦃o : IndexOrder⦄ where
    -- `Inform::push`. `server` is what the providers of the snapshot make for a set of metrics, if the
    -- server is alive; `opened` whether a session can be opened; the table of metrics is none once its
    -- weak pointer is dead.
    unfoldable pub report :
        Externs
        → (ℕ → Delivery)
        → Memory
        → Bool
        → Option (List Oid → List Chain)
        → Option (Table Metrix)
        → Option (Tuple Sink)
        → Outcome (List Push)
    unfolding open_unit limit metrix parts push_all
    report x d m opened none table target = ok []
    report x d m opened (some providers) table target =
        let u = open_unit opened target in
        if bad u
        then ok []
        else push_all x d 0 u (parts (limit u.tuple) [] 0 (providers (metrix m table u.tuple)))

module _ ⦃n : Netsnmp⦄ where
  -- Each chain with the call of `push` that it was given to.
  abbrev pub AllSettled : List Chain → List Push → Type 0
  AllSettled [] [] = Unit {0}
  AllSettled [] (p ∷ ps) = ⊥
  AllSettled (c ∷ cs) [] = ⊥
  AllSettled (c ∷ cs) (p ∷ ps) = Settled c p × AllSettled cs ps

  module _ (x : Externs)
      (readable : length x.snmptrap_oid ≤ length (x.agentaddr_oid ++ x.behind)) where
    push_all-AllSettled :
        (d : ℕ → Delivery) (i : ℕ) (u : Session) (cs : List Chain)
        → (ps : List Push) × (push_all x d i u cs ≡ ok ps) × AllSettled cs ps
    unfolding push_all
    push_all-AllSettled d i u [] = ([], refl, tt)
    push_all-AllSettled d i u (c ∷ cs) =
        let (p, e, s) = push_settles x (d i).agent readable (d i).memory (d i).accepted u c in
        let (ps, f, r) = push_all-AllSettled d (suc i) u cs in (p ∷ ps, rw (e, f), (s, r))

    module _ ⦃o : IndexOrder⦄ where
      -- A report to a sink with a port, whose session opens, while the server is alive and as many
      -- sub-identifiers as the trap's name has can be read from the agent's address's name: it ends,
      -- and the chains that the providers made for the sink's metrics are divided, in their order and
      -- without the empty ones, into groups of as many as the sink's limit and a last one of fewer;
      -- each group is given to one trap, which is sent whole behind what the session puts before
      -- it, or is freed whole. Where the session does not open, or the server is gone, nothing is sent.
      pub report_lem :
          (d : ℕ → Delivery) (m : Memory) (providers : List Oid → List Chain)
          (table : Option (Table Metrix)) (t : Tuple Sink)
          → (t.cells.port == 0) ≡ false
          → ((gs : List (List Chain)) × (ps : List Push) × (report x d m true
                  (some providers)
                  table
                  (some t)
                ≡ ok ps)
              × AllSettled (map flat gs) ps
              × (concat gs ≡ made (providers (metrix m table (some t))))
              × Full (limit (some t)) gs)
            × (report x d m false (some providers) table (some t) ≡ ok [])
            × (report x d m true none table (some t) ≡ ok [])
      unfolding report open_unit
      report_lem d m providers table t e =
          let vs = providers (metrix m table (some t)) in
          let (gs, q, c, f) = parts-Full (limit (some t)) vs (limit_bounds t).0 in
          let u : Session = record { session = true; tuple = some t } in
          let (ps, r, s) = push_all-AllSettled d 0 u (map flat gs) in
          ((gs, ps, rw (e, report, q) r, s, c, f), rw (e, report) refl, refl)
