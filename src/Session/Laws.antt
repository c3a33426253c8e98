-- ===== src/Session/Laws.antt =====
-- What a session reports and to whom, and what becomes of a report.
use rmond_drs.Base.{
  ◌<◌, ◌≤◌, ◌≡◌, refl, ◌==◌, Bool, true, false, ◌&&◌, [], ◌∷◌, ◌++◌, Option, none, some, Outcome,
  ok, arith, subst, ◌>>=◌, ◌⊎◌, inl, inr, length, Bool-cases,
}
use mathlib.Core.List.{append_assoc, append-nil}
use rmond_drs.Oid.{IndexOrder}
use rmond_drs.Asn.{Netsnmp}
use rmond_drs.Container.{Memory}
use rmond_drs.Tuple.{Tuple}
use rmond_drs.Table.{Table, find}
use rmond_drs.Table.Laws.{IsValid, range-Longer}
use rmond_drs.Table.Lookup.{Longer}
use rmond_drs.SinkTable.{Sink, table_oid, schema, ticket}
use rmond_drs.MetrixTable.{Metrix}
use rmond_drs.Value.{Chain, NamedVar, cell_make}
use rmond_drs.Trap.{Externs, Agent, pdu, uptime_var, trap_var, address_var}
use rmond_drs.Trap.Laws.{pdu_lem, copied}
use rmond_drs.Session.{
  Session, Push, open_unit, limit, int_max, metrix, metrics_of, ticketed, send, push, is_empty,
}

-- The limit of a sink is a positive int, whatever the client has written to the column: the loop
-- that counts up to it never sends an empty part for want of room.
pub limit_bounds : (t : Tuple Sink) → (0 < limit (some t)) × (limit (some t) ≤ int_max)
unfolding limit
limit_bounds t = ground arith

-- A session is open only for a sink that has a port.
open_unit_session :
    (opened : Bool) (t : Option (Tuple Sink))
    → (open_unit opened t).session ≡ true
    → (s : Tuple Sink) × (t ≡ some s) × ((s.cells.port == 0) ≡ false) × (opened ≡ true)
unfolding open_unit
open_unit_session opened none h = ground arith
open_unit_session opened (some s) h = (s, refl, ground arith, ground arith)

module _ ⦃o : IndexOrder⦄ where
  -- The metrics of a sink are looked up under its own index. Where each row of a valid metrix table
  -- has a longer index and no allocation fails, the set is empty, whatever metrics are registered.
  metrix_empty :
      (m : Memory) (s : Table Metrix) (t : Tuple Sink)
      → IsValid s
      → Longer (length t.key) s.rows
      → m.array ≡ true
      → m.header ≡ true
      → metrix m (some s) (some t) ≡ []
  unfolding metrix metrics_of find
  metrix_empty m s t v l a b = ground (arith, range-Longer m t.key s v l a b)

module _ ⦃n : Netsnmp⦄ where
  ticketed-suffix :
      (memory : Bool) (t : Option (Tuple Sink)) (list_ : Chain)
      → (pre : Chain) × (ticketed memory t list_ ≡ pre ++ list_)
  unfolding ticketed
  ticketed-suffix memory none list_ = ([], refl)
  ticketed-suffix memory (some t) list_ = elim (Bool-cases (is_empty t.cells.ticket)) [
    | inl e ↦ ([], rw e)
    | inr e ↦ (cell_make table_oid schema memory ticket (some t), rw e)
  ]

  -- What a call of `push` did with its chain: the PDU that was sent ends in it and nothing is freed,
  -- and the answer is success; or nothing was sent, what is freed ends in it, and the answer is
  -- failure.
  abbrev pub Settled : Chain → Push → Type 0
  Settled list_ p =
      ((pre : Chain) × (p ≡ record { failed = false; sent = some (pre ++ list_); freed = [] }))
      ⊎ ((pre : Chain) × (p ≡ record { failed = true; sent = none; freed = pre ++ list_ }))

  Settled-suffix : (pre list_ : Chain) (p : Push) → Settled (pre ++ list_) p → Settled list_ p
  Settled-suffix pre list_ p (inl (front, e)) =
      inl (front ++ pre, rw (append_assoc front pre list_) e)
  Settled-suffix pre list_ p (inr (front, e)) =
      inr (front ++ pre, rw (append_assoc front pre list_) e)

  abbrev deliver : Externs → Agent → Bool → Chain → Outcome Push
  deliver x a accepted data_ = do q ← pdu x a data_; ok (send accepted q.pdu q.freed)

  sent-Settled :
      (accepted : Bool) (h₁ h₂ h₃ : NamedVar) (data_ : Chain)
      → Settled data_ (send accepted (some (h₁ ∷ h₂ ∷ h₃ ∷ data_)) [])
  unfolding send
  sent-Settled true h₁ h₂ h₃ data_ = inl (h₁ ∷ h₂ ∷ h₃ ∷ [], refl)
  sent-Settled false h₁ h₂ h₃ data_ = inr (h₁ ∷ h₂ ∷ h₃ ∷ [], rw (append-nil data_))

  module _ (x : Externs) (a : Agent)
      (readable : length x.snmptrap_oid ≤ length (x.agentaddr_oid ++ x.behind)) where
    deliver-Settled :
        (accepted : Bool) (data_ : Chain)
        → (p : Push) × (deliver x a accepted data_ ≡ ok p) × Settled data_ p
    unfolding send
    deliver-Settled accepted [] =
        (record { failed = true; sent = none; freed = [] }, unfold pdu in refl, inr ([], refl))
    deliver-Settled accepted (v ∷ vs) =
        elim (Bool-cases (a.created && (a.uptime_memory && (a.trap_memory && a.address_memory)))) [
          | inl e ↦ (
            send accepted
                (some (
                  uptime_var a x.sysuptime_oid
                  ∷ trap_var x.snmptrap_oid
                  ∷ address_var a (copied x)
                  ∷ v
                  ∷ vs))
                [],
            rw (pdu_lem x a v vs readable) (rw e),
            sent-Settled accepted (uptime_var a x.sysuptime_oid) (trap_var x.snmptrap_oid)
                (address_var a (copied x)) (v ∷ vs),
          )
          | inr e ↦ (
            record { failed = true; sent = none; freed = v ∷ vs },
            rw (pdu_lem x a v vs readable) (rw e),
            inr ([], refl),
          )
        ]

    -- Where as many sub-identifiers as the trap's name has can be read from the start of the
    -- agent's address's name, every call of `push` settles its chain: it is sent, behind what the
    -- session puts before it, and the answer is success; or all of it is freed and the answer is
    -- failure.
    pub push_settles :
        (memory accepted : Bool) (u : Session) (list_ : Chain)
        → (p : Push) × (push x a memory accepted u list_ ≡ ok p) × Settled list_ p
    unfolding push
    push_settles memory accepted u list_ = elim (Bool-cases u.session) [
      | inl e ↦
          let (pre, t) = ticketed-suffix memory u.tuple list_ in
          let (p, d, r) = deliver-Settled accepted (ticketed memory u.tuple list_) in
          (p, rw e d, Settled-suffix pre list_ p (subst (λ z. Settled z p) t r))
      | inr e ↦ (record { failed = true; sent = none; freed = list_ }, rw e, inr ([], refl))
    ]
