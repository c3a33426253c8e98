-- ===== src/Trap/Laws.antt =====
-- When a trap is made, and what becomes of the data otherwise.
use rmond_drs.Base.{
  ℕ, zero, suc, ap, ◌<◌, ◌≤◌, ◌≡◌, ◌≢◌, ◌++◌, refl, if◌then◌else◌, ◌&&◌, [], ◌∷◌, some, ok, length,
  arith,
}
use rmond_drs.Oid.{Oid}
use rmond_drs.Asn.{Netsnmp}
use rmond_drs.Value.{Chain, NamedVar}
use rmond_drs.Trap.{
  Externs, Agent, name_of, headers, pdu, uptime_var, trap_var, address_var, refused,
}

name_of_self : (xs : Oid) → name_of xs (length xs) ≡ ok xs
unfolding name_of
name_of_self [] = refl
name_of_self (x ∷ xs) = rw (name_of_self xs)

-- The first n sub-identifiers.
abbrev pub first : ℕ → Oid → Oid
first zero xs = []
first (suc n) [] = []
first (suc n) (x ∷ xs) = x ∷ first n xs

name_of-first : (xs : Oid) (n : ℕ) → n ≤ length xs → name_of xs n ≡ ok (first n xs)
unfolding name_of
name_of-first xs zero h = refl
name_of-first [] (suc n) h = absurd (omega arith)
name_of-first (x ∷ xs) (suc n) h = rw (name_of-first xs n (omega arith))

length-first : (xs : Oid) (n : ℕ) → n ≤ length xs → length (first n xs) ≡ n
length-first xs zero h = refl
length-first [] (suc n) h = absurd (omega arith)
length-first (x ∷ xs) (suc n) h = ap suc (length-first xs n (omega arith))

length_eq : (xs ys : Oid) → xs ≡ ys → length xs ≡ length ys
length_eq xs ys e = ap length e

-- The name that is copied for the agent's address.
abbrev pub copied : Externs → Oid
copied x = first (length x.snmptrap_oid) (x.agentaddr_oid ++ x.behind)

module _ ⦃n : Netsnmp⦄ where
  -- The trap with its three headers before the data.
  abbrev pub trap : Externs → Agent → Oid → Chain → Chain
  trap x a name data_ =
      uptime_var a x.sysuptime_oid ∷ trap_var x.snmptrap_oid ∷ address_var a name ∷ data_

  -- A PDU is made with the three headers before the data, or the data is freed; never both, and
  -- never neither. The address stands under as many sub-identifiers, from the start of the array of
  -- its own name, as the trap's name has, provided that so many can be read.
  pub pdu_lem :
      (x : Externs) (a : Agent) (v : NamedVar) (vs : Chain)
      → length x.snmptrap_oid ≤ length (x.agentaddr_oid ++ x.behind)
      → pdu x a (v ∷ vs) ≡ (
          if a.created && (a.uptime_memory && (a.trap_memory && a.address_memory))
          then ok (record { pdu = some (trap x a (copied x) (v ∷ vs)); freed = [] })
          else refused (v ∷ vs))
  unfolding pdu headers
  pdu_lem x a v vs e = ground (
    arith,
    name_of_self x.sysuptime_oid,
    name_of_self x.snmptrap_oid,
    name_of-first (x.agentaddr_oid ++ x.behind) (length x.snmptrap_oid) e,
  )

  -- Where the agent's address has a shorter name than the trap, whatever is behind its array, if so
  -- much can be read there, no trap carries the address under its name.
  pdu_overread :
      (x : Externs) (a : Agent) (v : NamedVar) (vs : Chain)
      → length x.snmptrap_oid ≤ length (x.agentaddr_oid ++ x.behind)
      → length x.agentaddr_oid < length x.snmptrap_oid
      → pdu x a (v ∷ vs)
        ≢ ok (record { pdu = some (trap x a x.agentaddr_oid (v ∷ vs)); freed = [] })
  unfolding address_var
  pdu_overread x a v vs e h p = ground (
    arith,
    pdu_lem x a v vs e,
    length-first (x.agentaddr_oid ++ x.behind) (length x.snmptrap_oid) e,
    length_eq (copied x) x.agentaddr_oid,
  )
