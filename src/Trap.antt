-- ===== src/Trap.antt =====
-- `Trap::pdu` of src/value.cpp: the v2 trap with its three leading varbinds and the data.
pub mod Laws
use rmond_drs.Base.{
  ℕ, zero, suc, Bool, true, false, if◌then◌else◌, List, [], ◌∷◌, ◌++◌, Option, none, some, Outcome,
  ok, fault, ◌>>=◌, length,
}
use rmond_drs.Oid.{Oid, traps}
use rmond_drs.Asn.{Varbind, Netsnmp, get_integer, get_ip, get_objid}
use rmond_drs.Value.{Chain, NamedVar}

abbrev pub asn_timeticks : ℕ
asn_timeticks = 67

-- The arrays of OIDs that net-snmp exports; each `_len` beside them is the array's own length.
-- `behind` is the memory that can be read after the agent's address.
pub record Externs : Type 0 where
  pub sysuptime_oid : Oid
  pub snmptrap_oid : Oid
  pub agentaddr_oid : Oid
  pub behind : Oid

-- What the agent answers while a trap is made: whether the PDU and each varbind are allocated, the
-- uptime, and the agent's address.
pub record Agent : Type 0 where
  pub created : Bool
  pub uptime_memory : Bool
  pub trap_memory : Bool
  pub address_memory : Bool
  pub uptime : ℕ
  pub myaddr : ℕ

-- `Named(name_, length_, …)` copies `length_` elements from the start of an array, past its end if it
-- is shorter; `xs` is all that can be read there.
unfoldable pub name_of : Oid → ℕ → Outcome Oid
name_of xs zero = ok []
name_of [] (suc n) = fault
name_of (x ∷ xs) (suc n) = do rest ← name_of xs n; ok (x ∷ rest)

-- The PDU, if one is made, and the data that is freed instead.
pub record Made : Type 0 where
  pub pdu : Option Chain
  pub freed : Chain

abbrev pub refused : Chain → Outcome Made
refused data_ = ok (record { pdu = none; freed = data_ })

module _ ⦃n : Netsnmp⦄ where
  -- `Uptime::make`, `Trap::make` and `TrapAddress::make`, under their names.
  unfoldable pub uptime_var : Agent → Oid → NamedVar
  uptime_var a name = record { name = name; var = get_integer asn_timeticks a.uptime }

  unfoldable pub trap_var : Oid → NamedVar
  trap_var name = record { name = name; var = get_objid (traps ++ 0 ∷ 51 ∷ []) }

  unfoldable pub address_var : Agent → Oid → NamedVar
  address_var a name = record { name = name; var = get_ip (n.ntohl a.myaddr) }

  -- The body of the loop: a varbind that cannot be made breaks out of it.
  headers : Externs → Agent → Chain → Outcome Made
  unfolding name_of
  headers x a data_ = do
    uptime_name ← name_of x.sysuptime_oid (length x.sysuptime_oid)
    if a.uptime_memory
        then (do
          trap_name ← name_of x.snmptrap_oid (length x.snmptrap_oid)
          if a.trap_memory
              then (do
                address_name ← name_of (x.agentaddr_oid ++ x.behind) (length x.snmptrap_oid)
                if a.address_memory
                    then ok (record {
                      pdu = some (
                          uptime_var a uptime_name
                          ∷ trap_var trap_name
                          ∷ address_var a address_name
                          ∷ data_);
                      freed = [];
                    })
                    else refused data_)
              else refused data_)
        else refused data_

  -- `Trap::pdu`.
  unfoldable pub pdu : Externs → Agent → Chain → Outcome Made
  unfolding headers
  pdu x a [] = refused []
  pdu x a (v ∷ vs) = if a.created then headers x a (v ∷ vs) else refused (v ∷ vs)
