-- ===== src/Oid.antt =====
-- Object identifiers and the order of table indices: `Oid_type` of src/mib.h, the fixed OIDs of
-- src/mib.cpp and src/details.cpp, and the comparator that src/container.h takes from net-snmp.
pub mod Lex
use Prim.Native.Nat.{Ordering}
use rmond_drs.Base.{ℕ, ◌≡◌, Bool, true, false, List, [], ◌∷◌, ◌++◌, arith, ◌↔◌}
unfoldable pub use Lex.*

abbrev pub Oid : Type 0
Oid = List ℕ

-- `Central::traps` and `Central::product`; SNMP_OID_ENTERPRISES is 1.3.6.1.4.1.
abbrev pub enterprises : Oid
enterprises = 1 ∷ 3 ∷ 6 ∷ 1 ∷ 4 ∷ 1 ∷ []

unfoldable pub traps : Oid
traps = enterprises ++ 26171 ∷ 3 ∷ []

unfoldable pub product : Oid
product = enterprises ++ 26171 ∷ 1 ∷ 2 ∷ []

-- `Schema<void>::uuid`.
unfoldable pub uuid : ℕ → Oid
unfolding product
uuid luid = product ++ luid ∷ []

-- `netsnmp_compare_netsnmp_index`, which is not part of the repository: a strict total order whose
-- ties are equal indices.
pub record IndexOrder : Type 0 where
  pub compare : Oid → Oid → Ordering
  pub compare_eq_iff : (a b : Oid) → (compare a b ≡ Ordering.eq) ↔ (a ≡ b)
  pub compare_flip : (a b : Oid) → (compare a b ≡ Ordering.lt) ↔ (compare b a ≡ Ordering.gt)
  pub compare_trans :
      (a b c : Oid)
      → compare a b ≡ Ordering.lt
      → compare b c ≡ Ordering.lt
      → compare a c ≡ Ordering.lt

-- `ThreadsafeContainer::Unit::Less`: `netsnmp_compare_netsnmp_index(rhs_, lhs_) < 0`.
unfoldable pub less : ⦃o : IndexOrder⦄ → Oid → Oid → Bool
less ⦃o⦄ a b = elim (o.compare a b) [ Ordering.lt ↦ true | _ ↦ false ]

module _ ⦃o : IndexOrder⦄ where
  pub less_irrefl : (a : Oid) → less a a ≡ false
  unfolding less
  less_irrefl a = ground (arith, (o.compare_eq_iff a a).1)

  pub less_asym : (a b : Oid) → less a b ≡ true → less b a ≡ false
  unfolding less
  less_asym a b h = ground (arith, (o.compare_flip a b).0)

  pub less_trans : (a b c : Oid) → less a b ≡ true → less b c ≡ true → less a c ≡ true
  unfolding less
  less_trans a b c h k = ground (arith, o.compare_trans a b c)

  pub eq_of_less : (a b : Oid) → less a b ≡ false → less b a ≡ false → a ≡ b
  unfolding less
  eq_of_less a b h k =
      ground (arith, (o.compare_eq_iff a b).0, (o.compare_flip a b).0, (o.compare_flip b a).1)
