-- ===== src/Host/Scalars.antt =====
-- The scalars of the host: how `Scalar::Inject` of src/host.cpp registers them, and how
-- `Composite::Scalar` of src/value.h reports them.
use rmond_drs.Base.{
  ℕ, arith, ◌≡◌, refl, sym, ap, ◌∙◌, Bool, true, false, ◌||◌, if◌then◌else◌, List, [], ◌∷◌, ◌++◌,
  map, All, Option, none, some, Bool-cases, inl, inr,
}
use rmond_drs.Oid.{Oid, uuid}
use rmond_drs.Asn.{Netsnmp, asn_integer, get_integer}
use rmond_drs.Value.{Chain, named, count, empty, list_make}
use rmond_drs.Value.Laws.{flat, list_make-flat}
use rmond_drs.Environment
use rmond_drs.Host

-- `Data<Host::PROPERTY>`: the number under each name.
abbrev pub Data : Type 0
Data = ℕ → ℕ

-- `PROPERTY`, each an ASN_INTEGER.
abbrev pub properties : List ℕ
properties =
    101 ∷ 102 ∷ 103 ∷ 104 ∷ 105 ∷ 106 ∷ 107 ∷ 108 ∷ 109 ∷ 110 ∷ 111 ∷ 112 ∷ 113 ∷ 114 ∷ 115 ∷ 116
    ∷ 117 ∷ 118 ∷ 119 ∷ []

-- What net-snmp answers: whether the handler and its registration are made, and whether the scalar
-- is registered.
pub record Answers : Type 0 where
  pub handler : Bool
  pub registration : Bool
  pub registered : Bool

-- `Schema<Host::PROPERTY>::handler`: the OID of the registration; a handler without one is freed.
unfoldable pub handler : Answers → ℕ → Option Oid
unfolding uuid
handler a luid = if a.handler then (if a.registration then some (uuid luid) else none) else none

-- `Inject::operator()`: the scalar's object is kept while it is registered, under its OID.
unfoldable pub inject_scalar : Answers → ℕ → Option Oid
unfolding handler
inject_scalar a luid = if a.registered then handler a luid else none

-- `mpl::for_each` in `Unit::inject`, which has no failure to report.
unfoldable pub inject_all : (ℕ → Answers) → List ℕ → List Oid
unfolding inject_scalar
inject_all a [] = []
inject_all a (luid ∷ luids) =
    let rest = inject_all a luids in
    elim (inject_scalar (a luid) luid) [ none ↦ rest | some name ↦ name ∷ rest ]

-- `Unit::inject`: the OIDs that are registered, and whether it fails.
unfoldable pub inject : (ℕ → Answers) → List Oid × Bool
unfolding inject_all
inject a = (inject_all a properties, false)

-- `Details::Visitor` over the scalars: those that the metrix names, or all if it names none.
unfoldable pub visit : List Oid → List ℕ → List ℕ
unfolding uuid count
visit metrix [] = []
visit metrix (luid ∷ luids) =
    let rest = visit metrix luids in
    if empty metrix || count (uuid luid) metrix then luid ∷ rest else rest

module _ ⦃n : Netsnmp⦄ where
  -- The provider of a scalar: its OID, an instance of zero, and the value.
  unfoldable pub scalar : Data → ℕ → Chain
  unfolding named uuid
  scalar d luid =
      named (uuid luid ++ 0 ∷ [])
        (some (record { name = []; var = get_integer asn_integer (d luid) } ∷ []))

  -- `Composite::Tuple::snapshot` of a scalar, and what its list makes.
  unfoldable pub report : List Oid → Data → Chain
  unfolding visit scalar list_make
  report metrix d = list_make (map (scalar d) (visit metrix properties))

  -- UCD-SNMP-MIB's memTotalReal, of which `Unit` makes a proxy.
  abbrev pub proxied : Oid
  proxied = 1 ∷ 3 ∷ 6 ∷ 1 ∷ 4 ∷ 1 ∷ 2021 ∷ 4 ∷ 5 ∷ 0 ∷ []

  -- The providers that the constructor of `Unit` adds, in a snapshot: the scalars, and the proxy.
  unfoldable pub host_snapshot : List Oid → Data → Bool → Option Chain → Chain
  unfolding report Host.snapshot Environment.snapshot
  host_snapshot metrix d created answer =
      Environment.snapshot
        (some (report metrix d) ∷ some (Host.snapshot proxied metrix created answer) ∷ [])

-- A report names just the scalars that were asked for.
visit_shown :
    (metrix : List Oid) (luids : List ℕ)
    → All (λ luid. (empty metrix || count (uuid luid) metrix) ≡ true) (visit metrix luids)
unfolding visit
visit_shown metrix [] = tt
visit_shown metrix (luid ∷ luids) = elim (Bool-cases (empty metrix || count (uuid luid) metrix)) [
  | inl e ↦ rw e (e, visit_shown metrix luids)
  | inr e ↦ rw e (visit_shown metrix luids)
]

-- With no metrics given, all the scalars are named.
visit_all : (luids : List ℕ) → visit [] luids ≡ luids
unfolding visit
visit_all [] = refl
visit_all (luid ∷ luids) = ap (λ xs. luid ∷ xs) (visit_all luids)

-- net-snmp makes the handler and its registration, and registers the scalar.
abbrev pub Willing : Answers → Type 0
Willing a = (a.handler ≡ true) × (a.registration ≡ true) × (a.registered ≡ true)

inject_scalar-Willing :
    (a : Answers) (luid : ℕ) → Willing a → inject_scalar a luid ≡ some (uuid luid)
unfolding inject_scalar handler
inject_scalar-Willing a luid (h, r, g) = ground (arith, h, r, g)

-- Where net-snmp makes and registers each scalar, every one is registered, under its own OID.
inject_all-map :
    (a : ℕ → Answers) (luids : List ℕ)
    → All (λ luid. Willing (a luid)) luids
    → inject_all a luids ≡ map uuid luids
unfolding inject_all
inject_all-map a [] h = refl
inject_all-map a (luid ∷ luids) h =
    rw (inject_scalar-Willing (a luid) luid h.0, inject_all-map a luids h.1, inject_all) refl

module _ ⦃n : Netsnmp⦄ where
  scalars_named :
      (d : Data) (luids : List ℕ)
      → map (λ v. v.name) (flat (map (scalar d) luids)) ≡ map (λ luid. uuid luid ++ 0 ∷ []) luids
  unfolding scalar named uuid
  scalars_named d [] = refl
  scalars_named d (luid ∷ luids) = ap (λ xs. (uuid luid ++ 0 ∷ []) ∷ xs) (scalars_named d luids)

  -- Where net-snmp makes and registers each scalar, a report with no metrics given has a varbind
  -- for each registered scalar, in order, under the OID of its registration with a zero behind it.
  pub report_registered :
      (a : ℕ → Answers) (d : Data)
      → All (λ luid. Willing (a luid)) properties
      → map (λ v. v.name) (report [] d) ≡ map (λ name. name ++ 0 ∷ []) (inject a).0
  unfolding report inject
  report_registered a d h =
      ap (λ xs. map (λ v. v.name) (list_make (map (scalar d) xs))) (visit_all properties)
      ∙ ap (map (λ v. v.name)) (list_make-flat (map (scalar d) properties))
      ∙ scalars_named d properties
      ∙ ap (map (λ name. name ++ 0 ∷ [])) (sym (inject_all-map a properties h))
