-- ===== src/Table/Registration.antt =====
-- The registration of a table and the index of a key: `Schema<void>::table` and `Index::Inject` of
-- src/details.h, `Key::extract` and `attach` of src/table.h.
use rmond_drs.Base.{ℕ, ◌≡◌, refl, Bool, true, false, not, ◌||◌, if◌then◌else◌, List, [], ◌∷◌, ◌++◌}
use rmond_drs.Oid.{Oid}
use rmond_drs.Asn.{Varbind}

-- `Key::extract`: the varbinds of the index columns, each where it can be allocated; `build_oid` is
-- net-snmp's.
unfoldable pub allocated : List (Bool × Varbind) → List Varbind
allocated [] = []
allocated ((memory, v) ∷ vs) = let rest = allocated vs in if memory then v ∷ rest else rest

unfoldable pub extract : (List Varbind → Oid) → List (Bool × Varbind) → Oid
unfolding allocated
extract build_oid vs = build_oid (allocated vs)

-- The varbinds of `indexes`, each with its type and its `index`, which is 0 at first.
abbrev pub Indexes : Type 0
Indexes = List (ℕ × ℕ)

-- `Index::Inject`, for an index column of the type and the name: `x` is the first varbind, or the one
-- after the first that was there before.
unfoldable pub inject : ℕ → ℕ → Indexes → Indexes
inject type name [] = (type, name) ∷ []
inject type name (a ∷ []) = a ∷ (type, name) ∷ []
inject type name (a ∷ (t, n) ∷ rest) = a ∷ (t, name) ∷ rest ++ (type, 0) ∷ []

unfoldable pub inject_all : List (ℕ × ℕ) → Indexes → Indexes
unfolding inject
inject_all [] s = s
inject_all ((type, name) ∷ cs) s = inject_all cs (inject type name s)

-- What is allocated while a table is attached.
pub data Part : Type 0 where
  info registration handler : Part

-- What the calls of net-snmp answer while a table is attached: `created` is what `Schema::handler`
-- answers, by `create_handler` and `create_registration`.
pub record Answers : Type 0 where
  pub storage : Bool
  pub registered : Bool
  pub info : Bool
  pub create_handler : Bool
  pub create_registration : Bool
  pub get_handler : Bool
  pub inject_handler : Bool
  pub register_table : Bool

-- `Schema<void>::table`: whether there is a registration, and whether the handler was freed.
unfoldable pub table : Bool → Bool → Bool × Bool
table create_handler create_registration =
    if create_handler
    then (if create_registration then (true, false) else (false, true))
    else (false, false)

-- What is left of an attempt: the parts that are held, whether `m_registration` is set, and whether it
-- failed. The registration owns a handler that was injected into it.
pub record Attached : Type 0 where
  pub held : List Part
  pub registered : Bool
  pub failed : Bool

abbrev pub refused : Bool → Attached
refused registered = record { held = []; registered = registered; failed = true }

-- `Unit::attach`.
unfoldable pub attach : Answers → Attached
unfolding table
attach a =
    if not a.storage || a.registered
    then refused a.registered
    else if not a.info
    then refused false
    else if not (table a.create_handler a.create_registration).0
    then refused false
    else if not a.get_handler
    then refused false
    else if not a.inject_handler
    then refused false
    else if a.register_table
    then record { held = info ∷ registration ∷ handler ∷ []; registered = true; failed = false }
    else refused false

-- An index of one or two columns gets the name of each; of three, the second gets the name of the
-- third, which has none.
inject_all_lem :
    (s t u i j k : ℕ)
    → (inject_all ((s, i) ∷ []) [] ≡ (s, i) ∷ [])
      × (inject_all ((s, i) ∷ (t, j) ∷ []) [] ≡ (s, i) ∷ (t, j) ∷ [])
      × (inject_all ((s, i) ∷ (t, j) ∷ (u, k) ∷ []) [] ≡ (s, i) ∷ (t, k) ∷ (u, 0) ∷ [])
unfolding inject_all inject
inject_all_lem s t u i j k = (refl, refl, refl)
