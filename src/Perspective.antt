-- ===== src/Perspective.antt =====
-- `Perspective` of src/ve.cpp, which keeps the rows of a table that belong to one virtual
-- environment, and its use for virtual CPUs.
pub mod Laws
pub mod Rows
use rmond_drs.Base.{
  ℕ, zero, suc, ◌==◌, Bool, true, false, not, ◌||◌, if◌then◌else◌, List, [], ◌∷◌, ◌++◌, map, Option,
  none, some,
}
use rmond_drs.Oid.{Oid, IndexOrder}
use rmond_drs.Container.{Memory}
use rmond_drs.Tuple.{Tuple}
use rmond_drs.Table.{Table, update, find, insert, erase, range}

-- What `merge` asks of an update F for rows R: `fill`; `apply`, which gives the row's new contents and
-- whether the row has to go; and `rest`, the rows that are still missing, each with its index.
pub record Flavor (R F : Type 0) : Type 0 where
  pub fill : F → F
  pub apply : R → F → F × R × Bool
  pub rest : F → List (Oid × R)

module _ {R : Type 0} ⦃o : IndexOrder⦄ where
  -- A new tuple under the index is inserted.
  unfoldable pub store : Oid → R → Table R → Table R
  store k r t =
      (insert (record { id = t.fresh; key = k; cells = r }) (record t { fresh = suc t.fresh })).0

  unfoldable pub insert_all : List (Oid × R) → Table R → Table R
  unfolding store
  insert_all [] t = t
  insert_all ((k, r) ∷ rs) t = insert_all rs (store k r t)

  -- The first loop of `merge`.
  unfoldable pub apply_all : {F : Type 0} → Flavor R F → List (Tuple R) → F → Table R → F × Table R
  apply_all v [] f t = (f, t)
  apply_all v (d ∷ ds) f t =
      let (f1, r, gone) = v.apply d.cells f in
      let t1 = update d.id (λ _. r) t in apply_all v ds f1 (if gone then (erase d t1).0 else t1)

  -- `Perspective::merge`, while the table is alive; `parent` is the index of the environment.
  unfoldable pub merge : {F : Type 0} → Flavor R F → Memory → Oid → F → Table R → Table R
  unfolding apply_all insert_all
  merge v m parent f t =
      let (f1, t1) = apply_all v (range m parent t) (v.fill f) t in insert_all (v.rest f1) t1

  -- `Perspective::tuple`, while the table is alive: the row of the index, or a new one.
  unfoldable pub tuple_at : Option (Tuple R) → Oid → R → Table R → Table R × Tuple R
  unfolding store
  tuple_at (some w) k r t = (t, w)
  tuple_at none k r t = (store k r t, record { id = t.fresh; key = k; cells = r })

  unfoldable pub tuple : Oid → R → Table R → Table R × Tuple R
  unfolding tuple_at
  tuple k r t = tuple_at (find k t) k r t

  -- What the events do to the row of an index: it is looked up or made, and written through its
  -- pointer.
  unfoldable pub touch : Oid → R → (R → R) → Table R → Table R
  unfolding tuple
  touch k r f t = let (t1, w) = tuple k r t in update w.id f t1

-- A row of the table of CPUs.
pub record Cpu : Type 0 where
  pub ordinal : ℕ
  pub time : ℕ

-- `CPU::Virtual::Update`: the ordinals that are still in its map, and the environment, if it is alive:
-- its number of CPUs, if that is limited, and whether it runs.
pub record Update : Type 0 where
  pub ordinals : List ℕ
  pub ve : Option (Option ℕ × Bool)

-- 0 and so on, below n.
unfoldable pub below : ℕ → List ℕ
below zero = []
below (suc n) = below n ++ n ∷ []

unfoldable pub fill_ve : Option (Option ℕ × Bool) → Update → Update
unfolding below
fill_ve none u = u
fill_ve (some (none, running)) u = u
fill_ve (some (some n, running)) u = record u { ordinals = below n }

unfoldable pub has : ℕ → List ℕ → Bool
has i [] = false
has i (j ∷ js) = j == i || has i js

unfoldable pub without : ℕ → List ℕ → List ℕ
without i [] = []
without i (j ∷ js) = let rest = without i js in if j == i then rest else j ∷ rest

abbrev pub stopped : Option (Option ℕ × Bool) → Bool
stopped none = false
stopped (some (n, running)) = not running

unfoldable pub apply_cpu : Cpu → Update → Update × Cpu × Bool
unfolding has without
apply_cpu r u =
    if has r.ordinal u.ordinals
    then (
      record u { ordinals = without r.ordinal u.ordinals },
      (if stopped u.ve then record r { time = 0 } else r),
      false,
    )
    else (u, r, true)

-- `key` is the index of a CPU of the environment, as net-snmp builds it.
unfoldable pub cpus : (ℕ → Oid) → Flavor Cpu Update
unfolding fill_ve apply_cpu
cpus key = record {
  fill = λ u. fill_ve u.ve u;
  apply = apply_cpu;
  rest = λ u. map (λ i. (key i, record { ordinal = i; time = 0 })) u.ordinals;
}
