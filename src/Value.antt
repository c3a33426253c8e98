-- ===== src/Value.antt =====
-- The providers of src/value.h and src/value.cpp, which make the varbinds of a report. A chain of
-- varbinds linked by `next_variable` is a list; the null pointer is the empty one.
pub mod Laws
use rmond_drs.Base.{
  ℕ, Bool, true, false, eqb, ◌||◌, if◌then◌else◌, List, [], ◌∷◌, ◌++◌, map, Option, none, some,
}
use rmond_drs.Oid.{Oid}
use rmond_drs.Asn.{Varbind}
use rmond_drs.Tuple.{Tuple, Schema}
use rmond_drs.Tuple

pub record NamedVar : Type 0 where
  pub name : Oid
  pub var : Varbind

abbrev pub Chain : Type 0
Chain = List NamedVar

-- `snmp_set_var_objid` on the first varbind of the chain.
abbrev pub set_name : Oid → Chain → Chain
set_name name [] = []
set_name name (v ∷ vs) = record v { name = name } ∷ vs

-- `Named::make`, of what the inner provider made; `none` is a provider that is a null pointer.
unfoldable pub named : Oid → Option Chain → Chain
named name none = []
named [] (some made) = made
named (x ∷ xs) (some made) = set_name (x ∷ xs) made

-- The first loop of `List::make` takes the first chain that is not null. It leaves the providers
-- that come after it.
unfoldable pub first_made : List Chain → Chain × List Chain
first_made [] = ([], [])
first_made ([] ∷ rest) = first_made rest
first_made ((v ∷ vs) ∷ rest) = (v ∷ vs, rest)

-- The second loop walks to the end of the chain, from where it stands, and links the next one.
unfoldable pub link_all : Chain → List Chain → Chain
link_all output [] = output
link_all output (made ∷ rest) = link_all (output ++ made) rest

-- `List::make`, of what its providers make.
unfoldable pub list_make : List Chain → Chain
unfolding first_made link_all
list_make made = let (output, rest) = first_made made in link_all output rest

-- `Metrix_type` is a set of OIDs; `count(x) > 0`.
unfoldable pub count : Oid → List Oid → Bool
count x [] = false
count x (y ∷ ys) = eqb y x || count x ys

abbrev pub empty : List Oid → Bool
empty [] = true
empty (y ∷ ys) = false

-- `Cell::Unit::prefix`: the table, 1, and the column.
unfoldable pub prefix : Oid → ℕ → Oid
prefix table column = table ++ 1 ∷ column ∷ []

-- `Cell::Unit::name`: the prefix, and the index of the tuple.
unfoldable pub cell_name : Oid → ℕ → Oid → Oid
unfolding prefix
cell_name table column key = prefix table column ++ key

-- `Cell::Unit`: a weak pointer to a tuple, and a column of it.
pub record Cell : Type 0 where
  pub id : ℕ
  pub column : ℕ

-- `Cell::Unit::make`, of the tuple that the pointer locks to; `memory` is whether the varbind is
-- allocated. A column that the schema lacks does not occur: the name is a template argument.
unfoldable pub cell_make : {R : Type 0} → Oid → Schema R → Bool → ℕ → Option (Tuple R) → Chain
unfolding named cell_name
cell_make table s memory column none = []
cell_make table s false column (some t) = []
cell_make table s true column (some t) = elim (Tuple.get s column t.cells) [
  | none ↦ []
  | some v ↦ named (cell_name table column t.key) (some (record { name = []; var = v } ∷ []))
]

cells_of : ℕ → List ℕ → List Cell
cells_of column [] = []
cells_of column (id ∷ ids) = record { id = id; column = column } ∷ cells_of column ids

-- `Details::Visitor` over the columns: those that the metrix names, or all if it names none.
unfoldable pub visit : Oid → List Oid → List ℕ → List ℕ → List Cell
unfolding count prefix cells_of
visit table metrix ids [] = []
visit table metrix ids (column ∷ columns) =
    let rest = visit table metrix ids columns in
    if empty metrix || count (prefix table column) metrix then cells_of column ids ++ rest else rest

-- `Composite::Tuple::snapshot` of a range of tuples: the cells of each column in turn.
unfoldable pub snapshot : {R : Type 0} → Oid → Schema R → List Oid → List (Tuple R) → List Cell
unfolding visit
snapshot table s metrix tuples =
    visit table metrix (map (λ t. t.id) tuples) (map (λ c. c.name) s.columns)
