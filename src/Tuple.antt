-- ===== src/Tuple.antt =====
-- Rows of a table: the schema lists of src/details.h (`Declaration`, `Limits`, `Index::Name`,
-- `Index::Patch`) and `Tuple::Access` and `Tuple::Unit` of src/table.h.
pub mod Laws
use rmond_drs.Base.{
  ℕ, suc, ◌+◌, Bool, true, false, ltb, if◌then◌else◌, List, [], ◌∷◌, map, Option, none, some,
}
use rmond_drs.Oid.{Oid}
use rmond_drs.Asn.{Varbind}
use rmond_drs.Automat.{Row, do_}

-- A `Declaration` with the accessors of its bean.
pub record Column (R : Type 0) : Type 0 where
  pub name : ℕ
  pub read : R → Varbind
  pub write : Varbind → R → R

-- `Schema<T>`: the declarations, the index columns (`none` is a column of another table), and the
-- typed accessors of the ROW_STATUS column. `blank` has every bean at its default.
pub record Schema (R : Type 0) : Type 0 where
  pub columns : List (Column R)
  pub index_type : List (Option ℕ)
  pub row_status : ℕ
  pub status : R → ℕ
  pub set_status : ℕ → R → R
  pub blank : R

-- `netsnmp_table_request_info`: the column, the index, and the decoded index values, each with the
-- `index` member of its varbind.
pub record Cell : Type 0 where
  pub colnum : ℕ
  pub index_oid : Oid
  pub indexes : List (ℕ × Varbind)

-- `Tuple::Unit`. The id tells apart the objects that shared and weak pointers refer to.
pub record Tuple (R : Type 0) : Type 0 where
  pub id : ℕ
  pub key : Oid
  pub cells : R

names_from : ℕ → ℕ → List (Option ℕ) → List ℕ
names_from top off [] = []
names_from top off (none ∷ us) = (top + 1 + off) ∷ names_from top (suc off) us
names_from top off (some u ∷ us) = u ∷ names_from top (suc off) us

-- `mpl::for_each` over `Index::Patch`.
unfoldable pub patch : List ℕ → List (ℕ × Varbind) → List (ℕ × Varbind)
patch [] xs = xs
patch (u ∷ us) [] = []
patch (u ∷ us) ((i, v) ∷ xs) = (u, v) ∷ patch us xs

module _ {R : Type 0} where
  max_name : ℕ → List (Column R) → ℕ
  max_name m [] = m
  max_name m (c ∷ cs) = max_name (if ltb m c.name then c.name else m) cs

  -- `Limits<T>::MAX`.
  unfoldable pub limit : Schema R → ℕ
  unfolding max_name
  limit s = max_name 0 s.columns

  -- `Index::Name<T, U>` of each index column: a column of this table keeps its name, and another
  -- gets a number above all columns.
  unfoldable pub index_names : Schema R → List ℕ
  unfolding names_from limit
  index_names s = names_from (limit s) 0 s.index_type

  read_row : R → Column R → Row (Option Varbind)
  read_row r c = record { this_case = c.name; execute = some (c.read r) }

  -- `Tuple::Unit::get(int, varbind&)`: the column's value, and whether the name is unknown.
  unfoldable pub get : Schema R → ℕ → R → Option Varbind
  unfolding read_row do_
  get s name r = do_ (map (read_row r) s.columns) none name

  write_row : Varbind → R → Column R → Row (Option R)
  write_row v r c = record { this_case = c.name; execute = some (c.write v r) }

  -- `Tuple::Unit::put(int, varbind)`; `none` is an unknown name, and changes nothing.
  unfoldable pub put : Schema R → ℕ → Varbind → R → Option R
  unfolding write_row do_
  put s name v r = do_ (map (write_row v r) s.columns) none name

  abbrev pub or_same : Option R → R → R
  or_same none r = r
  or_same (some q) r = q

  -- A write of a varbind to the column of a row, if it has that column.
  abbrev pub write : Schema R → ℕ → Varbind → R → R
  write s name v r = or_same (put s name v r) r

  put_all : Schema R → List (ℕ × Varbind) → R → R
  unfolding put
  put_all s [] r = r
  put_all s ((i, v) ∷ xs) r = put_all s xs (or_same (put s i v r) r)

  -- `Unit(netsnmp_table_request_info*)`.
  unfoldable pub from_request : Schema R → ℕ → Cell → Tuple R
  unfolding put_all patch index_names
  from_request s id c = record {
    id = id;
    key = c.index_oid;
    cells = put_all s (patch (index_names s) c.indexes) s.blank;
  }
