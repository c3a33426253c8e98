-- ===== src/Tuple/Laws.antt =====
-- Reading and writing a row by the number of a column.
use rmond_drs.Base.{ℕ, ◌≡◌, ◌==◌, false, List, [], ◌∷◌, ◌++◌, map, none, some}
use mathlib.Core.List.{map-append}
use rmond_drs.Asn.{Varbind}
use rmond_drs.Automat.Laws.{Lacks, do_-unknown, do_-row}
use rmond_drs.Tuple.{Column, Schema, get, put, read_row, write_row}

module _ {R : Type 0} where
  abbrev pub Missing : ℕ → List (Column R) → Type 0
  Missing name [] = Unit {0}
  Missing name (c ∷ cs) = ((c.name == name) ≡ false) × Missing name cs

  read-Lacks :
      (r : R) (name : ℕ) (cs : List (Column R)) → Missing name cs → Lacks name (map (read_row r) cs)
  unfolding read_row
  read-Lacks r name [] h = tt
  read-Lacks r name (c ∷ cs) h = (h.0, read-Lacks r name cs h.1)

  write-Lacks :
      (v : Varbind) (r : R) (name : ℕ) (cs : List (Column R))
      → Missing name cs
      → Lacks name (map (write_row v r) cs)
  unfolding write_row
  write-Lacks v r name [] h = tt
  write-Lacks v r name (c ∷ cs) h = (h.0, write-Lacks v r name cs h.1)

  module _ (s : Schema R) (pre post : List (Column R)) (c : Column R)
      (e : s.columns ≡ pre ++ c ∷ post) (last : Missing c.name post) where
    get-column : (r : R) → get s c.name r ≡ some (c.read r)
    unfolding get read_row
    get-column r =
        rw (e, map-append (read_row r) pre (c ∷ post))
          (do_-row (map (read_row r) pre) (map (read_row r) post) (read_row r c) none
            (read-Lacks r c.name post last))

    put-column : (v : Varbind) (r : R) → put s c.name v r ≡ some (c.write v r)
    unfolding put write_row
    put-column v r =
        rw (e, map-append (write_row v r) pre (c ∷ post))
          (do_-row (map (write_row v r) pre) (map (write_row v r) post) (write_row v r c) none
            (write-Lacks v r c.name post last))

    -- A column of the schema whose name no later declaration repeats is read and written by its
    -- name.
    column_lem :
        (v : Varbind) (r : R)
        → (get s c.name r ≡ some (c.read r)) × (put s c.name v r ≡ some (c.write v r))
    column_lem v r = (get-column r, put-column v r)

  get-Missing : (s : Schema R) (name : ℕ) (r : R) → Missing name s.columns → get s name r ≡ none
  unfolding get
  get-Missing s name r h = do_-unknown name _ none (read-Lacks r name s.columns h)

  put-Missing :
      (s : Schema R) (name : ℕ) (v : Varbind) (r : R)
      → Missing name s.columns
      → put s name v r ≡ none
  unfolding put
  put-Missing s name v r h = do_-unknown name _ none (write-Lacks v r name s.columns h)

  -- A name of no column of the schema is refused, read or written.
  missing_lem :
      (s : Schema R) (name : ℕ) (v : Varbind) (r : R)
      → Missing name s.columns
      → (get s name r ≡ none) × (put s name v r ≡ none)
  missing_lem s name v r h = (get-Missing s name r h, put-Missing s name v r h)
