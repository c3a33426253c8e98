-- ===== src/Value/Laws.antt =====
-- What a report holds: all that the providers made, in their order, and only what was asked for.
use rmond_drs.Base.{
  ℕ, ◌≡◌, refl, sym, ◌∙◌, true, ◌||◌, List, [], ◌∷◌, ◌++◌, arith, Bool-cases, inl, inr, length, ◌+◌,
  ◌*◌,
}
use mathlib.Core.List.{append_assoc, append-nil}
use rmond_drs.Oid.{Oid}
use rmond_drs.Value.{
  Chain, first_made, link_all, list_make, count, empty, prefix, Cell, cells_of, visit,
}

abbrev pub flat : List Chain → Chain
flat [] = []
flat (c ∷ cs) = c ++ flat cs

link_all-flat : (c : Chain) (cs : List Chain) → link_all c cs ≡ c ++ flat cs
unfolding link_all
link_all-flat c [] = sym (append-nil c)
link_all-flat c (d ∷ cs) = link_all-flat (c ++ d) cs ∙ append_assoc c d (flat cs)

-- A list of providers makes what they make, one after the other; null chains leave no trace.
pub list_make-flat : (cs : List Chain) → list_make cs ≡ flat cs
unfolding list_make first_made
list_make-flat [] = unfold link_all in refl
list_make-flat ([] ∷ cs) = list_make-flat cs
list_make-flat ((v ∷ vs) ∷ cs) = link_all-flat (v ∷ vs) cs

-- The columns that a snapshot shows.
abbrev pub Shown : Oid → List Oid → List Cell → Type 0
Shown table metrix [] = Unit {0}
Shown table metrix (c ∷ cs) =
    ((empty metrix || count (prefix table c.column) metrix) ≡ true) × Shown table metrix cs

cells_of-Shown :
    (table : Oid) (metrix : List Oid) (column : ℕ) (ids : List ℕ) (rest : List Cell)
    → (empty metrix || count (prefix table column) metrix) ≡ true
    → Shown table metrix rest
    → Shown table metrix (cells_of column ids ++ rest)
unfolding cells_of
cells_of-Shown table metrix column [] rest h r = r
cells_of-Shown table metrix column (id ∷ ids) rest h r =
    (h, cells_of-Shown table metrix column ids rest h r)

-- Every cell of a snapshot belongs to a column that the metrix names, unless it names none.
visit-Shown :
    (table : Oid) (metrix : List Oid) (ids columns : List ℕ)
    → Shown table metrix (visit table metrix ids columns)
unfolding visit
visit-Shown table metrix ids [] = tt
visit-Shown table metrix ids (column ∷ columns) =
    elim (Bool-cases (empty metrix || count (prefix table column) metrix)) [
      | inl e ↦ rw e (
          cells_of-Shown table metrix column ids (visit table metrix ids columns) e
            (visit-Shown table metrix ids columns))
      | inr e ↦ rw e (visit-Shown table metrix ids columns)
    ]

length-cells_of :
    (column : ℕ) (ids : List ℕ) (rest : List Cell)
    → length (cells_of column ids ++ rest) ≡ length ids + length rest
unfolding cells_of
length-cells_of column [] rest = omega arith
length-cells_of column (id ∷ ids) rest = omega (arith, length-cells_of column ids rest)

-- With no metrix the snapshot has a cell for every column of every tuple.
visit_all :
    (table : Oid) (ids columns : List ℕ)
    → length (visit table [] ids columns) ≡ length columns * length ids
unfolding visit
visit_all table ids [] = omega arith
visit_all table ids (column ∷ columns) =
    length-cells_of column ids (visit table [] ids columns)
    ∙ omega (arith, visit_all table ids columns)
