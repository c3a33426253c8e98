-- ===== src/Ve/Laws.antt =====
-- What a virtual environment does to the table of its rows, and what its storages publish.
use rmond_drs.Base.{
  ℕ, ◌+◌, ◌<◌, ◌≡◌, refl, ap, sym, ◌∙◌, true, false, if◌then◌else◌, List, [], ◌∷◌, ◌++◌, length,
  All, Option, none, some, arith, inl, inr, Bool-cases,
}
use rmond_drs.Oid.{Oid, IndexOrder}
use rmond_drs.Container
use rmond_drs.Container.Laws.{same, same_self, eq_of_same}
use rmond_drs.Tuple.{Tuple}
use rmond_drs.Table.{Table, find, insert}
use rmond_drs.Table.Laws.{IsValid, erase_lem}
use rmond_drs.Perspective.{store}
use rmond_drs.Perspective.Laws.{find-store}
use rmond_drs.Perspective.Rows.{store-IsValid}
use rmond_drs.License.{is_space, skip_spaces, starts_with}
use rmond_drs.Ve.{
  Ve, trim, trim_right, node_line, node_lines, mark, Types, shaman, refresh_node, output_of,
}
use rmond_drs.Disk.{after}
use rmond_drs.Ve.Unit.{equipped, construct, destroy}

module _ ⦃o : IndexOrder⦄ where
  construct-store :
      (key : Oid) (blank : Ve) (t : Table Ve)
      → construct key blank t
        ≡ (store key blank t, equipped (record { id = t.fresh; key = key; cells = blank }))
  unfolding construct store insert Container.insert
  construct-store key blank t = refl

  emptied :
      (key j : Oid) (blank : Ve) (t : Table Ve)
      → find key t ≡ none
      → (if same j key then none else find j (store key blank t)) ≡ find j t
  emptied key j blank t e = elim (Bool-cases (same j key)) [
    | inl h ↦ rw h (sym (ap (λ k. find k t) (eq_of_same j key h) ∙ e))
    | inr h ↦ rw h (find-store j key blank t ∙ kept (find j t) h)
  ]
    where
      kept :
          (l : Option (Tuple Ve))
          → same j key ≡ false
          → (elim l [
            | some w ↦ some w
            | none ↦
                if same j key
                then some (record { id = t.fresh; key = key; cells = blank })
                else none
          ])
            ≡ l
      kept (some w) h = refl
      kept none h = rw h refl

  -- In a well-formed table where the index of an environment is free, its construction puts a row
  -- there, and its destruction then removes it: the rows are as before.
  pub construct-destroy :
      (key j : Oid) (blank : Ve) (t : Table Ve)
      → IsValid t
      → find key t ≡ none
      → (find key (construct key blank t).0
          ≡ some (record { id = t.fresh; key = key; cells = blank }))
        × (find j (destroy (construct key blank t).1 (construct key blank t).0) ≡ find j t)
  unfolding destroy equipped
  construct-destroy key j blank t v e = rw (construct-store key blank t) (
    ground (arith, e, find-store key key blank t, same_self key),
    (erase_lem (record { id = t.fresh; key = key; cells = blank })
          (record { id = t.fresh; key = key; cells = blank }) (store key blank t) j 0
          (store-IsValid key blank t v)
          (ground (arith, e, find-store key key blank t, same_self key))).1
        ∙ emptied key j blank t e,
  )

  -- In a well-formed table where the index of an environment is taken, a second object with the index
  -- adds no row, though its construction succeeds, and its destruction removes the row of the first.
  construct_taken :
      (key : Oid) (blank : Ve) (t : Table Ve) (w : Tuple Ve)
      → IsValid t
      → find key t ≡ some w
      → (find key (construct key blank t).0 ≡ some w)
        × (find key (destroy (construct key blank t).1 (construct key blank t).0) ≡ none)
  unfolding destroy equipped
  construct_taken key blank t w v e = rw (construct-store key blank t) (
    ground (arith, e, find-store key key blank t),
    (erase_lem (record { id = t.fresh; key = key; cells = blank }) w (store key blank t) key 0
          (store-IsValid key blank t v) (ground (arith, e, find-store key key blank t))).1
        ∙ (rw (same_self key) refl),
  )

-- The white space at the start of a text.
abbrev pub Spaces : List ℕ → Type 0
Spaces cs = All (λ c. is_space c ≡ true) cs

-- A text that neither begins nor ends with white space, and is not empty.
abbrev pub Ends : List ℕ → Type 0
Ends [] = ⊥
Ends (c ∷ []) = is_space c ≡ false
Ends (c ∷ d ∷ ds) = Ends (d ∷ ds)

skip_spaces-Spaces : (ws cs : List ℕ) → Spaces ws → skip_spaces (ws ++ cs) ≡ skip_spaces cs
unfolding skip_spaces
skip_spaces-Spaces [] cs h = refl
skip_spaces-Spaces (w ∷ ws) cs h = ground (arith, skip_spaces-Spaces ws cs h.1, h.0)

trim_right-Spaces : (ws : List ℕ) → Spaces ws → trim_right ws ≡ []
unfolding trim_right
trim_right-Spaces [] h = refl
trim_right-Spaces (w ∷ ws) h = rw (trim_right-Spaces ws h.1, h.0) refl

trim_right-Ends : (cs ws : List ℕ) → Ends cs → Spaces ws → trim_right (cs ++ ws) ≡ cs
unfolding trim_right
trim_right-Ends [] ws e h = absurd e
trim_right-Ends (c ∷ []) ws e h = rw (trim_right-Spaces ws h, e) refl
trim_right-Ends (c ∷ d ∷ ds) ws e h = rw (trim_right-Ends (d ∷ ds) ws e h) refl

trim-Ends :
    (before : List ℕ) (c : ℕ) (cs behind : List ℕ)
    → Spaces before
    → is_space c ≡ false
    → Ends (c ∷ cs)
    → Spaces behind
    → trim (before ++ (c ∷ cs ++ behind)) ≡ c ∷ cs
unfolding trim
trim-Ends before c cs behind b n e h =
    rw (skip_spaces-Spaces before (c ∷ cs ++ behind) b) (rw n (trim_right-Ends (c ∷ cs) behind e h))

abbrev pub Unmarked : List (List ℕ) → Type 0
Unmarked bs = All (λ b. starts_with b mark ≡ false) bs

abbrev pub total : List (List ℕ) → ℕ
total [] = 0
total (b ∷ bs) = length b + total bs

node_lines-Unmarked :
    (seen : ℕ) (bs : List (List ℕ)) (y : Ve) → Unmarked bs → node_lines seen bs y ≡ y
unfolding node_lines node_line
node_lines-Unmarked seen [] y h = refl
node_lines-Unmarked seen (b ∷ bs) y h =
    ground (arith, h.0, node_lines-Unmarked (seen + length b) bs y h.1)

marked :
    (text : List ℕ) → (starts_with (mark ++ text) mark ≡ true) × (after (mark ++ text) mark ≡ text)
unfolding starts_with after
marked text = (refl, refl)

node_lines-marked :
    (seen : ℕ) (xs ys : List (List ℕ)) (text : List ℕ) (y : Ve)
    → Unmarked xs
    → Unmarked ys
    → seen + total xs < 1024
    → (node_lines seen (xs ++ (mark ++ text) ∷ ys) y).perfect_node ≡ trim text
unfolding node_lines node_line
node_lines-marked seen [] ys text y h g l = ground (
  arith,
  l,
  (marked text).0,
  ap trim (marked text).1,
  node_lines-Unmarked (seen + length (mark ++ text)) ys (record y { perfect_node = trim text }) g,
  ap (λ u. node_lines (seen + length (mark ++ text)) ys (record y { perfect_node = trim u }))
      (marked text).1,
)
node_lines-marked seen (x ∷ xs) ys text y h g l =
    ground
      (arith, l, h.0, node_lines-marked (seen + length x) xs ys text y h.1 g (omega (arith, l)))

-- The node that is published is what follows the mark in the output of shaman, without the white space
-- around it, where one piece of the output begins with the mark and less than 1024 characters come
-- before that piece.
pub refresh_node_lem :
    (popen : List ℕ → Option (List (List ℕ))) (k : Types) (t : Option ℕ) (y : Ve)
    (command before cs behind : List ℕ) (c : ℕ) (xs ys : List (List ℕ))
    → shaman k t (record y { perfect_node = [] }) ≡ some command
    → popen command ≡ some (xs ++ (mark ++ (before ++ (c ∷ cs ++ behind))) ∷ ys)
    → Spaces before
    → is_space c ≡ false
    → Ends (c ∷ cs)
    → Spaces behind
    → Unmarked xs
    → Unmarked ys
    → total xs < 1024
    → (refresh_node popen k t y).perfect_node ≡ c ∷ cs
unfolding refresh_node node_lines
refresh_node_lem popen k t y command before cs behind c xs ys s p b n e h u v l =
    rw (s, output_of, p)
      (node_lines-marked 0 xs ys (before ++ (c ∷ cs ++ behind)) (record y { perfect_node = [] }) u v
          (omega (arith, l))
        ∙ trim-Ends before c cs behind b n e h)
