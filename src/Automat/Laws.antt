-- ===== src/Automat/Laws.antt =====
-- Which row of its table a dispatcher runs.
use rmond_drs.Base.{ℕ, ◌≡◌, refl, ap, ◌∙◌, ◌==◌, ==_refl, false, List, [], ◌∷◌, ◌++◌}
use rmond_drs.Automat.{Row, unit, generate, do_}

module _ {ℓ} {A : Type ℓ} where
  -- No row of the table has the case.
  abbrev pub Lacks : ℕ → List (Row A) → Type 0
  Lacks case [] = Unit {0}
  Lacks case (r ∷ rs) = ((r.this_case == case) ≡ false) × Lacks case rs

  generate-append :
      (rs qs : List (Row A)) (next : ℕ → A)
      → generate (rs ++ qs) next ≡ generate qs (generate rs next)
  unfolding generate
  generate-append [] qs next = refl
  generate-append (r ∷ rs) qs next = generate-append rs qs (unit r next)

  generate-Lacks :
      (case : ℕ) (rs : List (Row A)) (next : ℕ → A)
      → Lacks case rs
      → generate rs next case ≡ next case
  unfolding generate unit
  generate-Lacks case [] next h = refl
  generate-Lacks case (r ∷ rs) next h = generate-Lacks case rs (unit r next) h.1 ∙ rw h.0 refl

  generate_hit :
      (r : Row A) (post : List (Row A)) (next : ℕ → A)
      → Lacks r.this_case post
      → generate (r ∷ post) next r.this_case ≡ r.execute
  unfolding generate unit
  generate_hit r post next h =
      generate-Lacks r.this_case post (unit r next) h ∙ rw (==_refl r.this_case) refl

  -- A case of no row goes to `unknown`.
  pub do_-unknown :
      (case : ℕ) (rs : List (Row A)) (unknown : A) → Lacks case rs → do_ rs unknown case ≡ unknown
  unfolding do_
  do_-unknown case rs unknown h = generate-Lacks case rs (λ _. unknown) h

  -- Where no later row of the table has the case of a row, that row runs for the case, whatever stands
  -- before it.
  pub do_-row :
      (pre post : List (Row A)) (r : Row A) (unknown : A)
      → Lacks r.this_case post
      → do_ (pre ++ r ∷ post) unknown r.this_case ≡ r.execute
  unfolding do_
  do_-row pre post r unknown h =
      ap (λ (f : ℕ → A). f r.this_case) (generate-append pre (r ∷ post) (λ _. unknown))
      ∙ generate_hit r post (generate pre (λ _. unknown)) h
