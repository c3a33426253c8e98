-- ===== src/Automat.antt =====
-- The dispatchers of src/details.h: `Dispatcher::Unit`, `Dispatcher::Default`, the fold of
-- `Dispatcher::Generate` over a table of rows, and `Automat::do_`.
pub mod Laws
use rmond_drs.Base.{ℕ, ◌==◌, if◌then◌else◌, List, [], ◌∷◌}

-- `Automat::Row`: a case, and what the member function of the row does.
pub record Row {ℓ} (A : Type ℓ) : Type ℓ where
  pub this_case : ℕ
  pub execute : A

module _ {ℓ} {A : Type ℓ} where
  -- `Dispatcher::Unit::do_`: the row's own case, or else the dispatcher under it.
  unfoldable pub unit : Row A → (ℕ → A) → ℕ → A
  unit r next case = if r.this_case == case then r.execute else next case

  -- `mpl::fold<T, Default, Unit<_2, _1>>`: the last row of the table is asked first.
  unfoldable pub generate : List (Row A) → (ℕ → A) → ℕ → A
  unfolding unit
  generate [] next = next
  generate (r ∷ rs) next = generate rs (unit r next)

  -- `Automat::do_`; `unknown` is the automat's handler for the cases of no row.
  unfoldable pub do_ : List (Row A) → A → ℕ → A
  unfolding generate
  do_ table unknown case = generate table (λ _. unknown) case
