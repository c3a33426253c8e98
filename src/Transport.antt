-- ===== src/Transport.antt =====
-- The program of guest-transport that runs in a guest and writes its statistics: transport.h and
-- transport.c. Texts are lists of codes with no zero.
pub mod Columns
pub mod Decimal
pub mod Linux
pub mod Windows
pub mod Laws
pub mod Pipeline
use rmond_drs.Base.{ℕ, ◌==◌, if◌then◌else◌, List, [], ◌∷◌, ◌++◌}

-- `statistics`: the name, and the text that `printf` makes of the value, by its type.
pub record Statistics : Type 0 where
  pub name : List ℕ
  pub text : List ℕ

-- The inner loop of `main`, which prints each of the statistics.
unfoldable pub print_all : List Statistics → List ℕ
print_all [] = []
print_all (s ∷ ss) = (s.name ++ 58 ∷ s.text) ++ 32 ∷ print_all ss

-- A line that the outer loop writes.
unfoldable pub print_line : List Statistics → List ℕ
unfolding print_all
print_line ss = print_all ss ++ 10 ∷ []

-- What `main` does: it returns a status, or goes on with a period in seconds.
pub data Program : Type 0 where
  returns : ℕ → Program
  collects : ℕ → Program

-- The start of `main`, of `argc` and of the number that the first argument is.
unfoldable pub main : ℕ → ℕ → Program
main argc period = if argc == 22 then collects period else returns 1
