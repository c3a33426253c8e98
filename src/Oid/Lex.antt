-- ===== src/Oid/Lex.antt =====
-- Lexicographic comparison of vectors of sub-identifiers, as documented for `snmp_oid_compare`: the
-- concrete order of the examples.
use Prim.Native.Nat.{Ordering}
use Prim.Native.Nat as Nat
use rmond_drs.Base.{ℕ, ◌≡◌, refl, List, [], ◌∷◌, arith, ◌↔◌}

unfoldable pub lex : List ℕ → List ℕ → Ordering
lex [] [] = Ordering.eq
lex [] (y ∷ ys) = Ordering.lt
lex (x ∷ xs) [] = Ordering.gt
lex (x ∷ xs) (y ∷ ys) = elim (Nat.compare x y) [
  | Ordering.lt ↦ Ordering.lt
  | Ordering.gt ↦ Ordering.gt
  | Ordering.eq ↦ lex xs ys
]

eq_of_lex : (a b : List ℕ) → lex a b ≡ Ordering.eq → a ≡ b
unfolding lex
eq_of_lex [] [] h = refl
eq_of_lex [] (y ∷ ys) h = ground arith
eq_of_lex (x ∷ xs) [] h = ground arith
eq_of_lex (x ∷ xs) (y ∷ ys) h = ground (arith, eq_of_lex xs ys)

lex_self : (a : List ℕ) → lex a a ≡ Ordering.eq
unfolding lex
lex_self [] = refl
lex_self (x ∷ xs) = ground (arith, lex_self xs)

pub lex_eq_iff : (a b : List ℕ) → (lex a b ≡ Ordering.eq) ↔ (a ≡ b)
lex_eq_iff a b = (eq_of_lex a b, λ e. rw e (lex_self b))

pub lex_flip : (a b : List ℕ) → (lex a b ≡ Ordering.lt) ↔ (lex b a ≡ Ordering.gt)
unfolding lex
lex_flip [] [] = (λ e. ground arith, λ e. ground arith)
lex_flip [] (y ∷ ys) = (λ e. refl, λ e. refl)
lex_flip (x ∷ xs) [] = (λ e. ground arith, λ e. ground arith)
lex_flip (x ∷ xs) (y ∷ ys) =
    (λ e. ground (arith, (lex_flip xs ys).0), λ e. ground (arith, (lex_flip xs ys).1))

pub lex_trans :
    (a b c : List ℕ) → lex a b ≡ Ordering.lt → lex b c ≡ Ordering.lt → lex a c ≡ Ordering.lt
unfolding lex
lex_trans [] [] c h k = ground arith
lex_trans [] (y ∷ ys) [] h k = ground arith
lex_trans [] (y ∷ ys) (z ∷ zs) h k = refl
lex_trans (x ∷ xs) [] c h k = ground arith
lex_trans (x ∷ xs) (y ∷ ys) [] h k = ground arith
lex_trans (x ∷ xs) (y ∷ ys) (z ∷ zs) h k = ground (arith, lex_trans xs ys zs)
