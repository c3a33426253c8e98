-- ===== src/Transport/Decimal.antt =====
-- `printf` of a long that is not negative, for guest-transport/transport.c, and that its digits are
-- read back as the number.
use native.Mathlib.Numerals.{unary_clauses}
use rmond_drs.Base.{
  ℕ, zero, suc, ◌+◌, ◌-◌, ◌*◌, ◌/◌, ◌%◌, ◌^◌, ◌<◌, ltb, ◌≡◌, refl, ap, ◌∙◌, if◌then◌else◌, List, [],
  ◌∷◌, ◌++◌, length, length-append, arith, inl, inr, Bool-cases,
}
use rmond_drs.License.Laws.{Decimal, value}

-- The digits of a number, on fuel.
unfoldable pub digits_of : ℕ → ℕ → List ℕ
digits_of zero n = []
digits_of (suc k) n =
    let rest = digits_of k (n / 10) in
    if ltb n 10 then (48 + n) ∷ [] else rest ++ (48 + n % 10) ∷ []

-- `%li`: a number has no more digits than its size.
unfoldable pub decimal : ℕ → List ℕ
unfolding digits_of
decimal n = digits_of (suc n) n

Decimal-append : (xs ys : List ℕ) → Decimal xs → Decimal ys → Decimal (xs ++ ys)
Decimal-append [] ys h g = g
Decimal-append (x ∷ xs) ys h g = (h.0, Decimal-append xs ys h.1 g)

power_suc : (n : ℕ) → 10 ^ suc n ≡ 10 * 10 ^ n
power_suc n = simp unary_clauses (omega arith)

power_add_one : (n : ℕ) → 10 ^ (n + 1) ≡ 10 * 10 ^ n
power_add_one n = ap (λ (k : ℕ). 10 ^ k) (omega arith) ∙ power_suc n

carried : (a p v e : ℕ) → a * (10 * p) + (v * 10 + e) ≡ (a * p + v) * 10 + e
carried a p v e = grind arith

value-append : (xs : List ℕ) (d : ℕ) → value (xs ++ d ∷ []) ≡ value xs * 10 + (d - 48)
value-append [] d = omega arith
value-append (x ∷ xs) d =
    rw (length-append xs (d ∷ []), value-append xs d, power_add_one (length xs))
      (carried (x - 48) (10 ^ length xs) (value xs) (d - 48))

value-digits_of : (k n : ℕ) → n < k → value (digits_of k n) ≡ n
unfolding digits_of
value-digits_of zero n l = absurd (omega (arith, l))
value-digits_of (suc k) n l = elim (Bool-cases (ltb n 10)) [
  | inl e ↦ rw e (omega arith)
  | inr e ↦
      rw
        (
          e,
          value-append (digits_of k (n / 10)) (48 + n % 10),
          value-digits_of k (n / 10) (ground (arith, l, e)),
        )
        (omega arith)
]

Decimal-digits_of : (k n : ℕ) → Decimal (digits_of k n)
unfolding digits_of
Decimal-digits_of zero n = tt
Decimal-digits_of (suc k) n = elim (Bool-cases (ltb n 10)) [
  | inl e ↦ rw e (ground (arith, e), tt)
  | inr e ↦ rw e (
      Decimal-append (digits_of k (n / 10)) ((48 + n % 10) ∷ []) (Decimal-digits_of k (n / 10))
        (ground arith, tt))
]

filled : (k n : ℕ) → 0 < length (digits_of (suc k) n)
unfolding digits_of
filled k n = elim (Bool-cases (ltb n 10)) [
  | inl e ↦ rw e (omega arith)
  | inr e ↦ rw e (omega (arith, length-append {0} (digits_of k (n / 10)) ((48 + n % 10) ∷ [])))
]

-- The text of a number is one digit and perhaps more, which stand for the number.
abbrev pub Shown : ℕ → List ℕ → Type 0
Shown n text = (c : ℕ) × (ds : List ℕ) × (text ≡ c ∷ ds) × Decimal (c ∷ ds) × (value (c ∷ ds) ≡ n)

Shown-text :
    (n : ℕ) (text : List ℕ) → 0 < length text → Decimal text → value text ≡ n → Shown n text
Shown-text n [] l d e = absurd (omega (arith, l))
Shown-text n (c ∷ ds) l d e = (c, ds, refl, d, e)

pub decimal-Shown : (n : ℕ) → Shown n (decimal n)
unfolding decimal
decimal-Shown n =
    Shown-text n (digits_of (suc n) n) (filled n n) (Decimal-digits_of (suc n) n)
      (value-digits_of (suc n) n (omega arith))
