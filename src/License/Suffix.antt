-- ===== src/License/Suffix.antt =====
-- Suffixes of a text by `boost::ends_with`, and which of them exclude each other.
use rmond_drs.Base.{
  ℕ, ◌≤◌, ◌<◌, leb, eqb, eq_of_eqb, ◌≡◌, refl, ap, sym, ◌∙◌, Bool, true, false, List, [], ◌∷◌, ◌++◌,
  length, length-append, arith, inl, inr, Bool-cases,
}
use rmond_drs.License.{ends_with}

eqb-longer : (xs ys : List ℕ) → length ys < length xs → eqb xs ys ≡ false
eqb-longer xs ys l = elim (Bool-cases (eqb xs ys)) [
  | inl e ↦ absurd (omega (arith, l, ap length (eq_of_eqb xs ys e)))
  | inr e ↦ e
]

-- A suffix is what stands at the end.
ends_with-parts : (xs ps : List ℕ) → ends_with xs ps ≡ true → (pre : List ℕ) × (xs ≡ pre ++ ps)
unfolding ends_with
ends_with-parts [] ps e = ([], eq_of_eqb [] ps e)
ends_with-parts (x ∷ xs) ps e = elim (Bool-cases (eqb (x ∷ xs) ps)) [
  | inl f ↦ ([], eq_of_eqb (x ∷ xs) ps f)
  | inr f ↦ let (pre, g) = ends_with-parts xs ps (ground (arith, e, f)) in (x ∷ pre, ap (◌∷◌ x) g)
]

ends_with-append :
    (pre ps qs : List ℕ) → length qs ≤ length ps → ends_with (pre ++ ps) qs ≡ ends_with ps qs
unfolding ends_with
ends_with-append [] ps qs l = refl
ends_with-append (x ∷ pre) ps qs l = ground (
  arith,
  ends_with-append pre ps qs l,
  eqb-longer (x ∷ pre ++ ps) qs (omega (arith, l, length-append {0} pre ps)),
)

shorter :
    (xs ps qs : List ℕ)
    → length qs ≤ length ps
    → ends_with ps qs ≡ false
    → ends_with xs ps ≡ true
    → ends_with xs qs ≡ false
shorter xs ps qs l n e =
    let (pre, f) = ends_with-parts xs ps e in
    ap (λ t. ends_with t qs) f ∙ ends_with-append pre ps qs l ∙ n

contrary : {b : Bool} → true ≡ false → b ≡ false
contrary e = cc

-- Of two texts neither of which ends with the other, only one can be a suffix.
pub ends_with-exclusive :
    (xs ps qs : List ℕ)
    → ends_with ps qs ≡ false
    → ends_with qs ps ≡ false
    → ends_with xs ps ≡ true
    → ends_with xs qs ≡ false
ends_with-exclusive xs ps qs n m e = elim (Bool-cases (ends_with xs qs)) [
  | inr f ↦ f
  | inl f ↦ elim (Bool-cases (leb (length qs) (length ps))) [
    | inl l ↦ shorter xs ps qs (ground (arith, l)) n e
    | inr l ↦ contrary (sym e ∙ shorter xs qs ps (ground (arith, l)) m f)
  ]
]
