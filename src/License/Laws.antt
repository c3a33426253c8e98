-- ===== src/License/Laws.antt =====
-- What is read of a counter, and what is published.
use mathlib.Core.Path.{ap₂}
use native.Mathlib.Numerals.{unary_clauses}
use rmond_drs.Base.{
  sym, ℕ, suc, ◌+◌, ◌-◌, ◌*◌, ◌^◌, ◌%◌, ◌<◌, ◌≤◌, ◌==◌, ◌≡◌, refl, ap, ◌∙◌, true, false, List, [],
  ◌∷◌, ◌++◌, none, some, length, arith, ◌⊎◌, inl, inr, Bool-cases,
}
use rmond_drs.License.{
  uint_mod, is_space, is_digit, skip_spaces, digits, strtoul, starts_with, split_at, parse_limit,
  parse_usage, parse, Licence, publish, refresh, nothing, read_lines, nolimit, or_else, at_most,
}

-- The characters are digits.
abbrev pub Decimal : List ℕ → Type 0
Decimal [] = Unit {0}
Decimal (c ∷ cs) = (is_digit c ≡ true) × Decimal cs

-- The number that digits stand for, each with its power of ten.
abbrev pub value : List ℕ → ℕ
value [] = 0
value (c ∷ cs) = (c - 48) * 10 ^ length cs + value cs

shift : (acc d p r : ℕ) → (acc * 10 + d) * p + r ≡ acc * (10 * p) + (d * p + r)
shift acc d p r = grind arith

pub shift_power :
    (acc d n r : ℕ) → (acc * 10 + d) * 10 ^ n + r ≡ acc * 10 ^ suc n + (d * 10 ^ n + r)
shift_power acc d n r =
    shift acc d (10 ^ n) r ∙ ap (λ p. acc * p + (d * 10 ^ n + r)) (sym (power n))
  where
    power : (n : ℕ) → 10 ^ suc n ≡ 10 * 10 ^ n
    power n = simp unary_clauses (omega arith)

-- A character that ends a number and does not begin one.
abbrev pub Ends : ℕ → Type 0
Ends x = (is_digit x ≡ false) × (is_space x ≡ false) × ((x == 45) ≡ false) × ((x == 43) ≡ false)

digits-append :
    (acc x : ℕ) (ds rest : List ℕ)
    → Decimal ds
    → is_digit x ≡ false
    → digits acc (ds ++ x ∷ rest) ≡ acc * 10 ^ length ds + value ds
unfolding digits
digits-append acc x [] rest d e = rw e (omega arith)
digits-append acc x (c ∷ ds) rest d e = rw d.0 (
    digits-append (acc * 10 + (c - 48)) x ds rest d.1 e
    ∙ shift_power acc (c - 48) (length ds) (value ds))

-- A number of one digit or more ends at what is no digit.
pub strtoul-number :
    (c x : ℕ) (ds rest : List ℕ)
    → Decimal (c ∷ ds)
    → is_digit x ≡ false
    → value (c ∷ ds) < uint_mod
    → strtoul (c ∷ (ds ++ x ∷ rest)) ≡ value (c ∷ ds)
unfolding strtoul skip_spaces
strtoul-number c x ds rest d e l = ground (arith, digits-append 0 x (c ∷ ds) rest d e)

strtoul-digits :
    (x : ℕ) (ds rest : List ℕ)
    → Decimal ds
    → Ends x
    → value ds < uint_mod
    → strtoul (ds ++ x ∷ rest) ≡ value ds
unfolding strtoul skip_spaces
strtoul-digits x [] rest d e l = ground (arith, digits-append 0 x [] rest d e.0)
strtoul-digits x (c ∷ ds) rest d e l = strtoul-number c x ds rest d e.0 l

split_at-append :
    (x : ℕ) (ds rest : List ℕ)
    → Decimal ds
    → is_digit x ≡ false
    → split_at x (ds ++ x ∷ rest) ≡ some (ds, rest)
unfolding split_at
split_at-append x [] rest d e = ground arith
split_at-append x (c ∷ ds) rest d e = ground (arith, split_at-append x ds rest d.1 e)

unquoted :
    (c p : ℕ) (cs ps : List ℕ)
    → is_digit c ≡ true
    → (p == 34) ≡ true
    → starts_with (c ∷ cs) (p ∷ ps) ≡ false
unfolding starts_with
unquoted c p cs ps d e = ground arith

parse_limit-digits :
    (c x : ℕ) (ds rest : List ℕ)
    → Decimal (c ∷ ds)
    → Ends x
    → value (c ∷ ds) < uint_mod
    → parse_limit (c ∷ (ds ++ x ∷ rest)) ≡ value (c ∷ ds)
unfolding parse_limit
parse_limit-digits c x ds rest d e l =
    rw
      (
        unquoted c 34 (ds ++ x ∷ rest)
            (117 ∷ 110 ∷ 108 ∷ 105 ∷ 109 ∷ 105 ∷ 116 ∷ 101 ∷ 100 ∷ 34 ∷ []) d.0 refl,
        unquoted c 34 (ds ++ x ∷ rest) (99 ∷ 111 ∷ 109 ∷ 98 ∷ 105 ∷ 110 ∷ 101 ∷ 100 ∷ 34 ∷ []) d.0
            refl,
      )
      (strtoul-digits x (c ∷ ds) rest d e l)

parse_usage-digits :
    (ds es rest : List ℕ)
    → Decimal ds
    → Decimal es
    → value es < uint_mod
    → parse_usage (ds ++ 40 ∷ (es ++ 41 ∷ rest)) ≡ value es
unfolding parse_usage
parse_usage-digits ds es rest d f k =
    rw (split_at-append 40 ds (es ++ 41 ∷ rest) d refl, parse_usage)
      (strtoul-digits 41 es rest f (refl, refl, refl, refl) k)

-- A counter that is printed as its limit in digits, one at least, an opening parenthesis, its usage
-- in digits and a closing one, both below 2^32, is parsed to that usage and that limit, whatever
-- follows.
pub parse-digits :
    (ds es rest : List ℕ)
    → Decimal ds
    → Decimal es
    → 0 < length ds
    → value ds < uint_mod
    → value es < uint_mod
    → parse (ds ++ 40 ∷ (es ++ 41 ∷ rest)) ≡ record { usage = value es; limit = value ds }
unfolding parse
parse-digits [] es rest d f n l k = absurd (omega arith)
parse-digits (c ∷ ds) es rest d f n l k =
    ap₂ (λ (u i : ℕ). record { usage = u; limit = i }) (parse_usage-digits (c ∷ ds) es rest d f k)
      (parse_limit-digits c 40 ds (es ++ 41 ∷ rest) d (refl, refl, refl, refl) l)

bounded :
    (a x : ℕ)
    → (or_else a (at_most (x % uint_mod) nolimit) ≡ a)
      ⊎ (or_else a (at_most (x % uint_mod) nolimit) ≤ nolimit)
bounded a x = elim (Bool-cases (a == 0)) [ inl e ↦ inr (ground arith) | inr e ↦ inl (ground arith) ]

-- Where vzlicview succeeds, the virtual environments that are published are those of the servers, if
-- it shows any, or at most 65535; where it fails, or cannot be started, none are, nor containers or
-- virtual machines, and the usage stays.
pub refresh_lem :
    (bs : List (List ℕ)) (status : ℕ) (l : Licence)
    → ((refresh none l) ≡ record l { cts = 0; vms = 0; ves = 0 })
      × ((refresh (some (bs, suc status)) l) ≡ record l { cts = 0; vms = 0; ves = 0 })
      × (((refresh (some (bs, 0)) l).ves ≡ (read_lines 0 bs nothing).a)
          ⊎ ((refresh (some (bs, 0)) l).ves ≤ nolimit))
unfolding refresh publish
refresh_lem bs status l = (
  refl,
  ground arith,
  bounded (read_lines 0 bs nothing).a
      ((read_lines 0 bs nothing).m.limit + (read_lines 0 bs nothing).v.limit),
)
