-- ===== src/Proc/Laws.antt =====
-- What is read of the interrupts.
use rmond_drs.Base.{
  ℕ, zero, suc, ◌+◌, ◌*◌, ◌-◌, ◌^◌, ◌<◌, ◌≤◌, ◌≡◌, refl, ap, sym, ◌∙◌, List, [], ◌∷◌, ◌++◌, map,
  All, length, Option, none, some, arith,
}
use rmond_drs.License.{digits}
use rmond_drs.License.Laws.{Decimal, value, shift_power}
use rmond_drs.Transport.Decimal.{decimal, Shown, decimal-Shown}
use rmond_drs.Proc.{after_digits, int_word, read_int, read_ints, intr}

digits-Decimal :
    (acc : ℕ) (ds : List ℕ) → Decimal ds → digits acc ds ≡ acc * 10 ^ length ds + value ds
unfolding digits
digits-Decimal acc [] d = omega arith
digits-Decimal acc (c ∷ ds) d =
    rw d.0 (
      digits-Decimal (acc * 10 + (c - 48)) ds d.1 ∙ shift_power acc (c - 48) (length ds) (value ds))

after_digits-Decimal : (ds : List ℕ) → Decimal ds → after_digits ds ≡ []
unfolding after_digits
after_digits-Decimal [] d = refl
after_digits-Decimal (c ∷ ds) d = rw (d.0, after_digits-Decimal ds d.1) refl

int_word-Shown :
    (n : ℕ) (ws : List (List ℕ)) (text : List ℕ)
    → Shown n text
    → (n < 2147483648 → int_word text ws ≡ (n, some ws))
      × (2147483648 ≤ n → int_word text ws ≡ (2147483647, none))
unfolding int_word
int_word-Shown n ws text (c, ds, e, d, v) = (
  λ l.
      rw e
        (ground (arith, l, v, d.0, digits-Decimal 0 (c ∷ ds) d, after_digits-Decimal (c ∷ ds) d)),
  λ l.
      rw e
        (ground (arith, l, v, d.0, digits-Decimal 0 (c ∷ ds) d, after_digits-Decimal (c ∷ ds) d)),
)

read_int-decimal :
    (n old : ℕ) (ws : List (List ℕ))
    → (n < 2147483648 → read_int old (some (decimal n ∷ ws)) ≡ (n, some ws))
      × (2147483648 ≤ n → read_int old (some (decimal n ∷ ws)) ≡ (2147483647, none))
unfolding read_int
read_int-decimal n old ws = int_word-Shown n ws (decimal n) (decimal-Shown n)

read_ints-failed : (k old : ℕ) → read_ints k old none ≡ old
unfolding read_ints read_int
read_ints-failed zero old = refl
read_ints-failed (suc k) old = read_ints-failed k old

read_ints-step :
    (k old x : ℕ) (s rest : Option (List (List ℕ)))
    → read_int old s ≡ (x, rest)
    → read_ints (suc k) old s ≡ read_ints k x rest
unfolding read_ints
read_ints-step k old x s rest e = ap (λ r. read_ints k r.0 r.1) e

-- The last of some numbers.
abbrev pub last_of : ℕ → List ℕ → ℕ
last_of old [] = old
last_of old (n ∷ ns) = last_of n ns

read_ints-last :
    (old : ℕ) (ns : List ℕ) (ws : List (List ℕ))
    → All (λ n. n < 2147483648) ns
    → read_ints (length ns) old (some (map decimal ns ++ ws)) ≡ last_of old ns
unfolding read_ints
read_ints-last old [] ws h = refl
read_ints-last old (n ∷ ns) ws h =
    read_ints-step (length ns) old n (some (decimal n ∷ (map decimal ns ++ ws)))
      (some (map decimal ns ++ ws)) ((read_int-decimal n old (map decimal ns ++ ws)).0 h.0)
    ∙ read_ints-last n ns ws h.1

-- Of a line of interrupts that begins with 48 numbers below 2^31, the sum of all and then 47 single
-- ones, the last of these is read.
pub intr-last :
    (old : ℕ) (ns : List ℕ) (ws : List (List ℕ))
    → length ns ≡ 48
    → All (λ n. n < 2147483648) ns
    → intr (map decimal ns ++ ws) old ≡ last_of old ns
unfolding intr
intr-last old ns ws l h =
    ap (λ k. read_ints k old (some (map decimal ns ++ ws))) (sym l) ∙ read_ints-last old ns ws h

-- Where the sum of all interrupts is 2^31 or more, 2147483647 is read, whatever the single ones are.
intr-overflow :
    (old n : ℕ) (ws : List (List ℕ)) → 2147483648 ≤ n → intr (decimal n ∷ ws) old ≡ 2147483647
unfolding intr
intr-overflow old n ws g =
    read_ints-step 47 old 2147483647 (some (decimal n ∷ ws)) none ((read_int-decimal n old ws).1 g)
    ∙ read_ints-failed 47 2147483647
