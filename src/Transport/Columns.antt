-- ===== src/Transport/Columns.antt =====
-- The names of the columns that typeperf prints.
use rmond_drs.Base.{
  ℕ, zero, suc, ◌-◌, ◌<◌, ap, ◌∙◌, ◌==◌, ◌≡◌, refl, Bool, true, if◌then◌else◌, List, [], ◌∷◌, ◌++◌,
  All, length, arith, ok, fault, Bool-cases, inl, inr,
}
use mathlib.Core.List.{append_assoc}
use rmond_drs.Guest.Lines.{Absent}
use rmond_drs.Transport.Windows.{after_backslashes, letters, copied, alpha_strcpy}

-- How many backslashes a text has.
abbrev pub backslashes : List ℕ → ℕ
backslashes [] = 0
backslashes (c ∷ cs) = if c == 92 then suc (backslashes cs) else backslashes cs

-- A text with too few backslashes is passed over, and the search goes on behind it.
after_backslashes-few :
    (n : ℕ) (src more : List ℕ)
    → backslashes src < n
    → after_backslashes n (src ++ more) ≡ after_backslashes (n - backslashes src) more
unfolding after_backslashes
after_backslashes-few zero src more l = absurd (omega (arith, l))
after_backslashes-few (suc n) [] more l =
    let e : suc n ≡ suc n - 0 = omega arith in ap (λ m. after_backslashes m more) e
after_backslashes-few (suc n) (c ∷ src) more l =
    ground (arith, l, after_backslashes-few n src more, after_backslashes-few (suc n) src more)

after_backslashes-gone :
    (n : ℕ) (src : List ℕ) → backslashes src < n → after_backslashes n src ≡ fault
unfolding after_backslashes
after_backslashes-gone zero src l = absurd (omega (arith, l))
after_backslashes-gone (suc n) [] l = refl
after_backslashes-gone (suc n) (c ∷ src) l =
    ground (arith, l, after_backslashes-gone n src, after_backslashes-gone (suc n) src)

after_backslashes-skip :
    (n : ℕ) (xs rest : List ℕ)
    → Absent 92 xs
    → after_backslashes (suc n) (xs ++ 92 ∷ rest) ≡ after_backslashes n rest
unfolding after_backslashes
after_backslashes-skip n [] rest h = refl
after_backslashes-skip n (c ∷ xs) rest h = ground (arith, after_backslashes-skip n xs rest h.1, h.0)

letters-All :
    (is_alpha : ℕ → Bool) (cs : List ℕ) → All (λ c. is_alpha c ≡ true) (letters is_alpha cs)
unfolding letters
letters-All is_alpha [] = tt
letters-All is_alpha (c ∷ cs) = elim (Bool-cases (c == 0)) [
  | inl z ↦ rw z tt
  | inr z ↦ elim (Bool-cases (is_alpha c)) [
    | inl e ↦ rw (z, e) (e, letters-All is_alpha cs)
    | inr e ↦ rw (z, e) (letters-All is_alpha cs)
  ]
]

letters-end :
    (is_alpha : ℕ → Bool) (cs behind : List ℕ)
    → Absent 0 cs
    → letters is_alpha (cs ++ 0 ∷ behind) ≡ letters is_alpha cs
unfolding letters
letters-end is_alpha [] behind h = refl
letters-end is_alpha (c ∷ cs) behind h = ground (arith, h.0, letters-end is_alpha cs behind h.1)

copied-name :
    (is_alpha : ℕ → Bool) (rest behind : List ℕ)
    → Absent 0 rest
    → length (letters is_alpha rest) < 50
    → copied is_alpha (ok (rest ++ 0 ∷ behind)) ≡ ok (letters is_alpha rest)
unfolding copied
copied-name is_alpha rest behind z l = rw (letters-end is_alpha rest behind z) (ground (arith, l))

-- The name of a column is what follows its third backslash up to its end, only the letters of it, where
-- fewer than 50 are left. But a column with fewer than three backslashes is passed over: the other
-- backslashes are looked for in what stands behind it, whose letters become the name, and where too
-- few stand there, the reading goes past all that can be read.
pub alpha_strcpy_lem :
    (is_alpha : ℕ → Bool) (host group object rest behind src gone : List ℕ)
    → Absent 92 host
    → Absent 92 group
    → Absent 92 object
    → Absent 0 rest
    → length (letters is_alpha rest) < 50
    → backslashes src < 3
    → backslashes (src ++ 0 ∷ gone) < 3
    → (alpha_strcpy is_alpha (host ++ 92 ∷ (group ++ 92 ∷ (object ++ 92 ∷ rest))) behind
        ≡ ok (letters is_alpha rest))
      × All (λ c. is_alpha c ≡ true) (letters is_alpha rest)
      × (alpha_strcpy is_alpha src behind
          ≡ copied is_alpha (after_backslashes (3 - backslashes src) (0 ∷ behind)))
      × (alpha_strcpy is_alpha src gone ≡ fault)
unfolding alpha_strcpy
alpha_strcpy_lem is_alpha host group object rest behind src gone a b c z l f g = (
  ap (copied is_alpha) (
        ap (after_backslashes 3) (
          append_assoc host (92 ∷ (group ++ 92 ∷ (object ++ 92 ∷ rest))) (0 ∷ behind)
          ∙ ap (λ w. host ++ 92 ∷ w)
              (append_assoc group (92 ∷ (object ++ 92 ∷ rest)) (0 ∷ behind)
                ∙ ap (λ w. group ++ 92 ∷ w) (append_assoc object (92 ∷ rest) (0 ∷ behind))))
        ∙ after_backslashes-skip 2 host _ a
        ∙ after_backslashes-skip 1 group _ b
        ∙ after_backslashes-skip 0 object _ c
        ∙ unfold after_backslashes in refl)
      ∙ copied-name is_alpha rest behind z l,
  letters-All is_alpha rest,
  ap (copied is_alpha) (after_backslashes-few 3 src (0 ∷ behind) f),
  ap (copied is_alpha) (after_backslashes-gone 3 (src ++ 0 ∷ gone) g) ∙ unfold copied in refl,
)
