-- ===== src/Guest/Lines.antt =====
-- `strrchr`, and what the last line of a text is.
use rmond_drs.Base.{
  ℕ, ◌==◌, ◌≡◌, refl, ap, subst, sym, ◌∙◌, true, false, List, [], ◌∷◌, ◌++◌, All, Option, none,
  some, arith, ==_iff, ◌⊎◌, inl, inr, Option-cases, Bool-cases,
}
use mathlib.Core.List.{append_assoc, append-nil}
use rmond_drs.Guest.{last_at, last_line, ended, scan}

abbrev pub Absent : ℕ → List ℕ → Type 0
Absent x bs = All (λ c. (c == x) ≡ false) bs

last_at-Absent : (x : ℕ) (bs : List ℕ) → Absent x bs → last_at x bs ≡ none
unfolding last_at
last_at-Absent x [] h = refl
last_at-Absent x (c ∷ cs) h = ground (arith, last_at-Absent x cs h.1, h.0)

last_at-found :
    (x : ℕ) (pre post : List ℕ)
    → (x == 0) ≡ false
    → Absent 0 pre
    → Absent x post
    → last_at x (pre ++ x ∷ post) ≡ some (pre, post)
unfolding last_at
last_at-found x [] post e h g = ground (arith, last_at-Absent x post g, e)
last_at-found x (c ∷ pre) post e h g = ground (arith, last_at-found x pre post e h.1 g, h.0)

last_at-none : (x : ℕ) (bs : List ℕ) → last_at x bs ≡ none → Absent 0 bs → Absent x bs
unfolding last_at
last_at-none x [] e h = tt
last_at-none x (c ∷ cs) e h = elim (Option-cases (last_at x cs)) [
  | inl d ↦ (ground (arith, d, h.0), last_at-none x cs d h.1)
  | inr (p, d) ↦ absurd (ground (arith, d, h.0))
]

-- What `last_at` splits is the text; before the character there is no zero, and after it, where there
-- is no zero, not the character either.
abbrev pub Splits : ℕ → List ℕ → Option (List ℕ × List ℕ) → Type 0
Splits x bs none = Unit {0}
Splits x bs (some p) = (bs ≡ p.0 ++ x ∷ p.1) × Absent 0 p.0 × (Absent 0 p.1 → Absent x p.1)

last_at-step :
    (x c : ℕ) (cs : List ℕ) (o : Option (List ℕ × List ℕ))
    → last_at x cs ≡ o
    → Splits x cs o
    → Splits x (c ∷ cs) (last_at x (c ∷ cs))
unfolding last_at
last_at-step x c cs none d h = elim (Bool-cases (c == 0)) [
  | inl z ↦ rw z tt
  | inr z ↦ elim (Bool-cases (c == x)) [
    | inl y ↦ rw (z, d, y) (ap (λ a. a ∷ cs) ((==_iff c x).0 y), tt, last_at-none x cs d)
    | inr y ↦ rw (z, d, y) tt
  ]
]
last_at-step x c cs (some p) d h = elim (Bool-cases (c == 0)) [
  | inl z ↦ rw z tt
  | inr z ↦ rw (z, d) (ap (◌∷◌ c) h.0, (z, h.1), h.2)
]

last_at-Splits : (x : ℕ) (bs : List ℕ) → Splits x bs (last_at x bs)
unfolding last_at
last_at-Splits x [] = tt
last_at-Splits x (c ∷ cs) = last_at-step x c cs (last_at x cs) refl (last_at-Splits x cs)

-- A text begins a line: nothing is before it, or the end of another line.
abbrev pub Starts : List ℕ → Type 0
Starts pre = (pre ≡ []) ⊎ ((q : List ℕ) × (pre ≡ q ++ 10 ∷ []))

-- The text is a whole line of the bytes, and a zero, or nothing, follows it.
abbrev pub LastLine : List ℕ → List ℕ → Type 0
LastLine bytes text =
    (pre : List ℕ) × (rest : List ℕ) × (bytes ≡ pre ++ (text ++ 10 ∷ rest))
    × Starts pre
    × Absent 10 text
    × (ended rest ≡ true)

Starts-append : (pre ys : List ℕ) → Starts pre → Starts ys → Starts (pre ++ ys)
Starts-append pre ys s (inl e) = rw (e, append-nil pre) s
Starts-append pre ys s (inr (q, e)) = inr (pre ++ q, rw e (sym (append_assoc pre q (10 ∷ []))))

pub LastLine-append :
    (pre ys text : List ℕ) → Starts pre → LastLine ys text → LastLine (pre ++ ys) text
LastLine-append pre ys text s (q, rest, e, l, a, r) = (
  pre ++ q,
  rest,
  rw e (sym (append_assoc pre q (text ++ 10 ∷ rest))),
  Starts-append pre q s l,
  a,
  r,
)

-- What `scan` finds in the bytes: a line, or what it keeps from the start of a line.
abbrev pub Scanned : List ℕ → List ℕ ⊎ List ℕ → Type 0
Scanned bytes (inl text) = LastLine bytes text
Scanned bytes (inr kept) = (pre : List ℕ) × (bytes ≡ pre ++ kept) × Starts pre

Absent-right : (x : ℕ) (xs ys : List ℕ) → Absent x (xs ++ ys) → Absent x ys
Absent-right x [] ys h = h
Absent-right x (c ∷ xs) ys h = Absent-right x xs ys h.1

Absent-left : (x : ℕ) (xs ys : List ℕ) → Absent x (xs ++ ys) → Absent x xs
Absent-left x [] ys h = tt
Absent-left x (c ∷ xs) ys h = (h.0, Absent-left x xs ys h.1)

join : (x : ℕ) (xs ys : List ℕ) → xs ++ x ∷ ys ≡ (xs ++ x ∷ []) ++ ys
join x xs ys = sym (append_assoc xs (x ∷ []) ys)

last_line-step :
    (bs rest : List ℕ) (o : Option (List ℕ × List ℕ))
    → last_at 10 bs ≡ o
    → Splits 10 bs o
    → Absent 0 bs
    → ended rest ≡ true
    → LastLine (bs ++ 10 ∷ rest) (last_line bs)
unfolding last_line
last_line-step bs rest none d h z r =
    rw (d, last_line) ([], rest, refl, inl refl, last_at-none 10 bs d z, r)
last_line-step bs rest (some p) d h z r =
    rw (d, last_line)
      (
        p.0 ++ 10 ∷ [],
        rest,
        rw (h.0, append_assoc p.0 (10 ∷ p.1) (10 ∷ rest)) (join 10 p.0 (p.1 ++ 10 ∷ rest)),
        inr (p.0, refl),
        h.2 (Absent-right 0 (p.0 ++ 10 ∷ []) p.1 (subst (Absent 0) (h.0 ∙ join 10 p.0 p.1) z)),
        r,
      )

scan-step :
    (bs : List ℕ) (o : Option (List ℕ × List ℕ))
    → last_at 10 bs ≡ o
    → Splits 10 bs o
    → Scanned bs (scan bs)
unfolding scan
scan-step bs none d h = rw (d, scan) ([], refl, inl refl)
scan-step bs (some p) d h = elim (Bool-cases (ended p.1)) [
  | inl e ↦
      rw (d, scan, e, h.0)
        (last_line-step p.0 p.1 (last_at 10 p.0) refl (last_at-Splits 10 p.0) h.1 e)
  | inr e ↦ rw (d, scan, e) (p.0 ++ 10 ∷ [], h.0 ∙ join 10 p.0 p.1, inr (p.0, refl))
]

pub scan-Scanned : (bs : List ℕ) → Scanned bs (scan bs)
scan-Scanned bs = scan-step bs (last_at 10 bs) refl (last_at-Splits 10 bs)

pub Absent-append : (x : ℕ) (xs ys : List ℕ) → Absent x xs → Absent x ys → Absent x (xs ++ ys)
Absent-append x [] ys h g = g
Absent-append x (c ∷ xs) ys h g = (h.0, Absent-append x xs ys h.1 g)

last_line-Absent : (text : List ℕ) → Absent 10 text → last_line text ≡ text
unfolding last_line
last_line-Absent text a = rw (last_at-Absent 10 text a, last_line) refl

last_line-Starts :
    (pre text : List ℕ)
    → Starts pre
    → Absent 0 pre
    → Absent 10 text
    → last_line (pre ++ text) ≡ text
unfolding last_line
last_line-Starts pre text (inl e) z a = ap (λ p. last_line (p ++ text)) e ∙ last_line-Absent text a
last_line-Starts pre text (inr (q, e)) z a =
    rw
      (
        e,
        append_assoc q (10 ∷ []) text,
        last_at-found 10 q text refl (Absent-left 0 q (10 ∷ []) (subst (Absent 0) e z)) a,
        last_line,
      )
      refl

-- Bytes that end in a line are that line.
pub scan-found :
    (pre text : List ℕ)
    → Starts pre
    → Absent 0 pre
    → Absent 0 text
    → Absent 10 text
    → scan (pre ++ (text ++ 10 ∷ [])) ≡ inl text
unfolding scan
scan-found pre text s z y a =
    rw
      (
        sym (append_assoc pre text (10 ∷ [])),
        last_at-found 10 (pre ++ text) [] refl (Absent-append 0 pre text z y) tt,
        scan,
        last_line-Starts pre text s z a,
      )
      refl

-- Bytes with no new line are kept.
pub scan-Absent : (bs : List ℕ) → Absent 10 bs → scan bs ≡ inr bs
unfolding scan
scan-Absent bs a = rw (last_at-Absent 10 bs a, scan) refl
