-- ===== src/Guest/Calls.antt =====
-- What a call of `getLastLine` returns.
use rmond_drs.Base.{
  ℕ, zero, suc, ◌≤◌, ◌<◌, ltb, ◌≡◌, refl, ap, subst, sym, ◌∙◌, true, false, List, [], ◌∷◌, ◌++◌,
  length, length-append, Option, none, some, arith, ◌⊎◌, inl, inr, Option-cases, Bool-cases,
}
use mathlib.Core.List.{append_assoc, append-nil}
use rmond_drs.Guest.{
  Connection, Result, aborted, overrun, failed, line, scan, attempt, get_last_line,
}
use rmond_drs.Guest.Lines.{
  Absent, Starts, LastLine, LastLine-append, Scanned, scan-Scanned, scan-found,
}

-- What the pipe gave in k reads from the n-th.
abbrev pub stored : Option (List ℕ) → List ℕ
stored none = []
stored (some bs) = bs

abbrev pub received : (ℕ → Option (List ℕ)) → ℕ → ℕ → List ℕ
received reads n zero = []
received reads n (suc k) = stored (reads n) ++ received reads (suc n) k

-- An attempt with a fault left: how it ends, or how it goes on.
pub data Step (reads : ℕ → Option (List ℕ)) (n left : ℕ) (c : Connection) : Type 0 where
  full :
      ltb (length c.buffer) 3072 ≡ false
      → attempt reads n (suc left) c ≡ (c, aborted)
      → Step reads n left c
  broken :
      reads n ≡ none
      → attempt reads n (suc left) c ≡ (record c { errors = suc c.errors }, failed)
      → Step reads n left c
  over :
      (bs : List ℕ)
      → ltb (length c.buffer) 3072 ≡ true
      → reads n ≡ some bs
      → ltb (length (c.buffer ++ bs)) 4096 ≡ false
      → attempt reads n (suc left) c ≡ (c, overrun)
      → Step reads n left c
  found :
      (bs text : List ℕ)
      → reads n ≡ some bs
      → scan (c.buffer ++ bs) ≡ inl text
      → attempt reads n (suc left) c ≡ (record { buffer = []; errors = 0 }, line text)
      → Step reads n left c
  goes_on :
      (bs kept : List ℕ)
      → reads n ≡ some bs
      → scan (c.buffer ++ bs) ≡ inr kept
      → attempt reads n (suc left) c ≡ attempt reads (suc n) left (record c { buffer = kept })
      → Step reads n left c

scan-cases :
    (bs : List ℕ)
    → ((text : List ℕ) × (scan bs ≡ inl text)) ⊎ ((kept : List ℕ) × (scan bs ≡ inr kept))
scan-cases bs = cases (scan bs) refl
  where
    cases :
        (o : List ℕ ⊎ List ℕ)
        → scan bs ≡ o
        → ((text : List ℕ) × (scan bs ≡ inl text)) ⊎ ((kept : List ℕ) × (scan bs ≡ inr kept))
    cases (inl text) e = inl (text, e)
    cases (inr kept) e = inr (kept, e)

attempt-found :
    (reads : ℕ → Option (List ℕ)) (n left : ℕ) (c : Connection) (bs text : List ℕ)
    → reads n ≡ some bs
    → ltb (length c.buffer) 3072 ≡ true
    → ltb (length (c.buffer ++ bs)) 4096 ≡ true
    → scan (c.buffer ++ bs) ≡ inl text
    → attempt reads n (suc left) c ≡ (record { buffer = []; errors = 0 }, line text)
unfolding attempt
attempt-found reads n left c bs text r l m f = rw (l, r, m, f, attempt) refl

pub step : (reads : ℕ → Option (List ℕ)) (n left : ℕ) (c : Connection) → Step reads n left c
unfolding attempt
step reads n left c = elim (Bool-cases (ltb (length c.buffer) 3072)) [
  | inr e ↦ full e (rw (e, attempt) refl)
  | inl e ↦ elim (Option-cases (reads n)) [
    | inl d ↦ broken d (rw (e, d, attempt) refl)
    | inr (bs, d) ↦ elim (Bool-cases (ltb (length (c.buffer ++ bs)) 4096)) [
      | inr g ↦ over bs e d g (rw (e, d, g, attempt) refl)
      | inl g ↦ elim (scan-cases (c.buffer ++ bs)) [
        | inl (text, f) ↦ found bs text d f (attempt-found reads n left c bs text d e g f)
        | inr (kept, f) ↦ goes_on bs kept d f (rw (e, d, g, f, attempt) refl)
      ]
    ]
  ]
]

pub line_unique : (s t : List ℕ) → line s ≡ line t → s ≡ t
line_unique s t e = cc

-- A line among the bytes that were kept is a line among all.
resumed :
    (reads : ℕ → Option (List ℕ)) (n k : ℕ) (buffer bs kept text : List ℕ)
    → reads n ≡ some bs
    → Scanned (buffer ++ bs) (inr kept)
    → LastLine (kept ++ received reads (suc n) k) text
    → LastLine (buffer ++ received reads n (suc k)) text
resumed reads n k buffer bs kept text a (pre, g, s) r =
    subst (λ b. LastLine b text)
      (sym (append_assoc pre kept more)
        ∙ ap (λ b. b ++ more) (sym g)
        ∙ append_assoc buffer bs more
        ∙ ap (λ o. buffer ++ (stored o ++ more)) (sym a))
      (LastLine-append pre (kept ++ more) text s r)
  where
    more : List ℕ
    more = received reads (suc n) k

attempt-line :
    (reads : ℕ → Option (List ℕ)) (n left : ℕ) (c : Connection) (text : List ℕ)
    → (attempt reads n left c).1 ≡ line text
    → (k : ℕ) × (k ≤ left) × LastLine (c.buffer ++ received reads n k) text
unfolding attempt
attempt-line reads n zero c text e = absurd (cc)
attempt-line reads n (suc left) c text e = elim (step reads n left c) [
  | full a d ↦ absurd (cc)
  | broken a d ↦ absurd (cc)
  | over bs a d g f ↦ absurd (cc)
  | found bs t a d f ↦ (
    1,
    omega arith,
    subst (λ b. LastLine b text)
        (ap (◌++◌ c.buffer) (sym (append-nil bs) ∙ ap (λ o. stored o ++ []) (sym a)))
        (subst (LastLine (c.buffer ++ bs)) (line_unique t text (cc))
          (subst (Scanned (c.buffer ++ bs)) d (scan-Scanned (c.buffer ++ bs)))),
  )
  | goes_on bs kept a d f ↦
      let (k, l, r) = attempt-line reads (suc n) left (record c { buffer = kept }) text (cc) in
      (
        suc k,
        omega (arith, l),
        resumed reads n k c.buffer bs kept text a
            (subst (Scanned (c.buffer ++ bs)) d (scan-Scanned (c.buffer ++ bs))) r,
      )
]

-- A line that a call returns is, for some number of its reads, the last line of the bytes that the
-- buffer held and those reads gave: it has no new line in it, it stands at the start of the bytes or
-- after a new line, and a new line, and then nothing or a zero, follows it.
pub get_last_line-LastLine :
    (reads : ℕ → Option (List ℕ)) (c : Connection) (text : List ℕ)
    → (get_last_line reads c).1 ≡ line text
    → (k : ℕ) × (k ≤ 3) × LastLine (c.buffer ++ received reads 0 k) text
unfolding get_last_line
get_last_line-LastLine reads c text e = attempt-line reads 0 3 c text e

-- Where there is room for a read, and the bytes of the buffer and of the first read have no zero and
-- end in a new line, the call returns their last line, and leaves an empty buffer and no errors.
pub get_last_line-whole :
    (reads : ℕ → Option (List ℕ)) (c : Connection) (bs pre text : List ℕ)
    → reads 0 ≡ some bs
    → length c.buffer < 3072
    → length bs ≤ 1024
    → c.buffer ++ bs ≡ pre ++ (text ++ 10 ∷ [])
    → Starts pre
    → Absent 0 pre
    → Absent 0 text
    → Absent 10 text
    → get_last_line reads c ≡ (record { buffer = []; errors = 0 }, line text)
unfolding get_last_line
get_last_line-whole reads c bs pre text r l m e s z y a =
    attempt-found reads 0 2 c bs text r (ground (arith, l))
      (ground (arith, l, m, length-append {0} c.buffer bs))
      (ap scan e ∙ scan-found pre text s z y a)

-- How a call counts: a failure adds one to the errors, and a line sets them to none.
abbrev pub Counted : Connection → Connection → Result → Type 0
Counted c d aborted = d.errors ≡ c.errors
Counted c d overrun = d.errors ≡ c.errors
Counted c d failed = d.errors ≡ suc c.errors
Counted c d (line text) = d.errors ≡ 0

attempt-errors :
    (reads : ℕ → Option (List ℕ)) (n left : ℕ) (c : Connection)
    → Counted c (attempt reads n left c).0 (attempt reads n left c).1
unfolding attempt
attempt-errors reads n zero c = refl
attempt-errors reads n (suc left) c = elim (step reads n left c) [
  | full a d ↦ rw d refl
  | broken a d ↦ rw d refl
  | over bs a d g f ↦ rw f refl
  | found bs t a d f ↦ rw f refl
  | goes_on bs kept a d f ↦ rw f (attempt-errors reads (suc n) left (record c { buffer = kept }))
]

pub get_last_line-errors :
    (reads : ℕ → Option (List ℕ)) (c : Connection)
    → Counted c (get_last_line reads c).0 (get_last_line reads c).1
unfolding get_last_line
get_last_line-errors reads c = attempt-errors reads 0 3 c
