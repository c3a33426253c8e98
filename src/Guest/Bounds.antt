-- ===== src/Guest/Bounds.antt =====
-- How much a call of `getLastLine` reads, that its buffer is large enough, and when it is not.
use rmond_drs.Base.{
  ℕ, zero, suc, ◌+◌, ◌*◌, ◌≤◌, ◌<◌, ltb, ◌≡◌, ◌≢◌, refl, ap, subst, List, [], ◌++◌, length,
  length-append, Option, some, arith, ◌⊎◌, inl, inr, Bool-cases,
}
use rmond_drs.Guest.{Connection, aborted, overrun, failed, scan, attempt, get_last_line}
use rmond_drs.Guest.Lines.{Absent, Scanned, scan-Scanned, scan-Absent, Absent-append}
use rmond_drs.Guest.Calls.{stored, full, broken, over, found, goes_on, step}

-- What `scan` keeps is no longer than the bytes.
kept-short : (bs kept : List ℕ) → scan bs ≡ inr kept → length kept ≤ length bs
kept-short bs kept e =
    let (pre, d, s) = subst (Scanned bs) e (scan-Scanned bs) in
    omega (arith, ap length d, length-append {0} pre kept)

attempt-fits :
    (reads : ℕ → Option (List ℕ)) (n left : ℕ) (c : Connection)
    → ((i : ℕ) → length (stored (reads i)) ≤ 1024)
    → (attempt reads n left c).1 ≢ overrun
unfolding attempt
attempt-fits reads n zero c h e = cc
attempt-fits reads n (suc left) c h e = elim (step reads n left c) [
  | full a d ↦ cc
  | broken a d ↦ cc
  | over bs a d g f ↦ ground (arith, h n, length-append {0} c.buffer bs)
  | found bs text a d f ↦ cc
  | goes_on bs kept a d f ↦ attempt-fits reads (suc n) left (record c { buffer = kept }) h (cc)
]

attempt-unaborted :
    (reads : ℕ → Option (List ℕ)) (n left : ℕ) (c : Connection)
    → ((i : ℕ) → length (stored (reads i)) ≤ 1024)
    → length c.buffer + 1024 * left < 4096
    → (attempt reads n left c).1 ≢ aborted
unfolding attempt
attempt-unaborted reads n zero c h l e = cc
attempt-unaborted reads n (suc left) c h l e = elim (step reads n left c) [
  | full a d ↦ ground arith
  | broken a d ↦ cc
  | over bs a d g f ↦ cc
  | found bs text a d f ↦ cc
  | goes_on bs kept a d f ↦
      attempt-unaborted reads (suc n) left (record c { buffer = kept }) h
        (ground (arith, h n, length-append {0} c.buffer bs, kept-short (c.buffer ++ bs) kept d))
        (cc)
]

-- Where no read stores more than 1024 bytes, no byte of a call, and no zero behind them, is stored
-- past the end of the buffer; and the assertion does not fail, unless the buffer held 1024 bytes or
-- more at first.
pub get_last_line-fits :
    (reads : ℕ → Option (List ℕ)) (c : Connection)
    → ((i : ℕ) → length (stored (reads i)) ≤ 1024)
    → ((get_last_line reads c).1 ≢ overrun)
      × ((1024 ≤ length c.buffer) ⊎ ((get_last_line reads c).1 ≢ aborted))
unfolding get_last_line
get_last_line-fits reads c h = (
  attempt-fits reads 0 3 c h,
  elim (Bool-cases (ltb (length c.buffer) 1024)) [
    | inl l ↦ inr (attempt-unaborted reads 0 3 c h (ground (arith, l)))
    | inr l ↦ inl (ground (arith, l))
  ],
)

attempt-same :
    (reads more : ℕ → Option (List ℕ)) (n left : ℕ) (c : Connection)
    → ((i : ℕ) → i < n + left → reads i ≡ more i)
    → attempt reads n left c ≡ attempt more n left c
unfolding attempt
attempt-same reads more n zero c h = refl
attempt-same reads more n (suc left) c h = grind (
  arith,
  h n (omega arith),
  λ (kept : List ℕ).
      attempt-same reads more (suc n) left (record c { buffer = kept })
        (λ i l. h i (omega (arith, l))),
)

-- A call reads three times at most: two pipes that give the same in their first three reads give the
-- same result, and leave the same connection.
pub get_last_line-bounded :
    (reads more : ℕ → Option (List ℕ)) (c : Connection)
    → ((i : ℕ) → i < 3 → reads i ≡ more i)
    → get_last_line reads c ≡ get_last_line more c
unfolding get_last_line
get_last_line-bounded reads more c h = attempt-same reads more 0 3 c h

attempt-kept :
    (reads : ℕ → Option (List ℕ)) (n left : ℕ) (b bs : List ℕ) (errors : ℕ)
    → reads n ≡ some bs
    → length b < 3072
    → length bs ≡ 1024
    → Absent 10 (b ++ bs)
    → attempt reads n (suc left) (record { buffer = b; errors = errors })
      ≡ attempt reads (suc n) left (record { buffer = b ++ bs; errors = errors })
unfolding attempt
attempt-kept reads n left b bs errors r l m a =
    ground (arith, scan-Absent (b ++ bs) a, length-append {0} b bs)

-- A guest that writes 3072 bytes with no new line, in three reads, makes the call after that fail on
-- its assertion, whatever it writes next.
get_last_line-stuck :
    (reads more : ℕ → Option (List ℕ)) (errors : ℕ) (xs ys zs : List ℕ)
    → reads 0 ≡ some xs
    → reads 1 ≡ some ys
    → reads 2 ≡ some zs
    → length xs ≡ 1024
    → length ys ≡ 1024
    → length zs ≡ 1024
    → Absent 10 xs
    → Absent 10 ys
    → Absent 10 zs
    → ((get_last_line reads (record { buffer = []; errors = errors })).1 ≡ failed)
      × ((get_last_line more (get_last_line reads (record { buffer = []; errors = errors })).0).1
          ≡ aborted)
unfolding get_last_line attempt
get_last_line-stuck reads more errors xs ys zs p q r k l m a b c = ground (
  arith,
  attempt-kept reads 0 2 [] xs errors p (omega arith) k a,
  attempt-kept reads 1 1 xs ys errors q (omega (arith, k)) l (Absent-append 10 xs ys a b),
  attempt-kept reads 2 0 (xs ++ ys) zs errors r (omega (arith, k, l, length-append {0} xs ys)) m
      (Absent-append 10 (xs ++ ys) zs (Absent-append 10 xs ys a b) c),
  length-append {0} xs ys,
  length-append {0} (xs ++ ys) zs,
)
