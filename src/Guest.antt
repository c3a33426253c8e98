-- ===== src/Guest.antt =====
-- `ConnectionToVM` of src/ve.cpp: the pipe from the program that runs in a guest, and the last line
-- that it wrote. Characters are their codes, and 10 ends a line.
pub mod Lines
pub mod Bounds
pub mod Calls
pub mod Handles
pub mod Stats
use rmond_drs.Base.{
  ℕ, zero, suc, ltb, Bool, true, false, ◌==◌, if◌then◌else◌, List, [], ◌∷◌, ◌++◌, Option, none,
  some, length, ◌⊎◌, inl, inr, ◌-◌,
}

-- What stays between calls: `buffer` up to `readBytes`, and `errors`.
pub record Connection : Type 0 where
  pub buffer : List ℕ
  pub errors : ℕ

abbrev pub read_size : ℕ
read_size = 1024

abbrev pub buffer_size : ℕ
buffer_size = 4096

abbrev pub max_faults : ℕ
max_faults = 3

-- What a call gives: the assertion fails, or a store is past the end of the buffer, or it returns
-- NULL, or a line.
pub data Result : Type 0 where
  aborted overrun failed : Result
  line : List ℕ → Result

-- `strrchr` of the text that ends at the first zero: what stands before the character, and all the
-- bytes of the buffer after it.
unfoldable pub last_at : ℕ → List ℕ → Option (List ℕ × List ℕ)
last_at x [] = none
last_at x (c ∷ cs) =
    let rest = last_at x cs in
    if c == 0
    then none
    else elim rest [ some p ↦ some (c ∷ p.0, p.1) | none ↦ if c == x then some ([], cs) else none ]

-- `*p == '\0'`, with the zero behind the buffer.
abbrev pub ended : List ℕ → Bool
ended [] = true
ended (c ∷ cs) = c == 0

-- The text between the last two new lines.
unfoldable pub last_line : List ℕ → List ℕ
unfolding last_at
last_line text = elim (last_at 10 text) [ none ↦ text | some p ↦ p.1 ]

-- What is done with the bytes in the buffer: a line, or what the buffer keeps.
unfoldable pub scan : List ℕ → List ℕ ⊎ List ℕ
unfolding last_at last_line
scan bytes = elim (last_at 10 bytes) [
  | none ↦ inr bytes
  | some p ↦ if ended p.1 then inl (last_line p.0) else inr p.1
]

-- `getLastLine` with so many faults left; `reads n` is what the n-th `read` of the pipe stores, and
-- `none` is -1.
unfoldable pub attempt : (ℕ → Option (List ℕ)) → ℕ → ℕ → Connection → Connection × Result
unfolding scan
attempt reads n zero c = (record c { errors = suc c.errors }, failed)
attempt reads n (suc left) c =
    if ltb (length c.buffer) (buffer_size - read_size)
    then elim (reads n) [
      | none ↦ (record c { errors = suc c.errors }, failed)
      | some bs ↦
          if ltb (length (c.buffer ++ bs)) buffer_size
          then elim (scan (c.buffer ++ bs)) [
            | inl text ↦ (record { buffer = []; errors = 0 }, line text)
            | inr kept ↦ attempt reads (suc n) left (record c { buffer = kept })
          ]
          else (c, overrun)
    ]
    else (c, aborted)

-- `ConnectionToVM::getLastLine`.
unfoldable pub get_last_line : (ℕ → Option (List ℕ)) → Connection → Connection × Result
unfolding attempt
get_last_line reads c = attempt reads 0 max_faults c

-- `ConnectionToVM::lostSignal`.
unfoldable pub lost_signal : Connection → Bool
lost_signal c = c.errors == max_faults
