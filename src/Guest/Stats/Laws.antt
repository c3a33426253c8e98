-- ===== src/Guest/Stats/Laws.antt =====
-- What is read of a line that names its values.
use rmond_drs.Base.{
  ℕ, zero, suc, ◌<◌, ◌==◌, ◌≡◌, refl, Bool, true, false, if◌then◌else◌, List, [], ◌∷◌, ◌++◌, All,
  length, length-append, some, inl, inr, Option-cases, arith,
}
use mathlib.Core.List.{append_assoc}
use rmond_drs.License.{uint_mod, is_digit, starts_with, split_at, strtoul}
use rmond_drs.License.Laws.{Decimal, value, strtoul-number}
use rmond_drs.Guest.Lines.{Absent, Absent-append}
use rmond_drs.Guest.Stats.{
  Counters, Property, properties, loadavg_15_name, loadavg_current_existing_name,
  diskstats_ios_in_process_name, diskstats_ms_writing_name, meminfo_pagetables_name,
  meminfo_mapped_name, meminfo_dirty_name, meminfo_sunreclaim_name, meminfo_writeback_name,
  read_property, read_properties, read_words, read_line,
}

-- A name, a number in digits, and what follows the number, such as a fraction.
pub record Entry : Type 0 where
  pub name : List ℕ
  pub first : ℕ
  pub digits : List ℕ
  pub tail : List ℕ

-- Each entry with a colon after the name and a space behind it.
abbrev pub print : List Entry → List ℕ
print [] = []
print (e ∷ es) = (e.name ++ 58 ∷ e.first ∷ (e.digits ++ e.tail)) ++ 32 ∷ print es

abbrev pub Undigit : List ℕ → Type 0
Undigit [] = Unit {0}
Undigit (x ∷ xs) = is_digit x ≡ false

-- No colon and no space is in the name, no space in the tail, and the number is below 2^32.
pub record Readable (e : Entry) : Type 0 where
  pub colon : Absent 58 e.name
  pub space : Absent 32 e.name
  pub number : Decimal (e.first ∷ e.digits)
  pub small : value (e.first ∷ e.digits) < uint_mod
  pub tail : Absent 32 e.tail
  pub ends : Undigit e.tail

-- Every property whose name begins the entry's takes its number.
abbrev pub assign : Entry → List Property → Counters → Counters
assign e [] c = c
assign e (p ∷ ps) c =
    assign e ps (if starts_with e.name p.name then p.put (value (e.first ∷ e.digits)) c else c)

abbrev pub assign_all : List Entry → Counters → Counters
assign_all [] c = c
assign_all (e ∷ es) c = assign_all es (assign e properties c)

split_at-found : (x : ℕ) (xs ys : List ℕ) → Absent x xs → split_at x (xs ++ x ∷ ys) ≡ some (xs, ys)
unfolding split_at
split_at-found x [] ys h = ground arith
split_at-found x (c ∷ xs) ys h = ground (arith, split_at-found x xs ys h.1, h.0)

starts_with-colon :
    (xs ys ps : List ℕ) → Absent 58 ps → starts_with (xs ++ 58 ∷ ys) ps ≡ starts_with xs ps
unfolding starts_with
starts_with-colon [] ys [] h = refl
starts_with-colon [] ys (p ∷ ps) h = ground arith
starts_with-colon (x ∷ xs) ys [] h = refl
starts_with-colon (x ∷ xs) ys (p ∷ ps) h = ground (arith, starts_with-colon xs ys ps h.1)

strtoul-Entry :
    (c : ℕ) (ds tail rest : List ℕ)
    → Decimal (c ∷ ds)
    → value (c ∷ ds) < uint_mod
    → Undigit tail
    → strtoul (c ∷ ((ds ++ tail) ++ 32 ∷ rest)) ≡ value (c ∷ ds)
strtoul-Entry c ds [] rest d l u =
    rw (append_assoc ds [] (32 ∷ rest)) (strtoul-number c 32 ds rest d refl l)
strtoul-Entry c ds (x ∷ tail) rest d l u =
    rw (append_assoc ds (x ∷ tail) (32 ∷ rest)) (strtoul-number c x ds (tail ++ 32 ∷ rest) d u l)

module _ (e : Entry) (rest : List ℕ) (h : Readable e) where
  whole :
      (e.name ++ 58 ∷ e.first ∷ (e.digits ++ e.tail)) ++ 32 ∷ rest
      ≡ e.name ++ 58 ∷ e.first ∷ ((e.digits ++ e.tail) ++ 32 ∷ rest)
  whole = append_assoc e.name (58 ∷ e.first ∷ (e.digits ++ e.tail)) (32 ∷ rest)

  read_property-Entry :
      (p : Property) (c : Counters)
      → Absent 58 p.name
      → read_property ((e.name ++ 58 ∷ e.first ∷ (e.digits ++ e.tail)) ++ 32 ∷ rest) p c
        ≡ (if starts_with e.name p.name then p.put (value (e.first ∷ e.digits)) c else c)
  unfolding read_property
  read_property-Entry p c a =
      rw
        (
          whole,
          starts_with-colon e.name (e.first ∷ ((e.digits ++ e.tail) ++ 32 ∷ rest)) p.name a,
          split_at-found 58 e.name (e.first ∷ ((e.digits ++ e.tail) ++ 32 ∷ rest)) h.colon,
          read_property,
          strtoul-Entry e.first e.digits e.tail rest h.number h.small h.ends,
        )
        refl

  read_properties-Entry :
      (ps : List Property) (c : Counters)
      → All (λ p. Absent 58 p.name) ps
      → read_properties ((e.name ++ 58 ∷ e.first ∷ (e.digits ++ e.tail)) ++ 32 ∷ rest) ps c
        ≡ assign e ps c
  unfolding read_properties
  read_properties-Entry [] c a = refl
  read_properties-Entry (p ∷ ps) c a = rw (read_property-Entry p c a.0) (
      read_properties-Entry ps
        (if starts_with e.name p.name then p.put (value (e.first ∷ e.digits)) c else c) a.1)

Decimal-spaceless : (ds : List ℕ) → Decimal ds → Absent 32 ds
Decimal-spaceless [] d = tt
Decimal-spaceless (c ∷ ds) d = (ground (arith, d.0), Decimal-spaceless ds d.1)

spaceless : (e : Entry) → Readable e → Absent 32 (e.name ++ 58 ∷ e.first ∷ (e.digits ++ e.tail))
spaceless e h = Absent-append 32 e.name (58 ∷ e.first ∷ (e.digits ++ e.tail)) h.space (
  refl,
  (
    (Decimal-spaceless (e.first ∷ e.digits) h.number).0,
    Absent-append 32 e.digits e.tail (Decimal-spaceless (e.first ∷ e.digits) h.number).1 h.tail,
  ),
)

unfoldable pub free : ℕ → List ℕ → Bool
free x [] = true
free x (c ∷ cs) = if c == x then false else free x cs

pub free-Absent : (x : ℕ) (xs : List ℕ) → free x xs ≡ true → Absent x xs
unfolding free
free-Absent x [] e = tt
free-Absent x (c ∷ cs) e = (ground (arith, e), free-Absent x cs (ground (arith, e)))

uncoloned : All (λ p. Absent 58 p.name) properties
unfolding properties free
uncoloned = (
  free-Absent 58 loadavg_15_name refl,
  (
    free-Absent 58 loadavg_current_existing_name refl,
    (
      free-Absent 58 diskstats_ios_in_process_name refl,
      (
        free-Absent 58 diskstats_ms_writing_name refl,
        (
          free-Absent 58 meminfo_pagetables_name refl,
          (
            free-Absent 58 meminfo_mapped_name refl,
            (
              free-Absent 58 meminfo_dirty_name refl,
              (
                free-Absent 58 meminfo_sunreclaim_name refl,
                (free-Absent 58 meminfo_writeback_name refl, tt),
              ),
            ),
          ),
        ),
      ),
    ),
  ),
)

read_properties-nil : (c : Counters) → read_properties [] properties c ≡ c
unfolding read_properties properties read_property starts_with
read_properties-nil c = refl

split_at-shorter :
    (x : ℕ) (b : List ℕ) (q : List ℕ × List ℕ) → split_at x b ≡ some q → length q.1 < length b
unfolding split_at
split_at-shorter x [] q e = ground (arith, e)
split_at-shorter x (c ∷ cs) q e = elim (Option-cases (split_at x cs)) [
  | inl n ↦ ground (arith, e, n)
  | inr (p, h) ↦ ground (arith, e, h, split_at-shorter x cs p h)
]

-- One step more than a line has characters is enough for the loop over it: more change nothing.
read_words_enough :
    (n : ℕ) (b : List ℕ) (c : Counters) → length b < n → read_words n b c ≡ read_words (suc n) b c
unfolding read_words
read_words_enough zero b c l = absurd (omega (arith, l))
read_words_enough (suc n) b c l = elim (Option-cases (split_at 32 b)) [
  | inl e ↦ rw (read_words, e) refl
  | inr (q, e) ↦
      rw (read_words, e)
        (read_words_enough n q.1 (read_properties b properties c)
          (omega (arith, l, split_at-shorter 32 b q e)))
]

read_words-print :
    (n : ℕ) (es : List Entry) (c : Counters)
    → All Readable es
    → length (print es) < n
    → read_words n (print es) c ≡ assign_all es c
unfolding read_words
read_words-print zero es c h l = absurd (omega (arith, l))
read_words-print (suc n) [] c h l = read_properties-nil c
read_words-print (suc n) (e ∷ es) c h l =
    rw
      (
        split_at-found 32 (e.name ++ 58 ∷ e.first ∷ (e.digits ++ e.tail)) (print es)
            (spaceless e h.0),
        read_words,
        read_properties-Entry e (print es) h.0 properties c uncoloned,
      )
      (read_words-print n es (assign e properties c) h.1 (
        omega (
          arith,
          l,
          length-append {0} (e.name ++ 58 ∷ e.first ∷ (e.digits ++ e.tail)) (32 ∷ print es),
        )))

-- A line of entries, each a name, a colon, a number in digits below 2^32, perhaps more after it, and a
-- space, gives every property whose name begins an entry's the number of that entry, the last one
-- where several do, and changes nothing else.
pub read_line-print :
    (es : List Entry) (c : Counters) → All Readable es → read_line (print es) c ≡ assign_all es c
unfolding read_line
read_line-print es c h = read_words-print (suc (length (print es))) es c h (omega arith)
