-- ===== src/Transport/Windows.antt =====
-- guest-transport/win_transport.c: the counters that typeperf prints. A comma separates its columns,
-- and quotes stand around them. What `isalpha` tells and `sscanf` converts is given.
use rmond_drs.Base.{
  ℕ, zero, suc, ltb, ◌==◌, Bool, true, false, ◌||◌, if◌then◌else◌, List, [], ◌∷◌, ◌++◌, map, Option,
  none, some, Outcome, ok, fault, ◌>>=◌, length,
}

-- `TOTAL_WINDOWS_STATS`, the length of a name, and that of the buffer of `get_stats`.
abbrev pub total : ℕ
total = 28

abbrev pub name_size : ℕ
name_size = 50

abbrev pub buffer_size : ℕ
buffer_size = 1024

-- The first loop of `alpha_strcpy`, which looks for so many backslashes; it does not stop at the zero
-- that ends the text, and faults only past all that can be read.
unfoldable pub after_backslashes : ℕ → List ℕ → Outcome (List ℕ)
after_backslashes zero src = ok src
after_backslashes (suc n) [] = fault
after_backslashes (suc n) (c ∷ src) =
    if c == 92 then after_backslashes n src else after_backslashes (suc n) src

-- The second loop, up to a zero.
unfoldable pub letters : (ℕ → Bool) → List ℕ → List ℕ
letters is_alpha [] = []
letters is_alpha (c ∷ cs) =
    let rest = letters is_alpha cs in if c == 0 then [] else if is_alpha c then c ∷ rest else rest

-- What the second loop copies into a name, whose end it does not look for.
unfoldable pub copied : (ℕ → Bool) → Outcome (List ℕ) → Outcome (List ℕ)
unfolding letters
copied is_alpha fault = fault
copied is_alpha (ok from) =
    if ltb (length (letters is_alpha from)) name_size then ok (letters is_alpha from) else fault

-- `alpha_strcpy`, of a text with a zero behind it and then what else can be read.
unfoldable pub alpha_strcpy : (ℕ → Bool) → List ℕ → List ℕ → Outcome (List ℕ)
unfolding after_backslashes copied
alpha_strcpy is_alpha src behind = copied is_alpha (after_backslashes 3 (src ++ 0 ∷ behind))

-- The tokens that `strtok` gives, one call after another, each with what stands behind its zero when it
-- is given; the first argument tells which characters are between them, and `behind` stands behind
-- the zero of the whole text.
add_first : ℕ → Bool → List ℕ → List (List ℕ × List ℕ) → List (List ℕ × List ℕ)
add_first c true behind ts = (c ∷ [], behind) ∷ ts
add_first c false behind [] = (c ∷ [], behind) ∷ []
add_first c false behind ((t, b) ∷ ts) = (c ∷ t, b) ∷ ts

abbrev pub begins : (ℕ → Bool) → List ℕ → Bool
begins delimits [] = true
begins delimits (c ∷ cs) = delimits c

-- The first character of the rest becomes the zero, if it is not the end.
abbrev pub cut : List ℕ → List ℕ → List ℕ
cut [] behind = behind
cut (d ∷ ds) behind = ds ++ 0 ∷ behind

unfoldable pub strtok : (ℕ → Bool) → List ℕ → List ℕ → List (List ℕ × List ℕ)
unfolding add_first
strtok delimits [] behind = []
strtok delimits (c ∷ cs) behind =
    let rest = strtok delimits cs behind in
    if delimits c then rest else add_first c (begins delimits cs) (cut cs behind) rest

unfoldable pub tokens : (ℕ → Bool) → List ℕ → List (List ℕ)
unfolding strtok
tokens delimits cs = map (λ t. t.0) (strtok delimits cs [])

abbrev pub but_first : {A : Type 0} → List A → List A
but_first [] = []
but_first (t ∷ ts) = ts

abbrev pub comma : ℕ → Bool
comma c = c == 44

abbrev pub comma_or_quote : ℕ → Bool
comma_or_quote c = (c == 34) || (c == 44)

-- The loop of `init_stats`, with so many places left in `stats`.
unfoldable pub name_columns : (ℕ → Bool) → ℕ → List (List ℕ × List ℕ) → Outcome (List (List ℕ))
unfolding alpha_strcpy
name_columns is_alpha left [] = ok []
name_columns is_alpha zero (t ∷ ts) = fault
name_columns is_alpha (suc left) ((t, behind) ∷ ts) = do
  name ← alpha_strcpy is_alpha t behind
  names ← name_columns is_alpha left ts
  ok (name ∷ names)

-- `init_stats`, of the line of columns and what can be read behind its zero: the names of the
-- statistics; their number is returned.
unfoldable pub init_stats : (ℕ → Bool) → List ℕ → List ℕ → Outcome (List (List ℕ))
unfolding strtok name_columns
init_stats is_alpha columns behind =
    name_columns is_alpha total (but_first (strtok comma columns behind))

-- The loop of `get_stats`, with so many places left: the values of the tokens that are numbers.
unfoldable pub values : (List ℕ → Option ℕ) → ℕ → List (List ℕ) → Outcome (List ℕ)
values sscanf left [] = ok []
values sscanf left (t ∷ ts) = elim (sscanf t) [
  | none ↦ values sscanf left ts
  | some x ↦ elim left [ zero ↦ fault | suc n ↦ do xs ← values sscanf n ts; ok (x ∷ xs) ]
]

-- `get_stats`, once the names are read, of what `_fgets` stores: the values, where the assertions hold;
-- `none` is one that fails.
unfoldable pub get_stats : (List ℕ → Option ℕ) → ℕ → List ℕ → Outcome (Option (List ℕ))
unfolding tokens values
get_stats sscanf stats_count buf =
    if stats_count == 0
    then ok none
    else if ltb (length buf) buffer_size
    then (do
      xs ← values sscanf total (but_first (tokens comma_or_quote buf))
      if length xs == stats_count then ok (some xs) else ok none)
    else fault
