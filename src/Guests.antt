-- ===== src/Guests.antt =====
-- `Counters::Linux::Virtual` of src/ve.cpp: where the counters of a virtual environment come from, the
-- connections to guests that are kept between queries, and the row of the environment.
pub mod Laws
pub mod Row
use rmond_drs.Base.{
  ℕ, zero, suc, ◌+◌, ◌*◌, ◌-◌, ◌%◌, ltb, leb, ◌==◌, eqb, Bool, true, false, not, ◌&&◌, ◌||◌,
  if◌then◌else◌, List, [], ◌∷◌, ◌++◌, Option, none, some, Outcome, ok, fault, ◌>>=◌, length,
}
use rmond_drs.Oid.{Oid}
use rmond_drs.Perspective.{Flavor}
use rmond_drs.License.{uint_mod, is_space, skip_spaces, magnitude, split_at}
use rmond_drs.Guest.{Connection, Result, aborted, overrun, failed, line, get_last_line, lost_signal}
use rmond_drs.Guest.Stats.{Counters, read_line}

-- `uuid2Connection`.
abbrev pub Connections : Type 0
Connections = List (List ℕ × Connection)

unfoldable pub lookup : List ℕ → Connections → Option Connection
lookup u [] = none
lookup u ((v, c) ∷ g) = let rest = lookup u g in if eqb v u then some c else rest

unfoldable pub erase : List ℕ → Connections → Connections
erase u [] = []
erase u ((v, c) ∷ g) = let rest = erase u g in if eqb v u then rest else (v, c) ∷ rest

-- The pointer in the map stays; what it points to changes.
unfoldable pub store : List ℕ → Connection → Connections → Connections
store u c [] = []
store u c ((v, d) ∷ g) = let rest = store u c g in if eqb v u then (v, c) ∷ rest else (v, d) ∷ rest

-- What a guest does while it is asked: whether a new connection can be made, whether the program still
-- runs, and what each `read` of the pipe stores.
pub record Guest : Type 0 where
  pub reached : Bool
  pub alive : Bool
  pub reads : ℕ → Option (List ℕ)

-- From the label `connect`: an exception leaves the map as it is.
unfoldable pub connect : Guest → List ℕ → Connections → Connections
connect w u g = if w.reached then (u, record { buffer = []; errors = 0 }) ∷ g else g

-- After `getLastLine`; `none` is the end of the process, by an assertion or a store past the buffer.
unfoldable pub answered :
    Guest → List ℕ → Connection × Result → Counters → Connections → Connections × Option Counters
unfolding read_line connect erase store lost_signal
answered w u (c, aborted) output g = (g, none)
answered w u (c, overrun) output g = (g, none)
answered w u (c, failed) output g =
    if not w.alive || lost_signal c
    then (connect w u (erase u g), some output)
    else (store u c g, some output)
answered w u (c, line b) output g = (store u c g, some (read_line b output))

-- `Flavor::dataFromLinVM`.
unfoldable pub data_from_lin_vm :
    Guest → List ℕ → Counters → Connections → Connections × Option Counters
unfolding lookup connect answered get_last_line
data_from_lin_vm w u output g = elim (lookup u g) [
  | none ↦ (connect w u g, some output)
  | some c ↦ answered w u (get_last_line w.reads c) output g
]

-- The last of two slashes in what `fgets` read: a null pointer is moved past where there is only one.
-- `load` is the number of a text, by `strtod`, in hundredths.
unfoldable pub load_line : (List ℕ → ℕ) → List ℕ → Counters → Outcome Counters
unfolding split_at
load_line load b output = elim (split_at 47 b) [
  | none ↦ ok output
  | some p ↦ elim (split_at 47 p.1) [
    | none ↦ fault
    | some q ↦ ok (record output { loadavg_15 = load q.1 })
  ]
]

-- The loop over what vzlist prints; it ends once 1024 characters were seen.
unfoldable pub load_lines : (List ℕ → ℕ) → ℕ → List (List ℕ) → Counters → Outcome Counters
unfolding load_line
load_lines load seen [] output = ok output
load_lines load seen (b ∷ bs) output =
    if ltb seen 1024
    then (do next ← load_line load b output; load_lines load (seen + length b) bs next)
    else ok output

-- `iss >> temp`: the word is unchanged where there is none.
unfoldable pub word : List ℕ → List ℕ × List ℕ
word [] = ([], [])
word (c ∷ cs) = let (w, rest) = word cs in if is_space c then ([], c ∷ cs) else (c ∷ w, rest)

abbrev pub or_kept : List ℕ → List ℕ → List ℕ
or_kept [] temp = temp
or_kept (c ∷ cs) temp = c ∷ cs

unfoldable pub next_word : List ℕ → List ℕ → List ℕ × List ℕ
unfolding word skip_spaces
next_word temp cs = let (w, rest) = word (skip_spaces cs) in (or_kept w temp, rest)

-- `atoi`, by `strtol`.
abbrev pub long_limit : ℕ
long_limit = 9223372036854775808

abbrev pub positive_long : ℕ → ℕ
positive_long x = if ltb x long_limit then x % uint_mod else (long_limit - 1) % uint_mod

abbrev pub negative_long : ℕ → ℕ
negative_long x = if ltb x long_limit then (uint_mod - x % uint_mod) % uint_mod else 0

abbrev pub signed : List ℕ → ℕ
signed [] = 0
signed (c ∷ cs) =
    if c == 45
    then negative_long (magnitude cs)
    else if c == 43
    then positive_long (magnitude cs)
    else positive_long (magnitude (c ∷ cs))

unfoldable pub atoi : List ℕ → ℕ
unfolding skip_spaces
atoi cs = signed (skip_spaces cs)

-- "Writeback:"
abbrev pub writeback : List ℕ
writeback = 87 ∷ 114 ∷ 105 ∷ 116 ∷ 101 ∷ 98 ∷ 97 ∷ 99 ∷ 107 ∷ 58 ∷ []

-- "Dirty:"
abbrev pub dirty : List ℕ
dirty = 68 ∷ 105 ∷ 114 ∷ 116 ∷ 121 ∷ 58 ∷ []

-- "SUnreclaim:"
abbrev pub sunreclaim : List ℕ
sunreclaim = 83 ∷ 85 ∷ 110 ∷ 114 ∷ 101 ∷ 99 ∷ 108 ∷ 97 ∷ 105 ∷ 109 ∷ 58 ∷ []

-- The three numbers of meminfo, and `temp`.
pub record Meminfo : Type 0 where
  pub meminfo_writeback : ℕ
  pub meminfo_dirty : ℕ
  pub meminfo_sunreclaim : ℕ
  pub temp : List ℕ

abbrev pub with_temp : List ℕ → Meminfo → Meminfo
with_temp w m = record m { temp = w }

unfoldable pub meminfo_words : List ℕ → List ℕ → Meminfo → Meminfo
unfolding next_word atoi
meminfo_words w rest m =
    if eqb w writeback
    then record m { temp = (next_word w rest).0; meminfo_writeback = atoi (next_word w rest).0 }
    else if eqb w dirty
    then record m { temp = (next_word w rest).0; meminfo_dirty = atoi (next_word w rest).0 }
    else if eqb w sunreclaim
    then record m { temp = (next_word w rest).0; meminfo_sunreclaim = atoi (next_word w rest).0 }
    else record m { temp = w }

-- The body of the loop over the lines of meminfo.
unfoldable pub meminfo_line : List ℕ → Meminfo → Meminfo
unfolding meminfo_words next_word
meminfo_line text m = let (w, rest) = next_word m.temp text in meminfo_words w rest m

unfoldable pub meminfo_lines : List (List ℕ) → Meminfo → Meminfo
unfolding meminfo_line
meminfo_lines [] m = m
meminfo_lines (l ∷ ls) m = meminfo_lines ls (meminfo_line l m)

abbrev pub no_meminfo : Meminfo
no_meminfo = record { meminfo_writeback = 0; meminfo_dirty = 0; meminfo_sunreclaim = 0; temp = [] }

abbrev pub put_meminfo : Meminfo → Counters → Counters
put_meminfo m output = record output {
  meminfo_dirty = m.meminfo_dirty;
  meminfo_writeback = m.meminfo_writeback;
  meminfo_sunreclaim = m.meminfo_sunreclaim;
}

-- What the host knows of a container: what vzlist prints, `none` where it cannot be started, and the
-- lines of the container's meminfo.
pub record Host : Type 0 where
  pub vzlist : Option (List (List ℕ))
  pub meminfo : List (List ℕ)

abbrev pub printed : Option (List (List ℕ)) → List (List ℕ)
printed none = []
printed (some bs) = bs

-- `Flavor::dataFromCT`.
unfoldable pub data_from_ct : (List ℕ → ℕ) → Host → Counters → Outcome Counters
unfolding load_lines meminfo_lines
data_from_ct load h output = do
  loaded ← load_lines load 0 (printed h.vzlist) output
  ok (put_meminfo (meminfo_lines h.meminfo no_meminfo) loaded)

-- What `Flavor::tuple` reads of the environment's row.
pub record Ve : Type 0 where
  pub is_ct : Bool
  pub is_vm : Bool
  pub is_running : Bool
  pub is_linux : Bool
  pub uuid : List ℕ

abbrev pub blank : Counters
blank = record {
  loadavg_15 = 0;
  loadavg_current_existing = 0;
  diskstats_ios_in_process = 0;
  diskstats_ms_writing = 0;
  meminfo_pagetables = 0;
  meminfo_mapped = 0;
  meminfo_dirty = 0;
  meminfo_sunreclaim = 0;
  meminfo_writeback = 0;
}

abbrev pub of_process : Connections × Option Counters → Outcome (Connections × Counters)
of_process (g, none) = fault
of_process (g, some c) = ok (g, c)

unfoldable pub from_container :
    (List ℕ → ℕ) → Host → Ve → Connections → Outcome (Connections × Counters)
unfolding data_from_ct
from_container load h x g =
    if x.is_ct && x.is_running then (do c ← data_from_ct load h blank; ok (g, c)) else ok (g, blank)

-- `Flavor::tuple`: `none` is a row that is gone, whose pointer is used all the same.
unfoldable pub tuple :
    (List ℕ → ℕ) → Host → Guest → Option Ve → Connections → Outcome (Connections × Counters)
unfolding from_container data_from_lin_vm
tuple load h w none g = fault
tuple load h w (some x) g = do
  (g1, c) ← from_container load h x g
  if x.is_vm && (x.is_running && x.is_linux)
      then of_process (data_from_lin_vm w x.uuid c g1)
      else ok (g1, c)

-- `Update`, which `fill` gives the row that `tuple` made: it is not null, since `Query::refresh` holds
-- the environment's row meanwhile. `key` is the index of the environment.
unfoldable pub linux : Oid → Counters → Flavor Counters Counters
linux key sp = record { fill = λ f. sp; apply = λ r f. (f, f, false); rest = λ f. (key, f) ∷ [] }
