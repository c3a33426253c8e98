-- ===== src/Examples/Guests.antt =====
-- The counters of a guest at concrete inputs.
use rmond_drs.Base.{
  ℕ, ltb, ◌==◌, ◌≡◌, ◌≢◌, ◌≤◌, ◌<◌, refl, true, not, ◌||◌, if◌then◌else◌, List, [], ◌∷◌, ◌++◌,
  Option, none, some, length, arith, eqb, ◌⊎◌,
}
use rmond_drs.Table.{Table, find}
use rmond_drs.Table.Laws.{IsValid}
use rmond_drs.Perspective.{merge}
use rmond_drs.Guest.{
  Connection, aborted, overrun, failed, line, get_last_line, scan, last_at, last_line, attempt,
}
use rmond_drs.Guest.Lines.{LastLine}
use rmond_drs.Guest.Calls.{received as received_in, get_last_line-LastLine}
use rmond_drs.Guest.Bounds.{get_last_line-fits, get_last_line-bounded}
use rmond_drs.Guest.Stats.{Counters, read_line, meminfo_dirty_name}
use rmond_drs.Guest.Stats.Laws.{
  Entry, print, assign_all, read_line-print, free, free-Absent, Readable,
}
use rmond_drs.Guests.{Connections, Guest, lookup, data_from_lin_vm, blank, linux}
use rmond_drs.Guests.Laws.{Healthy, data_from_lin_vm-Healthy, data_from_lin_vm-failed, fresh}
use rmond_drs.Guests.Row.{merge-linux}
use rmond_drs.Transport.{print_line, print_all}
use rmond_drs.Transport.Decimal.{decimal, digits_of}
use rmond_drs.Transport.Linux.{Values, stats, run_q_jobs_name}
use rmond_drs.Transport.Laws.{received}
use rmond_drs.Transport.Pipeline.{query_lem}
use rmond_drs.Examples.{lex_order, memory}

-- "a", and the end of the line.
abbrev one_line : ℕ → Option (List ℕ)
one_line n = some (97 ∷ 10 ∷ [])

abbrev new : Connection
new = record { buffer = []; errors = 0 }

one_line-read : (get_last_line one_line new).1 ≡ line (97 ∷ [])
unfolding get_last_line attempt scan last_at last_line
one_line-read = refl

get_last_line-LastLine_example :
    (k : ℕ) × (k ≤ 3) × LastLine ([] ++ received_in one_line 0 k) (97 ∷ [])
get_last_line-LastLine_example = get_last_line-LastLine one_line new (97 ∷ []) one_line-read

get_last_line-fits_example :
    ((get_last_line one_line new).1 ≢ overrun)
    × ((1024 ≤ 0) ⊎ ((get_last_line one_line new).1 ≢ aborted))
get_last_line-fits_example = get_last_line-fits one_line new (λ i. omega arith)

-- A pipe that breaks after three reads.
abbrev three_lines : ℕ → Option (List ℕ)
three_lines n = if ltb n 3 then some (97 ∷ 10 ∷ []) else none

three_lines-same : (i : ℕ) → i < 3 → one_line i ≡ three_lines i
three_lines-same i l = ground (arith, l)

get_last_line-bounded_example : get_last_line one_line new ≡ get_last_line three_lines new
get_last_line-bounded_example = get_last_line-bounded one_line three_lines new three_lines-same

-- A guest whose pipe is broken, twice so far.
abbrev broken_pipe : Guest
broken_pipe = record { reached = true; alive = true; reads = λ n. none }

abbrev twice_failed : Connections
twice_failed = (5 ∷ [], record { buffer = []; errors = 2 }) ∷ []

data_from_lin_vm-Healthy_example :
    Healthy (data_from_lin_vm broken_pipe (5 ∷ []) blank twice_failed).0
data_from_lin_vm-Healthy_example =
    data_from_lin_vm-Healthy broken_pipe (5 ∷ []) blank twice_failed (omega arith, tt)

known : lookup (5 ∷ []) twice_failed ≡ some (record { buffer = []; errors = 2 })
unfolding lookup eqb
known = refl

no_line : (get_last_line broken_pipe.reads (record { buffer = []; errors = 2 })).1 ≡ failed
unfolding get_last_line attempt
no_line = refl

data_from_lin_vm-failed_example :
    (lookup (5 ∷ []) (data_from_lin_vm broken_pipe (5 ∷ []) blank twice_failed).0 ≡ (
      if not true || (2 == 2)
      then fresh broken_pipe
      else some (get_last_line broken_pipe.reads (record { buffer = []; errors = 2 })).0))
    × ((data_from_lin_vm broken_pipe (5 ∷ []) blank twice_failed).1 ≡ some blank)
    × ((get_last_line broken_pipe.reads (record { buffer = []; errors = 2 })).0.errors ≡ 3)
data_from_lin_vm-failed_example =
    data_from_lin_vm-failed broken_pipe (5 ∷ []) blank twice_failed
      (record { buffer = []; errors = 2 }) known no_line

-- "meminfo_Dirty:42 ".
abbrev dirty_entry : Entry
dirty_entry = record { name = meminfo_dirty_name; first = 52; digits = 50 ∷ []; tail = [] }

dirty-Readable : Readable dirty_entry
unfolding free
dirty-Readable = record {
  colon = free-Absent 58 meminfo_dirty_name refl;
  space = free-Absent 32 meminfo_dirty_name refl;
  number = (refl, (refl, tt));
  small = omega arith;
  tail = tt;
  ends = tt;
}

read_line-print_example :
    read_line (print (dirty_entry ∷ [])) blank ≡ assign_all (dirty_entry ∷ []) blank
read_line-print_example = read_line-print (dirty_entry ∷ []) blank (dirty-Readable, tt)

-- A table with no row yet.
abbrev no_rows : Table Counters
no_rows = record { rows = []; fresh = 0 }

no_rows-IsValid : IsValid no_rows
no_rows-IsValid = record { sorted = tt; keyed = tt; distinct = tt; below = tt }

merge-linux_example :
    find (5 ∷ []) (merge (linux (5 ∷ []) blank) memory (5 ∷ []) blank no_rows)
    ≡ some (elim (find (5 ∷ []) no_rows) [
      | some w ↦ record w { cells = blank }
      | none ↦ record { id = 0; key = 5 ∷ []; cells = blank }
    ])
merge-linux_example = merge-linux memory (5 ∷ []) blank blank no_rows no_rows-IsValid refl refl

-- The values of a guest; 0.50 jobs are in the run queue.
abbrev jobs : Entry
jobs = record { name = run_q_jobs_name; first = 48; digits = []; tail = 46 ∷ 53 ∷ 48 ∷ [] }

jobs-Readable : Readable jobs
unfolding free
jobs-Readable = record {
  colon = free-Absent 58 run_q_jobs_name refl;
  space = free-Absent 32 run_q_jobs_name refl;
  number = (refl, tt);
  small = omega arith;
  tail = (refl, (refl, (refl, tt)));
  ends = refl;
}

abbrev values : Values
values = record {
  curr_existing = 100;
  run_q_jobs = 48 ∷ 46 ∷ 53 ∷ 48 ∷ [];
  ms_writing = 7;
  ios_in_process = 1;
  writeback = 0;
  sunreclaim = 3;
  page_tables = 4;
  mapped = 5;
  dirty = 6;
}

abbrev writing_guest : Guest
writing_guest = record {
  reached = true;
  alive = true;
  reads = λ n. some (print_line (stats decimal values));
}

abbrev connected : Connections
connected = (5 ∷ [], new) ∷ []

connected-known : lookup (5 ∷ []) connected ≡ some new
unfolding lookup eqb
connected-known = refl

line-length : length (print_line (stats decimal values)) ≡ 195
unfolding print_line print_all stats decimal digits_of
line-length = refl

query_lem_example :
    (data_from_lin_vm writing_guest (5 ∷ []) blank connected).1 ≡ some (received values blank)
query_lem_example =
    query_lem writing_guest (5 ∷ []) blank connected new values jobs connected-known refl refl
      (omega (arith, line-length)) (omega arith) jobs-Readable refl refl (refl, (refl, (refl, tt)))
      (refl, (refl, (refl, tt)))
