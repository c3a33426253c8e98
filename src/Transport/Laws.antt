-- ===== src/Transport/Laws.antt =====
-- What the agent reads of the line that the program in a Linux guest writes, and what the program adds
-- up.
use rmond_drs.Base.{
  ℕ, ◌+◌, ◌*◌, ◌<◌, ◌≡◌, refl, ap, sym, ◌∙◌, true, List, [], ◌∷◌, ◌++◌, map, All, none, some, arith,
}
use mathlib.Core.List.{append-nil}
use rmond_drs.License.{uint_mod, starts_with}
use rmond_drs.Guest.Stats.{Counters, properties, read_line}
use rmond_drs.Guest.Stats.Laws.{
  Entry, print, Readable, assign_all, read_line-print, free, free-Absent,
}
use rmond_drs.Transport.{Statistics, print_all}
use rmond_drs.Transport.Decimal.{decimal, decimal-Shown}
use rmond_drs.Transport.Linux.{
  Values, stats, add_disks, read_diskstats, curr_existing_name, run_q_jobs_name, ms_writing_name,
  ios_in_process_name, writeback_name, sunreclaim_name, page_tables_name, mapped_name, dirty_name,
}

-- Statistics printed as an entry.
abbrev pub Printed : List Statistics → List Entry → Type 0
Printed [] [] = Unit {0}
Printed [] (e ∷ es) = ⊥
Printed (s ∷ ss) [] = ⊥
Printed (s ∷ ss) (e ∷ es) =
    (s.name ≡ e.name) × (s.text ≡ e.first ∷ (e.digits ++ e.tail)) × Printed ss es

pub print_all-Printed :
    (ss : List Statistics) (es : List Entry) → Printed ss es → print_all ss ≡ print es
unfolding print_all
print_all-Printed [] [] h = refl
print_all-Printed [] (e ∷ es) h = absurd h
print_all-Printed (s ∷ ss) [] h = absurd h
print_all-Printed (s ∷ ss) (e ∷ es) h = rw (h.0, h.1, print_all-Printed ss es h.2) refl

abbrev pub whole : List ℕ → ℕ → List ℕ → Entry
whole name c ds = record { name = name; first = c; digits = ds; tail = [] }

-- The entry of a number.
abbrev pub entry : List ℕ → ℕ → Entry
entry name n = whole name (decimal-Shown n).0 (decimal-Shown n).1

entry-text :
    (name : List ℕ) (n : ℕ)
    → decimal n ≡ (entry name n).first ∷ ((entry name n).digits ++ (entry name n).tail)
entry-text name n =
    (decimal-Shown n).2 ∙ ap (◌∷◌ (decimal-Shown n).0) (sym (append-nil (decimal-Shown n).1))

entry-Readable :
    (name : List ℕ) (n : ℕ)
    → n < uint_mod
    → free 58 name ≡ true
    → free 32 name ≡ true
    → Readable (entry name n)
entry-Readable name n l f g = record {
  colon = free-Absent 58 name f;
  space = free-Absent 32 name g;
  number = (decimal-Shown n).3;
  small = omega (arith, l, (decimal-Shown n).4);
  tail = tt;
  ends = tt;
}

-- Every number of the values fits an unsigned int.
pub record Small (v : Values) : Type 0 where
  pub curr_existing : v.curr_existing < uint_mod
  pub ms_writing : v.ms_writing < uint_mod
  pub ios_in_process : v.ios_in_process < uint_mod
  pub writeback : v.writeback < uint_mod
  pub sunreclaim : v.sunreclaim < uint_mod
  pub page_tables : v.page_tables < uint_mod
  pub mapped : v.mapped < uint_mod
  pub dirty : v.dirty < uint_mod

-- What the agent should have of them, and what it has.
abbrev pub received : Values → Counters → Counters
received v c = record c {
  loadavg_current_existing = v.curr_existing;
  diskstats_ms_writing = v.ms_writing;
  meminfo_writeback = v.writeback;
  meminfo_sunreclaim = v.sunreclaim;
  meminfo_pagetables = v.page_tables;
  meminfo_mapped = v.mapped;
  meminfo_dirty = v.dirty;
}

abbrev pub entries : Values → Entry → List Entry
entries v jobs =
    entry curr_existing_name v.curr_existing
    ∷ jobs
    ∷ entry ms_writing_name v.ms_writing
    ∷ entry ios_in_process_name v.ios_in_process
    ∷ entry writeback_name v.writeback
    ∷ entry sunreclaim_name v.sunreclaim
    ∷ entry page_tables_name v.page_tables
    ∷ entry mapped_name v.mapped
    ∷ entry dirty_name v.dirty
    ∷ []

pub stats-Printed :
    (v : Values) (jobs : Entry)
    → jobs.name ≡ run_q_jobs_name
    → v.run_q_jobs ≡ jobs.first ∷ (jobs.digits ++ jobs.tail)
    → Printed (stats decimal v) (entries v jobs)
unfolding stats
stats-Printed v jobs e f = (
  refl,
  entry-text curr_existing_name v.curr_existing,
  (
    sym e,
    f,
    (
      refl,
      entry-text ms_writing_name v.ms_writing,
      (
        refl,
        entry-text ios_in_process_name v.ios_in_process,
        (
          refl,
          entry-text writeback_name v.writeback,
          (
            refl,
            entry-text sunreclaim_name v.sunreclaim,
            (
              refl,
              entry-text page_tables_name v.page_tables,
              (refl, entry-text mapped_name v.mapped, (refl, entry-text dirty_name v.dirty, tt)),
            ),
          ),
        ),
      ),
    ),
  ),
)

entries-Readable :
    (v : Values) (jobs : Entry) → Small v → Readable jobs → All Readable (entries v jobs)
unfolding free
entries-Readable v jobs s r = (
  entry-Readable curr_existing_name v.curr_existing s.curr_existing refl refl,
  (
    r,
    (
      entry-Readable ms_writing_name v.ms_writing s.ms_writing refl refl,
      (
        entry-Readable ios_in_process_name v.ios_in_process s.ios_in_process refl refl,
        (
          entry-Readable writeback_name v.writeback s.writeback refl refl,
          (
            entry-Readable sunreclaim_name v.sunreclaim s.sunreclaim refl refl,
            (
              entry-Readable page_tables_name v.page_tables s.page_tables refl refl,
              (
                entry-Readable mapped_name v.mapped s.mapped refl refl,
                (entry-Readable dirty_name v.dirty s.dirty refl refl, tt),
              ),
            ),
          ),
        ),
      ),
    ),
  ),
)

assign_all-entries :
    (v : Values) (jobs : Entry) (c : Counters)
    → jobs.name ≡ run_q_jobs_name
    → assign_all (entries v jobs) c ≡ received v c
unfolding properties starts_with
assign_all-entries v jobs c e =
    rw
      (
        e,
        (decimal-Shown v.curr_existing).4,
        (decimal-Shown v.ms_writing).4,
        (decimal-Shown v.writeback).4,
        (decimal-Shown v.sunreclaim).4,
        (decimal-Shown v.page_tables).4,
        (decimal-Shown v.mapped).4,
        (decimal-Shown v.dirty).4,
      )
      refl

-- The agent reads from the line of a Linux guest all the counters that it has a name for, where their
-- numbers fit an unsigned int; but not the number of jobs in the run queue nor that of requests in
-- process, whose names differ on the two sides: its LOADAVG_15 and DISKSTATS_IOS_IN_PROCESS stay.
-- The number of jobs is printed as digits, and perhaps more after them, with no space.
pub read_line-stats :
    (v : Values) (jobs : Entry) (c : Counters)
    → Small v
    → Readable jobs
    → jobs.name ≡ run_q_jobs_name
    → v.run_q_jobs ≡ jobs.first ∷ (jobs.digits ++ jobs.tail)
    → read_line (print_all (stats decimal v)) c ≡ received v c
read_line-stats v jobs c s r e f =
    ap (λ b. read_line b c)
      (print_all-Printed (stats decimal v) (entries v jobs) (stats-Printed v jobs e f))
    ∙ read_line-print (entries v jobs) c (entries-Readable v jobs s r)
    ∙ assign_all-entries v jobs c e

abbrev pub sum_by : (ℕ × ℕ → ℕ) → List (ℕ × ℕ) → ℕ
sum_by f [] = 0
sum_by f (d ∷ ds) = f d + sum_by f ds

add_disks-twice :
    (w i : ℕ) (ds : List (ℕ × ℕ)) (d : ℕ × ℕ) (v : Values)
    → add_disks w i (map some ds ++ some d ∷ none ∷ []) v ≡ record v {
      ms_writing = v.ms_writing + (sum_by (λ d. d.0) ds + 2 * d.0);
      ios_in_process = v.ios_in_process + (sum_by (λ d. d.1) ds + 2 * d.1);
    }
unfolding add_disks
add_disks-twice w i [] d v = ground arith
add_disks-twice w i (e ∷ ds) d v = ground (
  arith,
  add_disks-twice e.0 e.1 ds d
      (record v { ms_writing = v.ms_writing + e.0; ios_in_process = v.ios_in_process + e.1 }),
)

-- Where `fscanf` reads the numbers of each disk and then nothing at the end of the file, the last disk
-- counts twice in both sums.
read_diskstats-twice :
    (ds : List (ℕ × ℕ)) (d : ℕ × ℕ) (v : Values)
    → read_diskstats (map some ds ++ some d ∷ none ∷ []) v ≡ record v {
      ms_writing = sum_by (λ d. d.0) ds + 2 * d.0;
      ios_in_process = sum_by (λ d. d.1) ds + 2 * d.1;
    }
unfolding read_diskstats
read_diskstats-twice ds d v =
    ground (arith, add_disks-twice 0 0 ds d (record v { ms_writing = 0; ios_in_process = 0 }))
