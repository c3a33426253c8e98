-- ===== src/Transport/Pipeline.antt =====
-- From the program in a Linux guest, over the pipe, to the counters of src/ve.cpp.
use rmond_drs.Base.{
  ℕ, ◌≤◌, ◌==◌, ◌≡◌, refl, ap, sym, subst, ◌∙◌, true, false, List, [], ◌∷◌, ◌++◌, All, length, some,
  arith, inl,
}
use rmond_drs.License.{is_digit}
use rmond_drs.License.Laws.{Decimal}
use rmond_drs.Guest.{Connection}
use rmond_drs.Guest.Lines.{Absent, Absent-append}
use rmond_drs.Guest.Calls.{get_last_line-whole}
use rmond_drs.Guest.Stats.{Counters}
use rmond_drs.Guest.Stats.Laws.{Entry, print, Readable, free, free-Absent}
use rmond_drs.Guests.{Connections, Guest, lookup, data_from_lin_vm}
use rmond_drs.Guests.Laws.{data_from_lin_vm-line}
use rmond_drs.Transport.{print_all, print_line}
use rmond_drs.Transport.Decimal.{decimal, decimal-Shown}
use rmond_drs.Transport.Linux.{
  Values, stats, curr_existing_name, run_q_jobs_name, ms_writing_name, ios_in_process_name,
  writeback_name, sunreclaim_name, page_tables_name, mapped_name, dirty_name,
}
use rmond_drs.Transport.Laws.{
  Small, received, read_line-stats, entries, entry, print_all-Printed, stats-Printed,
}

-- No character x in what an entry prints.
abbrev pub Lacking : ℕ → Entry → Type 0
Lacking x e = Absent x e.name × Decimal (e.first ∷ e.digits) × Absent x e.tail

digit-Absent : (x : ℕ) (ds : List ℕ) → is_digit x ≡ false → Decimal ds → Absent x ds
digit-Absent x [] n d = tt
digit-Absent x (c ∷ ds) n d = (ground (arith, n, d.0), digit-Absent x ds n d.1)

print-Absent :
    (x : ℕ) (es : List Entry)
    → is_digit x ≡ false
    → (58 == x) ≡ false
    → (32 == x) ≡ false
    → All (Lacking x) es
    → Absent x (print es)
print-Absent x [] n c s h = tt
print-Absent x (e ∷ es) n c s h =
    let ds = digit-Absent x (e.first ∷ e.digits) n h.0.1 in
    Absent-append x (e.name ++ 58 ∷ e.first ∷ (e.digits ++ e.tail)) (32 ∷ print es)
      (Absent-append x e.name (58 ∷ e.first ∷ (e.digits ++ e.tail)) h.0.0
        (c, (ds.0, Absent-append x e.digits e.tail ds.1 h.0.2)))
      (s, print-Absent x es n c s h.1)

entry-Lacking : (x n : ℕ) (name : List ℕ) → free x name ≡ true → Lacking x (entry name n)
entry-Lacking x n name e = (free-Absent x name e, (decimal-Shown n).3, tt)

lines-Lacking10 : (v : Values) (jobs : Entry) → Lacking 10 jobs → All (Lacking 10) (entries v jobs)
unfolding free
lines-Lacking10 v jobs j = (
  entry-Lacking 10 v.curr_existing curr_existing_name refl,
  (
    j,
    (
      entry-Lacking 10 v.ms_writing ms_writing_name refl,
      (
        entry-Lacking 10 v.ios_in_process ios_in_process_name refl,
        (
          entry-Lacking 10 v.writeback writeback_name refl,
          (
            entry-Lacking 10 v.sunreclaim sunreclaim_name refl,
            (
              entry-Lacking 10 v.page_tables page_tables_name refl,
              (
                entry-Lacking 10 v.mapped mapped_name refl,
                (entry-Lacking 10 v.dirty dirty_name refl, tt),
              ),
            ),
          ),
        ),
      ),
    ),
  ),
)

lines-Lacking0 : (v : Values) (jobs : Entry) → Lacking 0 jobs → All (Lacking 0) (entries v jobs)
unfolding free
lines-Lacking0 v jobs j = (
  entry-Lacking 0 v.curr_existing curr_existing_name refl,
  (
    j,
    (
      entry-Lacking 0 v.ms_writing ms_writing_name refl,
      (
        entry-Lacking 0 v.ios_in_process ios_in_process_name refl,
        (
          entry-Lacking 0 v.writeback writeback_name refl,
          (
            entry-Lacking 0 v.sunreclaim sunreclaim_name refl,
            (
              entry-Lacking 0 v.page_tables page_tables_name refl,
              (
                entry-Lacking 0 v.mapped mapped_name refl,
                (entry-Lacking 0 v.dirty dirty_name refl, tt),
              ),
            ),
          ),
        ),
      ),
    ),
  ),
)

stats-Absent :
    (x : ℕ) (v : Values) (jobs : Entry)
    → jobs.name ≡ run_q_jobs_name
    → v.run_q_jobs ≡ jobs.first ∷ (jobs.digits ++ jobs.tail)
    → Absent x (print (entries v jobs))
    → Absent x (print_all (stats decimal v))
stats-Absent x v jobs n q a =
    subst (Absent x)
      (sym (print_all-Printed (stats decimal v) (entries v jobs) (stats-Printed v jobs n q))) a

jobs-Lacking :
    (x : ℕ) (jobs : Entry)
    → jobs.name ≡ run_q_jobs_name
    → free x run_q_jobs_name ≡ true
    → Readable jobs
    → Absent x jobs.tail
    → Lacking x jobs
jobs-Lacking x jobs n f h a =
    (subst (Absent x) (sym n) (free-Absent x run_q_jobs_name f), h.number, a)

-- A query of a Linux guest that is connected, whose connection holds nothing yet, and from which the
-- first read stores the whole line that its program wrote, in 1024 bytes at most, gives the counters
-- that the agent has a name for the values of the program, where these fit an unsigned int; the others
-- stay. What is printed of the run queue is digits, perhaps with more after them, and has no space, no
-- new line and no zero.
pub query_lem :
    (w : Guest) (u : List ℕ) (output : Counters) (g : Connections) (c : Connection) (v : Values)
    (jobs : Entry)
    → lookup u g ≡ some c
    → c.buffer ≡ []
    → w.reads 0 ≡ some (print_line (stats decimal v))
    → length (print_line (stats decimal v)) ≤ 1024
    → Small v
    → Readable jobs
    → jobs.name ≡ run_q_jobs_name
    → v.run_q_jobs ≡ jobs.first ∷ (jobs.digits ++ jobs.tail)
    → Absent 10 jobs.tail
    → Absent 0 jobs.tail
    → (data_from_lin_vm w u output g).1 ≡ some (received v output)
unfolding print_line free
query_lem w u output g c v jobs e b r l s h n q a z =
    (data_from_lin_vm-line w u output g c (print_all (stats decimal v)) e (
      ap (λ p. p.1)
        (get_last_line-whole w.reads c (print_line (stats decimal v)) []
          (print_all (stats decimal v)) r (omega (arith, ap length b)) l
          (ap (λ d. d ++ print_line (stats decimal v)) b) (inl refl) tt
          (stats-Absent 0 v jobs n q (
            print-Absent 0 (entries v jobs) refl refl refl
              (lines-Lacking0 v jobs (jobs-Lacking 0 jobs n refl h z))))
          (stats-Absent 10 v jobs n q (
            print-Absent 10 (entries v jobs) refl refl refl
              (lines-Lacking10 v jobs (jobs-Lacking 10 jobs n refl h a))))))).1
    ∙ ap some (read_line-stats v jobs output s h n q)
