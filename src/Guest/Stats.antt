-- ===== src/Guest/Stats.antt =====
-- The counters of a guest in src/ve.cpp: the columns of `Counters::Linux::TABLE`, and how a line that
-- the program in the guest wrote is read. Texts are lists of codes with no zero.
pub mod Laws
use rmond_drs.Base.{
  ℕ, zero, suc, Bool, true, false, if◌then◌else◌, List, [], ◌∷◌, Option, none, some, length,
}
use rmond_drs.License.{starts_with, split_at, strtoul}

-- `Data<Counters::Linux::TABLE>`; the numbers are 32-bit patterns.
pub record Counters : Type 0 where
  pub loadavg_15 : ℕ
  pub loadavg_current_existing : ℕ
  pub diskstats_ios_in_process : ℕ
  pub diskstats_ms_writing : ℕ
  pub meminfo_pagetables : ℕ
  pub meminfo_mapped : ℕ
  pub meminfo_dirty : ℕ
  pub meminfo_sunreclaim : ℕ
  pub meminfo_writeback : ℕ

-- A name that a line may give, and the column that its value goes to.
pub record Property : Type 0 where
  pub name : List ℕ
  pub put : ℕ → Counters → Counters

-- "loadavg_15"
abbrev pub loadavg_15_name : List ℕ
loadavg_15_name = 108 ∷ 111 ∷ 97 ∷ 100 ∷ 97 ∷ 118 ∷ 103 ∷ 95 ∷ 49 ∷ 53 ∷ []

-- "loadavg_currExisting"
abbrev pub loadavg_current_existing_name : List ℕ
loadavg_current_existing_name =
    108 ∷ 111 ∷ 97 ∷ 100 ∷ 97 ∷ 118 ∷ 103 ∷ 95 ∷ 99 ∷ 117 ∷ 114 ∷ 114 ∷ 69 ∷ 120 ∷ 105 ∷ 115 ∷ 116
    ∷ 105 ∷ 110 ∷ 103 ∷ []

-- "diskstats_ios_in_process"
abbrev pub diskstats_ios_in_process_name : List ℕ
diskstats_ios_in_process_name =
    100 ∷ 105 ∷ 115 ∷ 107 ∷ 115 ∷ 116 ∷ 97 ∷ 116 ∷ 115 ∷ 95 ∷ 105 ∷ 111 ∷ 115 ∷ 95 ∷ 105 ∷ 110 ∷ 95
    ∷ 112 ∷ 114 ∷ 111 ∷ 99 ∷ 101 ∷ 115 ∷ 115 ∷ []

-- "diskstats_ms_writing"
abbrev pub diskstats_ms_writing_name : List ℕ
diskstats_ms_writing_name =
    100 ∷ 105 ∷ 115 ∷ 107 ∷ 115 ∷ 116 ∷ 97 ∷ 116 ∷ 115 ∷ 95 ∷ 109 ∷ 115 ∷ 95 ∷ 119 ∷ 114 ∷ 105 ∷ 116
    ∷ 105 ∷ 110 ∷ 103 ∷ []

-- "meminfo_PageTables"
abbrev pub meminfo_pagetables_name : List ℕ
meminfo_pagetables_name =
    109 ∷ 101 ∷ 109 ∷ 105 ∷ 110 ∷ 102 ∷ 111 ∷ 95 ∷ 80 ∷ 97 ∷ 103 ∷ 101 ∷ 84 ∷ 97 ∷ 98 ∷ 108 ∷ 101
    ∷ 115 ∷ []

-- "meminfo_Mapped"
abbrev pub meminfo_mapped_name : List ℕ
meminfo_mapped_name =
    109 ∷ 101 ∷ 109 ∷ 105 ∷ 110 ∷ 102 ∷ 111 ∷ 95 ∷ 77 ∷ 97 ∷ 112 ∷ 112 ∷ 101 ∷ 100 ∷ []

-- "meminfo_Dirty"
abbrev pub meminfo_dirty_name : List ℕ
meminfo_dirty_name = 109 ∷ 101 ∷ 109 ∷ 105 ∷ 110 ∷ 102 ∷ 111 ∷ 95 ∷ 68 ∷ 105 ∷ 114 ∷ 116 ∷ 121 ∷ []

-- "meminfo_SUnreclaim"
abbrev pub meminfo_sunreclaim_name : List ℕ
meminfo_sunreclaim_name =
    109 ∷ 101 ∷ 109 ∷ 105 ∷ 110 ∷ 102 ∷ 111 ∷ 95 ∷ 83 ∷ 85 ∷ 110 ∷ 114 ∷ 101 ∷ 99 ∷ 108 ∷ 97 ∷ 105
    ∷ 109 ∷ []

-- "meminfo_Writeback"
abbrev pub meminfo_writeback_name : List ℕ
meminfo_writeback_name =
    109 ∷ 101 ∷ 109 ∷ 105 ∷ 110 ∷ 102 ∷ 111 ∷ 95 ∷ 87 ∷ 114 ∷ 105 ∷ 116 ∷ 101 ∷ 98 ∷ 97 ∷ 99 ∷ 107
    ∷ []

-- The uses of `READ_TO_PROPERTY`, in their order.
unfoldable pub properties : List Property
properties =
    record { name = loadavg_15_name; put = λ x c. record c { loadavg_15 = x } }
    ∷ record {
      name = loadavg_current_existing_name;
      put = λ x c. record c { loadavg_current_existing = x };
    }
    ∷ record {
      name = diskstats_ios_in_process_name;
      put = λ x c. record c { diskstats_ios_in_process = x };
    }
    ∷ record {
      name = diskstats_ms_writing_name;
      put = λ x c. record c { diskstats_ms_writing = x };
    }
    ∷ record { name = meminfo_pagetables_name; put = λ x c. record c { meminfo_pagetables = x } }
    ∷ record { name = meminfo_mapped_name; put = λ x c. record c { meminfo_mapped = x } }
    ∷ record { name = meminfo_dirty_name; put = λ x c. record c { meminfo_dirty = x } }
    ∷ record { name = meminfo_sunreclaim_name; put = λ x c. record c { meminfo_sunreclaim = x } }
    ∷ record { name = meminfo_writeback_name; put = λ x c. record c { meminfo_writeback = x } }
    ∷ []

-- `READ_TO_PROPERTY`, at the rest of a line.
unfoldable pub read_property : List ℕ → Property → Counters → Counters
unfolding starts_with split_at strtoul
read_property b p c =
    if starts_with b p.name
    then (elim (split_at 58 b) [ none ↦ c | some q ↦ p.put (strtoul q.1) c ])
    else c

unfoldable pub read_properties : List ℕ → List Property → Counters → Counters
unfolding read_property
read_properties b [] c = c
read_properties b (p ∷ ps) c = read_properties b ps (read_property b p c)

-- The loop over a line, which goes on after each space; on fuel.
unfoldable pub read_words : ℕ → List ℕ → Counters → Counters
unfolding read_properties properties split_at
read_words zero b c = c
read_words (suc n) b c = elim (split_at 32 b) [
  | none ↦ read_properties b properties c
  | some q ↦ read_words n q.1 (read_properties b properties c)
]

-- The loop: a line of n characters has at most n spaces.
unfoldable pub read_line : List ℕ → Counters → Counters
unfolding read_words
read_line b c = read_words (suc (length b)) b c
