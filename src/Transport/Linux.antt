-- ===== src/Transport/Linux.antt =====
-- `get_stats` of guest-transport/lin_transport.c. What the C library converts is given.
use rmond_drs.Base.{
  ℕ, ◌+◌, ◌==◌, eqb, if◌then◌else◌, List, [], ◌∷◌, Option, none, some, Outcome, ok, fault, ◌>>=◌,
}
use rmond_drs.Transport.{Statistics}

-- The values of `stats`, each as a number; that of loadavg_runQJobs01 is a text already.
pub record Values : Type 0 where
  pub curr_existing : ℕ
  pub run_q_jobs : List ℕ
  pub ms_writing : ℕ
  pub ios_in_process : ℕ
  pub writeback : ℕ
  pub sunreclaim : ℕ
  pub page_tables : ℕ
  pub mapped : ℕ
  pub dirty : ℕ

-- What `fscanf` reads of /proc/loadavg, each where it can be converted.
unfoldable pub read_loadavg : Option (List ℕ) → Option ℕ → Values → Values
read_loadavg none existing v = v
read_loadavg (some jobs) none v = record v { run_q_jobs = jobs }
read_loadavg (some jobs) (some existing) v = record v {
  run_q_jobs = jobs;
  curr_existing = existing;
}

-- The loop over /proc/diskstats: each call of `fscanf` stores two numbers, or nothing, as it does at
-- the end of the file; what is stored is added after each call.
unfoldable pub add_disks : ℕ → ℕ → List (Option (ℕ × ℕ)) → Values → Values
add_disks write_ms ios [] v = v
add_disks write_ms ios (none ∷ cs) v =
    add_disks write_ms ios cs
      (record v { ms_writing = v.ms_writing + write_ms; ios_in_process = v.ios_in_process + ios })
add_disks write_ms ios (some (x, y) ∷ cs) v =
    add_disks x y cs
      (record v { ms_writing = v.ms_writing + x; ios_in_process = v.ios_in_process + y })

unfoldable pub read_diskstats : List (Option (ℕ × ℕ)) → Values → Values
unfolding add_disks
read_diskstats cs v = add_disks 0 0 cs (record v { ms_writing = 0; ios_in_process = 0 })

-- `strtok` by spaces: the next token, and what follows it.
unfoldable pub until_space : List ℕ → List ℕ × List ℕ
until_space [] = ([], [])
until_space (c ∷ cs) = let (t, rest) = until_space cs in if c == 32 then ([], cs) else (c ∷ t, rest)

unfoldable pub strtok : List ℕ → Option (List ℕ × List ℕ)
unfolding until_space
strtok [] = none
strtok (c ∷ cs) = let next = strtok cs in if c == 32 then next else some (until_space (c ∷ cs))

-- "Writeback:"
abbrev pub writeback_key : List ℕ
writeback_key = 87 ∷ 114 ∷ 105 ∷ 116 ∷ 101 ∷ 98 ∷ 97 ∷ 99 ∷ 107 ∷ 58 ∷ []

-- "SUnreclaim:"
abbrev pub sunreclaim_key : List ℕ
sunreclaim_key = 83 ∷ 85 ∷ 110 ∷ 114 ∷ 101 ∷ 99 ∷ 108 ∷ 97 ∷ 105 ∷ 109 ∷ 58 ∷ []

-- "PageTables:"
abbrev pub page_tables_key : List ℕ
page_tables_key = 80 ∷ 97 ∷ 103 ∷ 101 ∷ 84 ∷ 97 ∷ 98 ∷ 108 ∷ 101 ∷ 115 ∷ 58 ∷ []

-- "Mapped:"
abbrev pub mapped_key : List ℕ
mapped_key = 77 ∷ 97 ∷ 112 ∷ 112 ∷ 101 ∷ 100 ∷ 58 ∷ []

-- "Dirty:"
abbrev pub dirty_key : List ℕ
dirty_key = 68 ∷ 105 ∷ 114 ∷ 116 ∷ 121 ∷ 58 ∷ []

-- The number of a token by `strtol`; a null pointer is none.
abbrev pub number_of : (List ℕ → ℕ) → Option (List ℕ × List ℕ) → Outcome ℕ
number_of strtol none = fault
number_of strtol (some (t, rest)) = ok (strtol t)

-- The branches for the first token of a line.
unfoldable pub store_meminfo : (List ℕ → ℕ) → List ℕ → List ℕ → Values → Outcome Values
unfolding strtok
store_meminfo strtol tok rest v =
    if eqb writeback_key tok
    then (do n ← number_of strtol (strtok rest); ok (record v { writeback = n }))
    else if eqb sunreclaim_key tok
    then (do n ← number_of strtol (strtok rest); ok (record v { sunreclaim = n }))
    else if eqb page_tables_key tok
    then (do n ← number_of strtol (strtok rest); ok (record v { page_tables = n }))
    else if eqb mapped_key tok
    then (do n ← number_of strtol (strtok rest); ok (record v { mapped = n }))
    else if eqb dirty_key tok
    then (do n ← number_of strtol (strtok rest); ok (record v { dirty = n }))
    else ok v

unfoldable pub meminfo_line : (List ℕ → ℕ) → List ℕ → Values → Outcome (List ℕ × Values)
unfolding strtok store_meminfo
meminfo_line strtol buf v = elim (strtok buf) [
  | none ↦ fault
  | some p ↦ do next ← store_meminfo strtol p.0 p.1 v; ok (p.0, next)
]

-- The loop over /proc/meminfo, whose lines end in a new line. After the last one, `feof` is still
-- false: `fgets` then fails, and `buf` has what `strtok` left of its first token.
unfoldable pub meminfo_lines : (List ℕ → ℕ) → List ℕ → List (List ℕ) → Values → Outcome Values
unfolding meminfo_line
meminfo_lines strtol buf [] v = do (left, next) ← meminfo_line strtol buf v; ok next
meminfo_lines strtol buf (l ∷ ls) v = do
  (left, next) ← meminfo_line strtol l v
  meminfo_lines strtol left ls next

-- "loadavg_currExisting"
abbrev pub curr_existing_name : List ℕ
curr_existing_name =
    108 ∷ 111 ∷ 97 ∷ 100 ∷ 97 ∷ 118 ∷ 103 ∷ 95 ∷ 99 ∷ 117 ∷ 114 ∷ 114 ∷ 69 ∷ 120 ∷ 105 ∷ 115 ∷ 116
    ∷ 105 ∷ 110 ∷ 103 ∷ []

-- "loadavg_runQJobs01"
abbrev pub run_q_jobs_name : List ℕ
run_q_jobs_name =
    108 ∷ 111 ∷ 97 ∷ 100 ∷ 97 ∷ 118 ∷ 103 ∷ 95 ∷ 114 ∷ 117 ∷ 110 ∷ 81 ∷ 74 ∷ 111 ∷ 98 ∷ 115 ∷ 48
    ∷ 49 ∷ []

-- "diskstats_ms_writing"
abbrev pub ms_writing_name : List ℕ
ms_writing_name =
    100 ∷ 105 ∷ 115 ∷ 107 ∷ 115 ∷ 116 ∷ 97 ∷ 116 ∷ 115 ∷ 95 ∷ 109 ∷ 115 ∷ 95 ∷ 119 ∷ 114 ∷ 105 ∷ 116
    ∷ 105 ∷ 110 ∷ 103 ∷ []

-- "diskstats_IOs_in_process"
abbrev pub ios_in_process_name : List ℕ
ios_in_process_name =
    100 ∷ 105 ∷ 115 ∷ 107 ∷ 115 ∷ 116 ∷ 97 ∷ 116 ∷ 115 ∷ 95 ∷ 73 ∷ 79 ∷ 115 ∷ 95 ∷ 105 ∷ 110 ∷ 95
    ∷ 112 ∷ 114 ∷ 111 ∷ 99 ∷ 101 ∷ 115 ∷ 115 ∷ []

-- "meminfo_Writeback"
abbrev pub writeback_name : List ℕ
writeback_name =
    109 ∷ 101 ∷ 109 ∷ 105 ∷ 110 ∷ 102 ∷ 111 ∷ 95 ∷ 87 ∷ 114 ∷ 105 ∷ 116 ∷ 101 ∷ 98 ∷ 97 ∷ 99 ∷ 107
    ∷ []

-- "meminfo_SUnreclaim"
abbrev pub sunreclaim_name : List ℕ
sunreclaim_name =
    109 ∷ 101 ∷ 109 ∷ 105 ∷ 110 ∷ 102 ∷ 111 ∷ 95 ∷ 83 ∷ 85 ∷ 110 ∷ 114 ∷ 101 ∷ 99 ∷ 108 ∷ 97 ∷ 105
    ∷ 109 ∷ []

-- "meminfo_PageTables"
abbrev pub page_tables_name : List ℕ
page_tables_name =
    109 ∷ 101 ∷ 109 ∷ 105 ∷ 110 ∷ 102 ∷ 111 ∷ 95 ∷ 80 ∷ 97 ∷ 103 ∷ 101 ∷ 84 ∷ 97 ∷ 98 ∷ 108 ∷ 101
    ∷ 115 ∷ []

-- "meminfo_Mapped"
abbrev pub mapped_name : List ℕ
mapped_name = 109 ∷ 101 ∷ 109 ∷ 105 ∷ 110 ∷ 102 ∷ 111 ∷ 95 ∷ 77 ∷ 97 ∷ 112 ∷ 112 ∷ 101 ∷ 100 ∷ []

-- "meminfo_Dirty"
abbrev pub dirty_name : List ℕ
dirty_name = 109 ∷ 101 ∷ 109 ∷ 105 ∷ 110 ∷ 102 ∷ 111 ∷ 95 ∷ 68 ∷ 105 ∷ 114 ∷ 116 ∷ 121 ∷ []

-- The array `stats`, its values printed by `show`.
unfoldable pub stats : (ℕ → List ℕ) → Values → List Statistics
stats show v =
    record { name = curr_existing_name; text = show v.curr_existing }
    ∷ record { name = run_q_jobs_name; text = v.run_q_jobs }
    ∷ record { name = ms_writing_name; text = show v.ms_writing }
    ∷ record { name = ios_in_process_name; text = show v.ios_in_process }
    ∷ record { name = writeback_name; text = show v.writeback }
    ∷ record { name = sunreclaim_name; text = show v.sunreclaim }
    ∷ record { name = page_tables_name; text = show v.page_tables }
    ∷ record { name = mapped_name; text = show v.mapped }
    ∷ record { name = dirty_name; text = show v.dirty }
    ∷ []

-- `get_stats`; `buf` is what the buffer holds at first.
unfoldable pub get_stats :
    (List ℕ → ℕ)
    → Option (List ℕ)
    → Option ℕ
    → List (Option (ℕ × ℕ))
    → List ℕ
    → List (List ℕ)
    → Values
    → Outcome Values
unfolding read_loadavg read_diskstats meminfo_lines
get_stats strtol jobs existing disks buf meminfo v =
    meminfo_lines strtol buf meminfo (read_diskstats disks (read_loadavg jobs existing v))
