-- ===== src/Proc.antt =====
-- The part of `License::Unit::refresh` of src/host.cpp that reads /proc. A line is a list of codes,
-- read by a stream of its own; a number of the model is an int as a 32-bit pattern.
pub mod Laws
use rmond_drs.Base.{
  ℕ, zero, suc, ◌+◌, ◌-◌, ◌%◌, ltb, ◌==◌, eqb, Bool, true, false, if◌then◌else◌, List, [], ◌∷◌,
  ◌++◌, Option, none, some, ◌⊎◌, inl, inr,
}
use rmond_drs.License.{uint_mod, is_space, is_digit, digits}
use rmond_drs.Transport.Windows.{tokens}
use rmond_drs.Guests.{atoi}

-- The words that are left of a line.
unfoldable pub words : List ℕ → List (List ℕ)
unfolding tokens
words line = tokens is_space line

-- `iss >> temp`: at the end of the line the string stays.
abbrev pub next : List ℕ → List (List ℕ) → List ℕ × List (List ℕ)
next temp [] = (temp, [])
next temp (w ∷ ws) = (w, ws)

unfoldable pub skip : ℕ → List ℕ → List (List ℕ) → List ℕ × List (List ℕ)
skip zero temp ws = (temp, ws)
skip (suc n) temp ws = let (t, rest) = next temp ws in skip n t rest

-- The sums over the disks, and `temp`.
pub record Disks : Type 0 where
  pub ios_in_process : ℕ
  pub ms_doing_ios : ℕ
  pub temp : List ℕ

-- The body of the loop over /proc/diskstats.
unfoldable pub disk_line : List ℕ → Disks → Disks
unfolding words skip atoi
disk_line line d =
    let (t, ws) = skip 11 d.temp (words line) in
    let (ios, rest) = next t ws in
    let (ms, end) = next ios rest in
    record {
      ios_in_process = (d.ios_in_process + atoi ios) % uint_mod;
      ms_doing_ios = (d.ms_doing_ios + atoi ms) % uint_mod;
      temp = ms;
    }

unfoldable pub disk_lines : List (List ℕ) → Disks → Disks
unfolding disk_line
disk_lines [] d = d
disk_lines (l ∷ ls) d = disk_lines ls (disk_line l d)

-- "RES:"
abbrev pub res_name : List ℕ
res_name = 82 ∷ 69 ∷ 83 ∷ 58 ∷ []

unfoldable pub sum_words : ℕ → List (List ℕ) → ℕ
unfolding atoi
sum_words acc [] = acc
sum_words acc (w ∷ ws) = sum_words ((acc + atoi w) % uint_mod) ws

-- The loop over /proc/interrupts, which ends at the line of the name.
unfoldable pub interrupts : List ℕ → List (List ℕ) → ℕ
unfolding sum_words words
interrupts temp [] = 0
interrupts temp (l ∷ ls) =
    let (t, ws) = next temp (words l) in
    let rest = interrupts t ls in if eqb t res_name then sum_words 0 ws else rest

-- `iss >> n` of an int, of the words that are left, where nothing failed yet: the number that is
-- stored, and what is left; `none` is a stream that failed. A number out of range is the nearest one.
abbrev pub int_limit : ℕ
int_limit = 2147483648

unfoldable pub after_digits : List ℕ → List ℕ
after_digits [] = []
after_digits (c ∷ cs) = let rest = after_digits cs in if is_digit c then rest else c ∷ cs

abbrev pub or_next : List ℕ → List (List ℕ) → List (List ℕ)
or_next [] ws = ws
or_next (c ∷ cs) ws = (c ∷ cs) ∷ ws

abbrev pub unsigned_int : List ℕ → List (List ℕ) → ℕ × Option (List (List ℕ))
unsigned_int [] ws = (0, none)
unsigned_int (c ∷ cs) ws =
    if is_digit c
    then (if ltb (digits 0 (c ∷ cs)) int_limit
        then (digits 0 (c ∷ cs), some (or_next (after_digits (c ∷ cs)) ws))
        else (int_limit - 1, none))
    else (0, none)

abbrev pub negative_int : List ℕ → List (List ℕ) → ℕ × Option (List (List ℕ))
negative_int [] ws = (0, none)
negative_int (c ∷ cs) ws =
    if is_digit c
    then (if ltb int_limit (digits 0 (c ∷ cs))
        then (int_limit, none)
        else ((uint_mod - digits 0 (c ∷ cs)) % uint_mod, some (or_next (after_digits (c ∷ cs)) ws)))
    else (0, none)

unfoldable pub int_word : List ℕ → List (List ℕ) → ℕ × Option (List (List ℕ))
unfolding digits after_digits
int_word [] ws = (0, none)
int_word (c ∷ cs) ws =
    if c == 45
    then negative_int cs ws
    else if c == 43
    then unsigned_int cs ws
    else unsigned_int (c ∷ cs) ws

unfoldable pub read_int : ℕ → Option (List (List ℕ)) → ℕ × Option (List (List ℕ))
unfolding int_word
read_int old none = (old, none)
read_int old (some []) = (old, none)
read_int old (some (w ∷ ws)) = int_word w ws

-- "Buffers:"
abbrev pub buffers_name : List ℕ
buffers_name = 66 ∷ 117 ∷ 102 ∷ 102 ∷ 101 ∷ 114 ∷ 115 ∷ 58 ∷ []

-- "Dirty:"
abbrev pub dirty_name : List ℕ
dirty_name = 68 ∷ 105 ∷ 114 ∷ 116 ∷ 121 ∷ 58 ∷ []

pub record Meminfo : Type 0 where
  pub buffers : ℕ
  pub dirty : ℕ
  pub temp : List ℕ

-- The body of the loop over /proc/meminfo.
unfoldable pub meminfo_line : List ℕ → Meminfo → Meminfo
unfolding words read_int
meminfo_line line m =
    let (t, ws) = next m.temp (words line) in
    if eqb t buffers_name
    then record m { buffers = (read_int m.buffers (some ws)).0; temp = t }
    else if eqb t dirty_name
    then record m { dirty = (read_int m.dirty (some ws)).0; temp = t }
    else record m { temp = t }

unfoldable pub meminfo_lines : List (List ℕ) → Meminfo → Meminfo
unfolding meminfo_line
meminfo_lines [] m = m
meminfo_lines (l ∷ ls) m = meminfo_lines ls (meminfo_line l m)

-- "softirq"
abbrev pub softirq_name : List ℕ
softirq_name = 115 ∷ 111 ∷ 102 ∷ 116 ∷ 105 ∷ 114 ∷ 113 ∷ []

-- "intr"
abbrev pub intr_name : List ℕ
intr_name = 105 ∷ 110 ∷ 116 ∷ 114 ∷ []

-- "procs_blocked"
abbrev pub blocked_name : List ℕ
blocked_name = 112 ∷ 114 ∷ 111 ∷ 99 ∷ 115 ∷ 95 ∷ 98 ∷ 108 ∷ 111 ∷ 99 ∷ 107 ∷ 101 ∷ 100 ∷ []

-- "procs_running"
abbrev pub running_name : List ℕ
running_name = 112 ∷ 114 ∷ 111 ∷ 99 ∷ 115 ∷ 95 ∷ 114 ∷ 117 ∷ 110 ∷ 110 ∷ 105 ∷ 110 ∷ 103 ∷ []

-- "processes"
abbrev pub processes_name : List ℕ
processes_name = 112 ∷ 114 ∷ 111 ∷ 99 ∷ 101 ∷ 115 ∷ 115 ∷ 101 ∷ 115 ∷ []

-- The numbers of /proc/stat, and `temp`.
pub record Stat : Type 0 where
  pub intr_46 : ℕ
  pub softirq_rcu : ℕ
  pub softirq_sched : ℕ
  pub softirq_net_tx : ℕ
  pub procs_running : ℕ
  pub procs_blocked : ℕ
  pub processes : ℕ
  pub temp : List ℕ

-- The places in the line of soft interrupts: `NET_TX`, `SCHED`, `RCU` and `_LAST`.
unfoldable pub put_softirq : ℕ → ℕ → Stat → Stat
put_softirq i x s =
    if i == 10
    then record s { softirq_rcu = x }
    else if i == 8
    then record s { softirq_sched = x }
    else if i == 3
    then record s { softirq_net_tx = x }
    else s

-- The loop over that line, from the place i with so many left.
unfoldable pub softirqs : ℕ → ℕ → List (List ℕ) → Stat → Stat
unfolding put_softirq atoi
softirqs i zero ws s = s
softirqs i (suc left) ws s =
    let (t, rest) = next s.temp ws in
    softirqs (suc i) left rest (put_softirq i (atoi t) (record s { temp = t }))

-- `iss >> stat_intr_46` so many times.
unfoldable pub read_ints : ℕ → ℕ → Option (List (List ℕ)) → ℕ
unfolding read_int
read_ints zero old s = old
read_ints (suc n) old s = let (x, rest) = read_int old s in read_ints n x rest

-- The branch of the interrupts: the sum of all, and then 47 of them.
unfoldable pub intr : List (List ℕ) → ℕ → ℕ
unfolding read_ints
intr ws old = read_ints 48 old (some ws)

-- The body of the loop over /proc/stat.
unfoldable pub stat_line : List ℕ → Stat → Stat
unfolding words softirqs intr read_int
stat_line line s =
    let (t, ws) = next s.temp (words line) in
    if eqb t softirq_name
    then softirqs 0 11 ws (record s { temp = t })
    else if eqb t intr_name
    then record s { intr_46 = intr ws s.intr_46; temp = t }
    else if eqb t blocked_name
    then record s { procs_blocked = (read_int s.procs_blocked (some ws)).0; temp = t }
    else if eqb t running_name
    then record s { procs_running = (read_int s.procs_running (some ws)).0; temp = t }
    else if eqb t processes_name
    then record s { processes = (read_int s.processes (some ws)).0; temp = t }
    else record s { temp = t }

unfoldable pub stat_lines : List (List ℕ) → Stat → Stat
unfolding stat_line
stat_lines [] s = s
stat_lines (l ∷ ls) s = stat_lines ls (stat_line l s)
