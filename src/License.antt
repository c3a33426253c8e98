-- ===== src/License.antt =====
-- `License` of src/host.cpp: the counters that vzlicview prints, read and published. Characters are
-- their codes, and a C string is a list without a zero.
pub mod Laws
pub mod Suffix
use rmond_drs.Base.{
  ℕ, suc, ◌+◌, ◌-◌, ◌*◌, ◌%◌, ltb, leb, ◌==◌, eqb, Bool, true, false, ◌&&◌, ◌||◌, if◌then◌else◌,
  List, [], ◌∷◌, Option, none, some, length,
}

abbrev pub uint_mod : ℕ
uint_mod = 4294967296

-- ULONG_MAX and one.
abbrev pub ulong_mod : ℕ
ulong_mod = 18446744073709551616

-- `Counter::NOLIMIT`.
abbrev pub nolimit : ℕ
nolimit = 65535

pub record Counter : Type 0 where
  pub usage : ℕ
  pub limit : ℕ

-- `isspace` of the C locale.
abbrev pub is_space : ℕ → Bool
is_space c = (c == 32) || (leb 9 c && leb c 13)

abbrev pub is_digit : ℕ → Bool
is_digit c = leb 48 c && leb c 57

unfoldable pub skip_spaces : List ℕ → List ℕ
skip_spaces [] = []
skip_spaces (c ∷ cs) = let rest = skip_spaces cs in if is_space c then rest else c ∷ cs

-- The number that the leading digits make, after those that made `acc`.
unfoldable pub digits : ℕ → List ℕ → ℕ
digits acc [] = acc
digits acc (c ∷ cs) = let more = digits (acc * 10 + (c - 48)) cs in if is_digit c then more else acc

-- A number out of range is ULONG_MAX, whatever its sign.
abbrev pub magnitude : List ℕ → ℕ
magnitude cs = digits 0 cs

abbrev pub positive_ulong : ℕ → ℕ
positive_ulong x = if ltb x ulong_mod then x else ulong_mod - 1

abbrev pub negative_ulong : ℕ → ℕ
negative_ulong x = if ltb x ulong_mod then (ulong_mod - x) % ulong_mod else ulong_mod - 1

abbrev pub signed_ulong : List ℕ → ℕ
signed_ulong [] = 0
signed_ulong (c ∷ cs) =
    if c == 45
    then negative_ulong (magnitude cs)
    else if c == 43
    then positive_ulong (magnitude cs)
    else positive_ulong (magnitude (c ∷ cs))

-- `strtoul(value, NULL, 10)`, stored to 32 bits.
unfoldable pub strtoul : List ℕ → ℕ
unfolding skip_spaces digits
strtoul cs = signed_ulong (skip_spaces cs) % uint_mod

unfoldable pub starts_with : List ℕ → List ℕ → Bool
starts_with cs [] = true
starts_with [] (p ∷ ps) = false
starts_with (c ∷ cs) (p ∷ ps) = let rest = starts_with cs ps in if c == p then rest else false

-- `boost::ends_with`: a suffix of the text is the needle.
unfoldable pub ends_with : List ℕ → List ℕ → Bool
ends_with [] ps = eqb [] ps
ends_with (c ∷ cs) ps = eqb (c ∷ cs) ps || ends_with cs ps

-- What `strchr` splits: the text before the first such character, and after it.
unfoldable pub split_at : ℕ → List ℕ → Option (List ℕ × List ℕ)
split_at x [] = none
split_at x (c ∷ cs) =
    let rest = split_at x cs in
    if c == x then some ([], cs) else (elim rest [ none ↦ none | some p ↦ some (c ∷ p.0, p.1) ])

-- "unlimited" and "combined", in their quotes, and the names of the lines.
abbrev pub unlimited : List ℕ
unlimited = 34 ∷ 117 ∷ 110 ∷ 108 ∷ 105 ∷ 109 ∷ 105 ∷ 116 ∷ 101 ∷ 100 ∷ 34 ∷ []

abbrev pub combined : List ℕ
combined = 34 ∷ 99 ∷ 111 ∷ 109 ∷ 98 ∷ 105 ∷ 110 ∷ 101 ∷ 100 ∷ 34 ∷ []

abbrev pub ct_total : List ℕ
ct_total = 99 ∷ 116 ∷ 95 ∷ 116 ∷ 111 ∷ 116 ∷ 97 ∷ 108 ∷ []

abbrev pub nr_vms : List ℕ
nr_vms = 110 ∷ 114 ∷ 95 ∷ 118 ∷ 109 ∷ 115 ∷ []

abbrev pub servers_total : List ℕ
servers_total = 115 ∷ 101 ∷ 114 ∷ 118 ∷ 101 ∷ 114 ∷ 115 ∷ 95 ∷ 116 ∷ 111 ∷ 116 ∷ 97 ∷ 108 ∷ []

unfoldable pub parse_limit : List ℕ → ℕ
unfolding starts_with strtoul
parse_limit value =
    if starts_with value unlimited
    then nolimit
    else if starts_with value combined
    then 0
    else strtoul value

unfoldable pub parse_usage : List ℕ → ℕ
unfolding split_at strtoul
parse_usage value = elim (split_at 40 value) [ none ↦ 0 | some p ↦ strtoul p.1 ]

-- `Counter::parse`.
unfoldable pub parse : List ℕ → Counter
unfolding parse_limit parse_usage
parse value = record { usage = parse_usage value; limit = parse_limit value }

-- What was found so far: the counters of containers and of virtual machines, and the servers.
pub record Found : Type 0 where
  pub v : Counter
  pub m : Counter
  pub a : ℕ

-- The body of the loop for what `fgets` has read.
unfoldable pub read_line : List ℕ → Found → Found
unfolding split_at ends_with parse
read_line b f = elim (split_at 61 b) [
  | none ↦ f
  | some p ↦
      if ends_with p.0 ct_total
      then record f { v = parse p.1 }
      else if ends_with p.0 nr_vms
      then record f { m = parse p.1 }
      else if ends_with p.0 servers_total
      then record f { a = (parse p.1).limit }
      else f
]

-- The loop, over what the calls of `fgets` read; it ends once 1024 characters were seen.
unfoldable pub read_lines : ℕ → List (List ℕ) → Found → Found
unfolding read_line
read_lines seen [] f = f
read_lines seen (b ∷ bs) f =
    let rest = read_lines (seen + length b) bs (read_line b f) in if ltb seen 1024 then rest else f

-- The properties of the host that the licence gives.
pub record Licence : Type 0 where
  pub cts : ℕ
  pub vms : ℕ
  pub ves : ℕ
  pub cts_usage : ℕ
  pub vms_usage : ℕ

-- `a ? : x`.
abbrev pub or_else : ℕ → ℕ → ℕ
or_else a x = if a == 0 then x else a

abbrev pub nothing : Found
nothing = record { v = record { usage = 0; limit = 0 }; m = record { usage = 0; limit = 0 }; a = 0 }

abbrev pub at_most : ℕ → ℕ → ℕ
at_most x y = if ltb y x then y else x

unfoldable pub publish : Found → Licence
publish f = record {
  cts = or_else f.a f.v.limit;
  vms = or_else f.a f.m.limit;
  ves = or_else f.a (at_most ((f.m.limit + f.v.limit) % uint_mod) nolimit);
  cts_usage = f.v.usage;
  vms_usage = f.m.usage;
}

-- The part of `License::Unit::refresh` that reads vzlicview: `none` if it cannot be started, or what
-- it prints and its status.
unfoldable pub refresh : Option (List (List ℕ) × ℕ) → Licence → Licence
unfolding read_lines publish
refresh none l = record l { cts = 0; vms = 0; ves = 0 }
refresh (some (bs, status)) l =
    if status == 0
    then publish (read_lines 0 bs nothing)
    else record l { cts = 0; vms = 0; ves = 0 }
