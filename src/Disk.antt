-- ===== src/Disk.antt =====
-- `VE::Disk` of src/ve.cpp: the devices that stand behind disks, the rows of the table of disks, and
-- the events and queries that fill it. Texts are lists of bytes, and numbers of 64 bits wrap around.
pub mod Io
pub mod Laws
use rmond_drs.Base.{
  ℕ, suc, ◌+◌, ◌/◌, ◌%◌, ◌==◌, Bool, true, false, ◌&&◌, if◌then◌else◌, List, [], ◌∷◌, map, Option,
  none, some,
}
use rmond_drs.Oid.{Oid, IndexOrder}
use rmond_drs.Container.{find, drop_key}
use rmond_drs.Tuple.{Tuple}
use rmond_drs.Table.{Table, update}
use rmond_drs.Server.{strings, Uuid, assign}
use rmond_drs.License.{uint_mod, ulong_mod, strtoul, starts_with, ends_with}
use rmond_drs.Perspective.{Flavor, tuple}
use rmond_drs.Devices.{each, devices, make}

-- The emulation of a device: `PDT_ANY_TYPE`, `PDT_USE_FILE_SYSTEM`, or another.
pub data Emulation : Type 0 where
  any_type use_file_system other : Emulation

-- What the SDK tells of a device: its type, if it can be read; its names; its stack index and its
-- interface, where the calls succeed. `left` is what an unset variable of `Device::type` holds.
pub record Device : Type 0 where
  pub device_type : Option ℕ
  pub emulation : Emulation
  pub friendly_name : List ℕ
  pub sys_name : List ℕ
  pub stack_index : Option ℕ
  pub iface_type : Option ℕ
  pub left : ℕ

-- `List::Device::name`.
unfoldable pub name_by : Emulation → Device → List ℕ
name_by any_type d = []
name_by use_file_system d = d.friendly_name
name_by other d = d.sys_name

abbrev pub device_name : Device → List ℕ
device_name d = name_by d.emulation d

abbrev pub or_else : Option ℕ → ℕ → ℕ
or_else none x = x
or_else (some y) x = y

-- `List::Device::index`.
abbrev pub index : Device → ℕ
index d = or_else d.stack_index 0

-- The interfaces of `PRL_MASS_STORAGE_INTERFACE_TYPE` that the code names.
pub record Interfaces : Type 0 where
  pub unknown : ℕ
  pub ide : ℕ
  pub sata : ℕ
  pub scsi : ℕ

-- `List::Device::type`.
unfoldable pub type_by : Interfaces → Emulation → Device → ℕ
type_by f any_type d = f.unknown
type_by f use_file_system d = f.ide
type_by f other d = or_else d.iface_type d.left

abbrev pub device_interface : Interfaces → Device → ℕ
device_interface f d = type_by f d.emulation d

-- "devices.ide"
abbrev pub ide_prefix : List ℕ
ide_prefix = 100 ∷ 101 ∷ 118 ∷ 105 ∷ 99 ∷ 101 ∷ 115 ∷ 46 ∷ 105 ∷ 100 ∷ 101 ∷ []

-- "devices.sata"
abbrev pub sata_prefix : List ℕ
sata_prefix = 100 ∷ 101 ∷ 118 ∷ 105 ∷ 99 ∷ 101 ∷ 115 ∷ 46 ∷ 115 ∷ 97 ∷ 116 ∷ 97 ∷ []

-- "devices.scsi"
abbrev pub scsi_prefix : List ℕ
scsi_prefix = 100 ∷ 101 ∷ 118 ∷ 105 ∷ 99 ∷ 101 ∷ 115 ∷ 46 ∷ 115 ∷ 99 ∷ 115 ∷ 105 ∷ []

-- `&counter_[m.first.size()]`.
unfoldable pub after : List ℕ → List ℕ → List ℕ
after cs [] = cs
after [] (p ∷ ps) = []
after (c ∷ cs) (p ∷ ps) = after cs ps

-- The loop over the prefixes: the interface and the number of the first that fits.
unfoldable pub match_prefix : List ℕ → List (List ℕ × ℕ) → Option (ℕ × ℕ)
unfolding starts_with after strtoul
match_prefix counter [] = none
match_prefix counter ((p, a) ∷ ps) =
    let rest = match_prefix counter ps in
    if starts_with counter p then some (a, strtoul (after counter p)) else rest

-- The loop over the devices.
unfoldable pub find_device : Interfaces → ℕ → ℕ → List Device → Option (List ℕ)
unfolding name_by type_by
find_device f a b [] = none
find_device f a b (d ∷ ds) =
    let rest = find_device f a b ds in
    if (a == device_interface f d) && (index d == b) then some (device_name d) else rest

abbrev pub prefixes : Interfaces → List (List ℕ × ℕ)
prefixes f = (ide_prefix, f.ide) ∷ (sata_prefix, f.sata) ∷ (scsi_prefix, f.scsi) ∷ []

abbrev pub determine_at : Interfaces → List Device → Option (ℕ × ℕ) → Option (List ℕ)
determine_at f ds none = none
determine_at f ds (some (a, b)) = if b == 4294967295 then none else find_device f a b ds

-- `Flavor::determine`: the name of the device that a counter is about; `hard` is `PDE_HARD_DISK`.
unfoldable pub determine : ℕ → Interfaces → List Device → List ℕ → Option (List ℕ)
unfolding match_prefix find_device devices
determine hard f ds counter =
    determine_at f (devices hard (λ d. d.device_type) ds) (match_prefix counter (prefixes f))

-- A row of the table; its index has two halves of a hash of the name.
pub record Disk : Type 0 where
  pub hash1 : ℕ
  pub hash2 : ℕ
  pub name : List ℕ
  pub total : ℕ
  pub usage : ℕ
  pub read_requests : ℕ
  pub write_requests : ℕ
  pub read_bytes : ℕ
  pub write_bytes : ℕ

-- `Flavor::key`: the two columns of the hash; `hash_combine` is boost's, on the hash of a string.
unfoldable pub hash_columns : (ℕ → List ℕ → ℕ) → List ℕ → List ℕ → ℕ × ℕ
hash_columns hash_combine veid name =
    let h = hash_combine (hash_combine 3735941133 veid) name in
    (h % uint_mod, h / uint_mod % uint_mod)

abbrev pub Hash : Type 0
Hash = List ℕ → ℕ × ℕ

-- `Flavor::tuple`, whose key gives the columns of the hash.
abbrev pub row : Hash → List ℕ → Disk
row hash name = record {
  hash1 = (hash name).0;
  hash2 = (hash name).1;
  name = name;
  total = 0;
  usage = 0;
  read_requests = 0;
  write_requests = 0;
  read_bytes = 0;
  write_bytes = 0;
}

-- `Usage::Device`: the name, and the free and used bytes where they can be read.
pub record Used : Type 0 where
  pub name : List ℕ
  pub free_bytes : Option ℕ
  pub used_bytes : Option ℕ

unfoldable pub row_of : Hash → Used → Disk
row_of hash d = record (row hash d.name) {
  usage = or_else d.used_bytes 0;
  total = (or_else d.used_bytes 0 + or_else d.free_bytes 0) % ulong_mod;
}

-- `m_map` of `Update`, by name.
abbrev pub Rows : Type 0
Rows = List (Uuid × Disk)

abbrev pub is_empty : List ℕ → Bool
is_empty [] = true
is_empty (c ∷ cs) = false

-- The loop of `Update::fill`.
unfoldable pub fill_rows : Hash → List Used → Rows → Rows
unfolding row_of assign
fill_rows hash [] m = m
fill_rows hash (d ∷ ds) m =
    fill_rows hash ds (if is_empty d.name then m else assign d.name (row_of hash d) m)

-- `Update::fill`, of the statistics: `stat n` is the n-th disk's, if it can be read.
unfoldable pub fill : Hash → (ℕ → Option Used) → ℕ → Rows
unfolding fill_rows each
fill hash stat count = fill_rows hash (each stat count) []

-- `Update::apply`.
unfoldable pub apply : Disk → Rows → Rows × Disk × Bool
apply to m = elim (find to.name m) [
  | none ↦ (m, to, true)
  | some d ↦ (drop_key to.name m, record to { total = d.total; usage = d.usage }, false)
]

-- `Update`; `key` is the index of a row with the name.
unfoldable pub disks : (List ℕ → Oid) → Hash → (ℕ → Option Used) → ℕ → Flavor Disk Rows
unfolding fill apply
disks key hash stat count = record {
  fill = λ m. fill hash stat count;
  apply = apply;
  rest = λ m. map (λ p. (key p.0, p.1)) m;
}

-- ".read_requests"
abbrev pub read_requests_suffix : List ℕ
read_requests_suffix =
    46 ∷ 114 ∷ 101 ∷ 97 ∷ 100 ∷ 95 ∷ 114 ∷ 101 ∷ 113 ∷ 117 ∷ 101 ∷ 115 ∷ 116 ∷ 115 ∷ []

-- ".write_requests"
abbrev pub write_requests_suffix : List ℕ
write_requests_suffix =
    46 ∷ 119 ∷ 114 ∷ 105 ∷ 116 ∷ 101 ∷ 95 ∷ 114 ∷ 101 ∷ 113 ∷ 117 ∷ 101 ∷ 115 ∷ 116 ∷ 115 ∷ []

-- ".read_total"
abbrev pub read_total_suffix : List ℕ
read_total_suffix = 46 ∷ 114 ∷ 101 ∷ 97 ∷ 100 ∷ 95 ∷ 116 ∷ 111 ∷ 116 ∷ 97 ∷ 108 ∷ []

-- ".write_total"
abbrev pub write_total_suffix : List ℕ
write_total_suffix = 46 ∷ 119 ∷ 114 ∷ 105 ∷ 116 ∷ 101 ∷ 95 ∷ 116 ∷ 111 ∷ 116 ∷ 97 ∷ 108 ∷ []

-- The four tests of `Io::refresh`, in their order.
unfoldable pub put_counter : List ℕ → ℕ → Disk → Disk
unfolding ends_with
put_counter n u r =
    let r1 = if ends_with n read_requests_suffix then record r { read_requests = u } else r in
    let r2 = if ends_with n write_requests_suffix then record r1 { write_requests = u } else r1 in
    let r3 = if ends_with n read_total_suffix then record r2 { read_bytes = u } else r2 in
    if ends_with n write_total_suffix then record r3 { write_bytes = u } else r3
