-- ===== src/Examples/Ves.antt =====
-- Devices, environments and the files under /proc at concrete inputs.
use rmond_drs.Base.{
  ℕ, leb, eqb, ◌≡◌, ◌≢◌, ◌<◌, refl, ap, Bool, true, false, ◌&&◌, List, [], ◌∷◌, ◌++◌, map, All,
  Option, none, some, length, arith, ok, fault, replicate,
}
use rmond_drs.Oid.{Oid, less, lex}
use rmond_drs.Container
use rmond_drs.Tuple.{Tuple}
use rmond_drs.Tuple
use rmond_drs.Table.{Table, find}
use rmond_drs.Table.Laws.{IsValid}
use rmond_drs.License.{starts_with, ends_with, strtoul, skip_spaces, digits}
use rmond_drs.Perspective.{tuple}
use rmond_drs.Devices.{devices, traverse, take, begin, each, increment, at_end, nth}
use rmond_drs.Devices.Laws.{backwards, devices-backwards, In}
use rmond_drs.Disk.{
  Device, Interfaces, other, Disk, row, determine, match_prefix, find_device, after,
  device_interface, device_name, index, prefixes, type_by, name_by, sata_prefix,
  read_requests_suffix,
}
use rmond_drs.Disk.Io.{refresh}
use rmond_drs.Disk.Laws.{Prefixed, determine-Named, refresh_lem, read_requests, suffix, set_column}
use rmond_drs.Ve.{Ve, Types, shaman, refresh_node, mark, get_vm}
use rmond_drs.Ve.Unit.{construct, destroy}
use rmond_drs.Ve.Laws.{construct-destroy, refresh_node_lem}
use rmond_drs.VeSchema.{
  ve_schema, disk_schema, network_schema, cpu_schema, ve_blank, disk_blank, network_blank,
  cpu_blank,
}
use rmond_drs.VeSchema.Laws.{described_lem}
use rmond_drs.Asn.{get_string}
use rmond_drs.Proc.{intr}
use rmond_drs.Proc.Laws.{last_of, intr-last}
use rmond_drs.Transport.Decimal.{decimal}
use rmond_drs.Transport.Windows.{alpha_strcpy, after_backslashes, copied, letters}
use rmond_drs.Transport.Columns.{alpha_strcpy_lem}
use rmond_drs.Host.{Listed, list}
use rmond_drs.Host.Laws.{made, list_lem}
use rmond_drs.Examples.{lex_order, big_endian}

-- A disk at the first place of SATA, and a device of another type.
abbrev sda : Device
sda = record {
  device_type = some 6;
  emulation = other;
  friendly_name = [];
  sys_name = 115 ∷ 100 ∷ 97 ∷ [];
  stack_index = some 0;
  iface_type = some 2;
  left = 0;
}

abbrev cdrom : Device
cdrom = record sda { device_type = some 4 }

abbrev two_devices : List Device
two_devices = sda ∷ cdrom ∷ []

devices-backwards_example :
    (devices 6 (λ d. d.device_type) two_devices ≡ backwards 6 (λ d. d.device_type) two_devices)
    × (traverse
          (take 6 (λ d. d.device_type) two_devices)
          5
          (begin (take 6 (λ d. d.device_type) two_devices) 2)
        ≡ devices 6 (λ d. d.device_type) two_devices)
devices-backwards_example =
    devices-backwards 6 5 (λ (d : Device). d.device_type) two_devices (omega arith)

abbrev interfaces : Interfaces
interfaces = record { unknown = 9; ide = 0; sata = 2; scsi = 1 }

-- "devices.sata0.read_requests"
abbrev counter_name : List ℕ
counter_name = sata_prefix ++ 48 ∷ read_requests_suffix

determined : determine 6 interfaces two_devices counter_name ≡ some (115 ∷ 100 ∷ 97 ∷ [])
unfolding determine match_prefix find_device after starts_with strtoul skip_spaces digits devices
    each take increment begin traverse at_end nth type_by name_by
determined = refl

determine-Named_example :
    (a : ℕ) × (b : ℕ) × (d : Device) × Prefixed counter_name (prefixes interfaces) a b
    × (b ≢ 4294967295)
    × In d two_devices
    × (d.device_type ≡ some 6)
    × (device_interface interfaces d ≡ a)
    × (index d ≡ b)
    × (device_name d ≡ 115 ∷ 100 ∷ 97 ∷ [])
determine-Named_example =
    determine-Named 6 interfaces two_devices counter_name (115 ∷ 100 ∷ 97 ∷ []) determined

-- The table of disks has a row of another environment.
abbrev name_key : List ℕ → Oid
name_key name = 5 ∷ name

abbrev no_hash : List ℕ → ℕ × ℕ
no_hash name = (0, 0)

abbrev other_disk : Tuple Disk
other_disk = record { id = 0; key = 4 ∷ 1 ∷ []; cells = row no_hash (120 ∷ []) }

abbrev disks : Table Disk
disks = record { rows = (4 ∷ 1 ∷ [], other_disk) ∷ []; fresh = 1 }

disks-IsValid : IsValid disks
disks-IsValid = record {
  sorted = (tt, tt);
  keyed = (refl, tt);
  distinct = (tt, tt);
  below = (omega arith, tt);
}

other_row : find (4 ∷ 1 ∷ []) disks ≡ some other_disk
unfolding find Container.find less lex lex_order
other_row = refl

first : Oid → ℕ
first [] = 0
first (x ∷ xs) = x

other_key : 4 ∷ 1 ∷ [] ≢ name_key (115 ∷ 100 ∷ 97 ∷ [])
unfolding first
other_key e = omega (arith, ap first e)

named_reads : ends_with counter_name (suffix read_requests) ≡ true
unfolding ends_with eqb
named_reads = refl

refresh_lem_example :
    (find
        (name_key (115 ∷ 100 ∷ 97 ∷ []))
        (refresh 6 interfaces two_devices name_key no_hash counter_name (some 77) disks)
      ≡ some
          (record (tuple
            (name_key (115 ∷ 100 ∷ 97 ∷ []))
            (row no_hash (115 ∷ 100 ∷ 97 ∷ []))
            disks).1 {
              cells =
                  set_column read_requests 77
                    (tuple
                      (name_key (115 ∷ 100 ∷ 97 ∷ []))
                      (row no_hash (115 ∷ 100 ∷ 97 ∷ []))
                      disks).1.cells;
            }))
    × (find
          (4 ∷ 1 ∷ [])
          (refresh 6 interfaces two_devices name_key no_hash counter_name (some 77) disks)
        ≡ some other_disk)
refresh_lem_example =
    refresh_lem 6 interfaces two_devices name_key no_hash
      (101 ∷ 118 ∷ 105 ∷ 99 ∷ 101 ∷ 115 ∷ 46 ∷ 115 ∷ 97 ∷ 116 ∷ 97 ∷ 48 ∷ read_requests_suffix)
      (115 ∷ 100 ∷ 97 ∷ []) read_requests 100 77 (4 ∷ 1 ∷ []) disks other_disk disks-IsValid
      named_reads determined other_key other_row

-- A table with no environment yet.
abbrev no_ves : Table Ve
no_ves = record { rows = []; fresh = 0 }

no_ves-IsValid : IsValid no_ves
no_ves-IsValid = record { sorted = tt; keyed = tt; distinct = tt; below = tt }

free_index : find (5 ∷ []) no_ves ≡ none
unfolding find Container.find
free_index = refl

construct-destroy_example :
    (find (5 ∷ []) (construct (5 ∷ []) ve_blank no_ves).0
      ≡ some (record { id = 0; key = 5 ∷ []; cells = ve_blank }))
    × (find
          (6 ∷ [])
          (destroy (construct (5 ∷ []) ve_blank no_ves).1 (construct (5 ∷ []) ve_blank no_ves).0)
        ≡ find (6 ∷ []) no_ves)
construct-destroy_example =
    construct-destroy (5 ∷ []) (6 ∷ []) ve_blank no_ves no_ves-IsValid free_index

-- shaman answers "n1" for a virtual machine without a name.
abbrev types : Types
types = record { vm = 0; ct = 1 }

abbrev shaman_output : List ℕ → Option (List (List ℕ))
shaman_output command = some ((mark ++ (32 ∷ [] ++ (110 ∷ 49 ∷ [] ++ 10 ∷ []))) ∷ [])

asked : shaman types (some 0) (record ve_blank { perfect_node = [] }) ≡ some get_vm
unfolding shaman
asked = refl

refresh_node_lem_example :
    (refresh_node shaman_output types (some 0) ve_blank).perfect_node ≡ 110 ∷ 49 ∷ []
refresh_node_lem_example =
    refresh_node_lem shaman_output types (some 0) ve_blank get_vm (32 ∷ []) (49 ∷ []) (10 ∷ []) 110
      [] [] asked refl (refl, tt) refl refl (refl, tt) tt tt (omega arith)

abbrev sums : List ℕ
sums = replicate 48 7

intr-last_example : intr (map decimal sums ++ []) 0 ≡ last_of 0 sums
intr-last_example = intr-last 0 sums [] refl (omega arith)

-- Two counters of typeperf, of which one has too few backslashes.
abbrev is_letter : ℕ → Bool
is_letter c = leb 97 c && leb c 122

one_letter : length (letters is_letter (97 ∷ 49 ∷ [])) < 50
unfolding letters
one_letter = omega arith

-- A column that ends the text, and one with a single backslash, with a whole column behind it or
-- nothing.
alpha_strcpy_lem_example :
    (alpha_strcpy is_letter
        ([] ++ 92 ∷ ([] ++ 92 ∷ (104 ∷ [] ++ 92 ∷ 97 ∷ 49 ∷ [])))
        (92 ∷ 92 ∷ 98 ∷ [])
      ≡ ok (letters is_letter (97 ∷ 49 ∷ [])))
    × All (λ c. is_letter c ≡ true) (letters is_letter (97 ∷ 49 ∷ []))
    × (alpha_strcpy is_letter (92 ∷ 97 ∷ []) (92 ∷ 92 ∷ 98 ∷ [])
        ≡ copied is_letter (after_backslashes 2 (0 ∷ 92 ∷ 92 ∷ 98 ∷ [])))
    × (alpha_strcpy is_letter (92 ∷ 97 ∷ []) [] ≡ fault)
alpha_strcpy_lem_example =
    alpha_strcpy_lem is_letter [] [] (104 ∷ []) (97 ∷ 49 ∷ []) (92 ∷ 92 ∷ 98 ∷ []) (92 ∷ 97 ∷ []) []
      tt tt (refl, tt) (refl, (refl, tt)) one_letter (omega arith) (omega arith)

abbrev listed : List Listed
listed = record { ve_type = some 0; uuid = 7 ∷ []; ct_id = [] } ∷ []

list_lem_example :
    (list types true true true (some (map some listed)) [] ≡ (made types listed, false))
    × (list types true true true (some (map some listed ++ none ∷ [])) []
        ≡ (made types listed, true))
    × (list types false true true (some (map some listed)) [] ≡ ([], true))
    × (list types true false true (some (map some listed)) [] ≡ ([], true))
    × (list types true true false (some (map some listed)) [] ≡ ([], true))
    × (list types true true true none [] ≡ ([], true))
list_lem_example = list_lem types listed []

described_lem_example :
    (Tuple.get ve_schema 16 ve_blank ≡ some (get_string []))
    × (Tuple.get disk_schema 16 disk_blank ≡ none)
    × (Tuple.get network_schema 16 network_blank ≡ none)
    × (Tuple.get cpu_schema 16 cpu_blank ≡ none)
described_lem_example = described_lem 16 ve_blank disk_blank network_blank cpu_blank
