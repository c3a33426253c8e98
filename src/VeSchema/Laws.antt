-- ===== src/VeSchema/Laws.antt =====
-- The tables of virtual environments as the MIB of mibs/PARALLELS-RMOND-DRS-SMI.txt describes them, and
-- what the agent answers for them.
use rmond_drs.Base.{ℕ, ◌==◌, ◌≡◌, if◌then◌else◌, List, [], ◌∷◌, Option, none, some, arith}
use rmond_drs.Asn.{Varbind, Netsnmp, asn_integer, get_integer, get_counter, get_string}
use rmond_drs.Tuple
use rmond_drs.Ve.{Ve}
use rmond_drs.Disk.{Disk}
use rmond_drs.Network.{Interface}
use rmond_drs.Perspective.{Cpu}
use rmond_drs.VeSchema.{
  ve_schema, disk_schema, network_schema, cpu_schema, read_only, integer, counter, string,
  asn_counter,
}

-- The object of an entry with a number, in a description of the entry.
abbrev pub described : List (ℕ × Varbind) → ℕ → Option Varbind
described [] name = none
described ((i, v) ∷ vs) name = if i == name then some v else described vs name

module _ ⦃n : Netsnmp⦄ where
  -- rmond_drsVeTableEntry.
  abbrev pub mib_ve : Ve → List (ℕ × Varbind)
  mib_ve r =
      (1, get_string r.veid)
      ∷ (2, get_string r.name)
      ∷ (3, get_integer asn_integer r.state)
      ∷ (4, get_string r.perfect_node)
      ∷ (5, get_counter r.memory_total)
      ∷ (6, get_counter r.memory_usage)
      ∷ (7, get_counter r.swap_total)
      ∷ (8, get_counter r.swap_usage)
      ∷ (9, get_integer asn_integer r.cpu_number)
      ∷ (10, get_integer asn_integer r.cpu_limit)
      ∷ (11, get_integer asn_integer r.cpu_units)
      ∷ (12, get_integer asn_integer r.cpu_system)
      ∷ (13, get_integer asn_integer r.cpu_user)
      ∷ (14, get_integer asn_integer r.ve_type)
      ∷ (15, get_string r.uuid)
      ∷ []

  -- rmond_drsVeDiskTableEntry.
  abbrev pub mib_disk : Disk → List (ℕ × Varbind)
  mib_disk r =
      (1, get_string r.name)
      ∷ (2, get_counter r.total)
      ∷ (3, get_counter r.usage)
      ∷ (4, get_counter r.read_requests)
      ∷ (5, get_counter r.write_requests)
      ∷ (6, get_counter r.read_bytes)
      ∷ (7, get_counter r.write_bytes)
      ∷ (8, get_integer asn_counter r.hash1)
      ∷ (9, get_integer asn_counter r.hash2)
      ∷ []

  -- rmond_drsVeNetworkTableEntry.
  abbrev pub mib_network : Interface → List (ℕ × Varbind)
  mib_network r =
      (1, get_string r.name)
      ∷ (2, get_counter r.in_bytes)
      ∷ (3, get_counter r.out_bytes)
      ∷ (4, get_counter r.in_packets)
      ∷ (5, get_counter r.out_packets)
      ∷ (6, get_string r.mac)
      ∷ []

  -- rmond_drsVeVCpuTableEntry.
  abbrev pub mib_cpu : Cpu → List (ℕ × Varbind)
  mib_cpu r = (1, get_integer asn_integer r.ordinal) ∷ (2, get_counter r.time) ∷ []

  ve_get :
      (name : ℕ) (r : Ve)
      → Tuple.get ve_schema name r ≡ (
          if name == 15
          then some (get_integer asn_integer r.os_type)
          else if name == 16
          then some (get_string r.uuid)
          else described (mib_ve r) name)
  unfolding Tuple.get ve_schema read_only integer counter string
  ve_get name r = ground arith

  disk_get : (name : ℕ) (r : Disk) → Tuple.get disk_schema name r ≡ described (mib_disk r) name
  unfolding Tuple.get disk_schema read_only integer counter string
  disk_get name r = ground arith

  network_get :
      (name : ℕ) (r : Interface) → Tuple.get network_schema name r ≡ described (mib_network r) name
  unfolding Tuple.get network_schema read_only integer counter string
  network_get name r = ground arith

  cpu_get : (name : ℕ) (r : Cpu) → Tuple.get cpu_schema name r ≡ described (mib_cpu r) name
  unfolding Tuple.get cpu_schema read_only integer counter string
  cpu_get name r = ground arith

  -- A row of the table of disks, of network interfaces or of CPUs answers under each number,
  -- whatever it is, the value and the type that the MIB gives to it, and nothing under the others.
  -- A row of the table of environments does so but for 15 and 16: the MIB gives 15 to the UUID, and
  -- 16 to nothing; the agent answers the type of the guest's system under 15, and the UUID under
  -- 16.
  pub described_lem :
      (name : ℕ) (r : Ve) (d : Disk) (i : Interface) (p : Cpu)
      → (Tuple.get ve_schema name r ≡ (
          if name == 15
          then some (get_integer asn_integer r.os_type)
          else if name == 16
          then some (get_string r.uuid)
          else described (mib_ve r) name))
        × (Tuple.get disk_schema name d ≡ described (mib_disk d) name)
        × (Tuple.get network_schema name i ≡ described (mib_network i) name)
        × (Tuple.get cpu_schema name p ≡ described (mib_cpu p) name)
  described_lem name r d i p = (ve_get name r, disk_get name d, network_get name i, cpu_get name p)
