-- ===== src/VeSchema.antt =====
-- The schemas of src/ve.h: the columns of the tables of virtual environments, of their disks, network
-- interfaces and CPUs, and of the counters of Linux guests, and the indices of these tables.
pub mod Laws
use rmond_drs.Base.{ℕ, List, [], ◌∷◌, ◌++◌, Option, none, some}
use rmond_drs.Oid.{Oid, uuid}
use rmond_drs.Asn.{
  Varbind, Netsnmp, asn_integer, get_integer, put_integer, get_string, put_string, get_counter,
  put_counter,
}
use rmond_drs.Tuple.{Column, Schema}
use rmond_drs.Ve.{Ve}
use rmond_drs.Guest.Stats.{Counters}
use rmond_drs.Disk.{Disk}
use rmond_drs.Network.{Interface}
use rmond_drs.Perspective.{Cpu}

-- ASN_COUNTER.
abbrev pub asn_counter : ℕ
asn_counter = 65

-- A table without a column of the row's status.
unfoldable pub read_only : {R : Type 0} → List (Column R) → List (Option ℕ) → R → Schema R
read_only columns index blank = record {
  columns = columns;
  index_type = index;
  row_status = 0;
  status = λ r. 0;
  set_status = λ x r. r;
  blank = blank;
}

module _ {R : Type 0} where
  -- `Declaration` of an int, of a counter and of a string.
  unfoldable pub integer : ⦃n : Netsnmp⦄ → ℕ → ℕ → (R → ℕ) → (ℕ → R → R) → Column R
  integer asn name get put = record {
    name = name;
    read = λ r. get_integer asn (get r);
    write = λ v r. put (put_integer v) r;
  }

  unfoldable pub counter : ⦃n : Netsnmp⦄ → ℕ → (R → ℕ) → (ℕ → R → R) → Column R
  counter name get put = record {
    name = name;
    read = λ r. get_counter (get r);
    write = λ v r. put (put_counter v) r;
  }

  unfoldable pub string : ⦃n : Netsnmp⦄ → ℕ → (R → List ℕ) → (List ℕ → R → R) → Column R
  string name get put = record {
    name = name;
    read = λ r. get_string (get r);
    write = λ v r. put (put_string v) r;
  }

abbrev pub ve_blank : Ve
ve_blank = record {
  veid = [];
  ve_type = 0;
  os_type = 0;
  name = [];
  uuid = [];
  state = 0;
  perfect_node = [];
  memory_total = 0;
  memory_usage = 0;
  swap_total = 0;
  swap_usage = 0;
  cpu_number = 0;
  cpu_limit = 0;
  cpu_units = 0;
  cpu_system = 0;
  cpu_user = 0;
}

-- `Schema<VE::TABLE>`.
unfoldable pub ve_schema : ⦃n : Netsnmp⦄ → Schema Ve
unfolding read_only integer counter string
ve_schema =
    read_only
      (string 1 (λ r. r.veid) (λ x r. record r { veid = x })
        ∷ integer asn_integer 14 (λ r. r.ve_type) (λ x r. record r { ve_type = x })
        ∷ integer asn_integer 15 (λ r. r.os_type) (λ x r. record r { os_type = x })
        ∷ string 2 (λ r. r.name) (λ x r. record r { name = x })
        ∷ string 16 (λ r. r.uuid) (λ x r. record r { uuid = x })
        ∷ integer asn_integer 3 (λ r. r.state) (λ x r. record r { state = x })
        ∷ string 4 (λ r. r.perfect_node) (λ x r. record r { perfect_node = x })
        ∷ counter 5 (λ r. r.memory_total) (λ x r. record r { memory_total = x })
        ∷ counter 6 (λ r. r.memory_usage) (λ x r. record r { memory_usage = x })
        ∷ counter 7 (λ r. r.swap_total) (λ x r. record r { swap_total = x })
        ∷ counter 8 (λ r. r.swap_usage) (λ x r. record r { swap_usage = x })
        ∷ integer asn_integer 9 (λ r. r.cpu_number) (λ x r. record r { cpu_number = x })
        ∷ integer asn_integer 10 (λ r. r.cpu_limit) (λ x r. record r { cpu_limit = x })
        ∷ integer asn_integer 11 (λ r. r.cpu_units) (λ x r. record r { cpu_units = x })
        ∷ integer asn_integer 12 (λ r. r.cpu_system) (λ x r. record r { cpu_system = x })
        ∷ integer asn_integer 13 (λ r. r.cpu_user) (λ x r. record r { cpu_user = x })
        ∷ [])
      (some 1 ∷ []) ve_blank

abbrev pub linux_blank : Counters
linux_blank = record {
  loadavg_15 = 0;
  loadavg_current_existing = 0;
  diskstats_ios_in_process = 0;
  diskstats_ms_writing = 0;
  meminfo_pagetables = 0;
  meminfo_mapped = 0;
  meminfo_dirty = 0;
  meminfo_sunreclaim = 0;
  meminfo_writeback = 0;
}

-- `Schema<VE::Counters::Linux::TABLE>`.
unfoldable pub linux_schema : ⦃n : Netsnmp⦄ → Schema Counters
unfolding read_only integer counter string
linux_schema =
    read_only
      (integer asn_integer 1 (λ r. r.loadavg_15) (λ x r. record r { loadavg_15 = x })
        ∷ integer asn_integer 2 (λ r. r.loadavg_current_existing)
            (λ x r. record r { loadavg_current_existing = x })
        ∷ integer asn_integer 3 (λ r. r.diskstats_ios_in_process)
            (λ x r. record r { diskstats_ios_in_process = x })
        ∷ integer asn_integer 4 (λ r. r.diskstats_ms_writing)
            (λ x r. record r { diskstats_ms_writing = x })
        ∷ integer asn_integer 5 (λ r. r.meminfo_pagetables)
            (λ x r. record r { meminfo_pagetables = x })
        ∷ integer asn_integer 6 (λ r. r.meminfo_mapped) (λ x r. record r { meminfo_mapped = x })
        ∷ integer asn_integer 7 (λ r. r.meminfo_dirty) (λ x r. record r { meminfo_dirty = x })
        ∷ integer asn_integer 8 (λ r. r.meminfo_sunreclaim)
            (λ x r. record r { meminfo_sunreclaim = x })
        ∷ integer asn_integer 9 (λ r. r.meminfo_writeback)
            (λ x r. record r { meminfo_writeback = x })
        ∷ [])
      (none ∷ []) linux_blank

abbrev pub disk_blank : Disk
disk_blank = record {
  hash1 = 0;
  hash2 = 0;
  name = [];
  total = 0;
  usage = 0;
  read_requests = 0;
  write_requests = 0;
  read_bytes = 0;
  write_bytes = 0;
}

-- `Schema<VE::Disk::TABLE>`.
unfoldable pub disk_schema : ⦃n : Netsnmp⦄ → Schema Disk
unfolding read_only integer counter string
disk_schema =
    read_only
      (integer asn_counter 8 (λ r. r.hash1) (λ x r. record r { hash1 = x })
        ∷ integer asn_counter 9 (λ r. r.hash2) (λ x r. record r { hash2 = x })
        ∷ string 1 (λ r. r.name) (λ x r. record r { name = x })
        ∷ counter 2 (λ r. r.total) (λ x r. record r { total = x })
        ∷ counter 3 (λ r. r.usage) (λ x r. record r { usage = x })
        ∷ counter 4 (λ r. r.read_requests) (λ x r. record r { read_requests = x })
        ∷ counter 5 (λ r. r.write_requests) (λ x r. record r { write_requests = x })
        ∷ counter 6 (λ r. r.read_bytes) (λ x r. record r { read_bytes = x })
        ∷ counter 7 (λ r. r.write_bytes) (λ x r. record r { write_bytes = x })
        ∷ [])
      (none ∷ some 8 ∷ some 9 ∷ []) disk_blank

abbrev pub network_blank : Interface
network_blank = record {
  name = [];
  in_bytes = 0;
  out_bytes = 0;
  in_packets = 0;
  out_packets = 0;
  mac = [];
}

-- `Schema<VE::Network::TABLE>`.
unfoldable pub network_schema : ⦃n : Netsnmp⦄ → Schema Interface
unfolding read_only integer counter string
network_schema =
    read_only
      (string 1 (λ r. r.name) (λ x r. record r { name = x })
        ∷ counter 2 (λ r. r.in_bytes) (λ x r. record r { in_bytes = x })
        ∷ counter 3 (λ r. r.out_bytes) (λ x r. record r { out_bytes = x })
        ∷ counter 4 (λ r. r.in_packets) (λ x r. record r { in_packets = x })
        ∷ counter 5 (λ r. r.out_packets) (λ x r. record r { out_packets = x })
        ∷ string 6 (λ r. r.mac) (λ x r. record r { mac = x })
        ∷ [])
      (none ∷ some 1 ∷ []) network_blank

abbrev pub cpu_blank : Cpu
cpu_blank = record { ordinal = 0; time = 0 }

-- `Schema<VE::CPU::TABLE>`.
unfoldable pub cpu_schema : ⦃n : Netsnmp⦄ → Schema Cpu
unfolding read_only integer counter string
cpu_schema =
    read_only
      (integer asn_integer 1 (λ r. r.ordinal) (λ x r. record r { ordinal = x })
        ∷ counter 2 (λ r. r.time) (λ x r. record r { time = x })
        ∷ [])
      (none ∷ some 1 ∷ []) cpu_blank

-- `Schema<T>::uuid` of the tables.
unfoldable pub ve_oid : Oid
unfolding uuid
ve_oid = uuid 55

unfoldable pub disk_oid : Oid
unfolding uuid
disk_oid = uuid 56

unfoldable pub network_oid : Oid
unfolding uuid
network_oid = uuid 57

unfoldable pub cpu_oid : Oid
unfolding uuid
cpu_oid = uuid 58

unfoldable pub linux_oid : Oid
unfolding uuid
linux_oid = uuid 59 ++ 1 ∷ []
