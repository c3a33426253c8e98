-- ===== src/Network.antt =====
-- `VE::Network` of src/ve.cpp: the adapters of a virtual environment, the rows of the table of its
-- network interfaces, and the events and queries that fill it. Texts are lists of bytes.
pub mod Traffic
pub mod Laws
use rmond_drs.Base.{
  ℕ, ◌==◌, eqb, Bool, true, false, if◌then◌else◌, List, [], ◌∷◌, map, Option, none, some,
}
use rmond_drs.Oid.{Oid}
use rmond_drs.Container.{find, drop_key}
use rmond_drs.Server.{strings, Uuid, assign}
use rmond_drs.License.{strtoul, starts_with, ends_with}
use rmond_drs.Perspective.{Flavor}
use rmond_drs.Devices.{each, devices}
use rmond_drs.Disk.{after, or_else}

-- What the SDK tells of a device: its type and its index where they can be read, its address and its
-- name.
pub record Device : Type 0 where
  pub device_type : Option ℕ
  pub device_index : Option ℕ
  pub mac : List ℕ
  pub name : List ℕ

-- `Device::Unit::index`.
abbrev pub index : Device → ℕ
index d = or_else d.device_index 0

unfoldable pub by_name : List ℕ → List Device → Option Device
by_name name [] = none
by_name name (d ∷ ds) = let rest = by_name name ds in if eqb name d.name then some d else rest

abbrev pub or_first : Option Device → List Device → Option Device
or_first none [] = none
or_first none (d ∷ ds) = some d
or_first (some d) ds = some d

-- `Device::List::find`, of the adapters in the order of the loop: the one with the name, or else the
-- first.
unfoldable pub find_device : List ℕ → List Device → Option Device
unfolding by_name
find_device name ds = or_first (by_name name ds) ds

-- "net.nic"
abbrev pub nic_prefix : List ℕ
nic_prefix = 110 ∷ 101 ∷ 116 ∷ 46 ∷ 110 ∷ 105 ∷ 99 ∷ []

unfoldable pub by_index : ℕ → List Device → Option Device
by_index i [] = none
by_index i (d ∷ ds) = let rest = by_index i ds in if i == index d then some d else rest

-- `Device::List::determine`.
unfoldable pub determine : List ℕ → List Device → Option Device
unfolding starts_with after strtoul by_index
determine counter ds =
    if starts_with counter nic_prefix
    then (if strtoul (after counter nic_prefix) == 4294967295
        then none
        else by_index (strtoul (after counter nic_prefix)) ds)
    else none

-- A row of the table.
pub record Interface : Type 0 where
  pub name : List ℕ
  pub in_bytes : ℕ
  pub out_bytes : ℕ
  pub in_packets : ℕ
  pub out_packets : ℕ
  pub mac : List ℕ

-- `Flavor::tuple`; its index has the device's name.
abbrev pub row : Device → Interface
row d = record {
  name = d.name;
  in_bytes = 0;
  out_bytes = 0;
  in_packets = 0;
  out_packets = 0;
  mac = d.mac;
}

-- `Usage::Device`: the name of an interface, and its counters where they can be read.
pub record Used : Type 0 where
  pub name : List ℕ
  pub in_bytes : Option ℕ
  pub out_bytes : Option ℕ
  pub in_packets : Option ℕ
  pub out_packets : Option ℕ

unfoldable pub row_of : Device → Used → Interface
row_of d s = record (row d) {
  in_bytes = or_else s.in_bytes 0;
  out_bytes = or_else s.out_bytes 0;
  in_packets = or_else s.in_packets 0;
  out_packets = or_else s.out_packets 0;
}

-- `m_map` of `Traffic::Update`, by name.
abbrev pub Rows : Type 0
Rows = List (Uuid × Interface)

abbrev pub add_row : Option Device → Used → Rows → Rows
add_row none s m = m
add_row (some d) s m = assign d.name (row_of d s) m

-- The loop of `Update::fill`.
unfoldable pub fill_rows : List Device → List Used → Rows → Rows
unfolding find_device row_of assign
fill_rows ds [] m = m
fill_rows ds (s ∷ ss) m = fill_rows ds ss (add_row (find_device s.name ds) s m)

-- `Update::fill`, of the adapters in the order of the loop, and of the statistics: `stat n` is the n-th
-- interface's, if it can be read.
unfoldable pub fill : List Device → (ℕ → Option Used) → ℕ → Rows
unfolding fill_rows each
fill ds stat count = fill_rows ds (each stat count) []

-- `Update::apply`.
unfoldable pub apply : Interface → Rows → Rows × Interface × Bool
apply to m = elim (find to.name m) [
  | none ↦ (m, to, true)
  | some d ↦ (
    drop_key to.name m,
    record to {
      in_bytes = d.in_bytes;
      out_bytes = d.out_bytes;
      in_packets = d.in_packets;
      out_packets = d.out_packets;
    },
    false,
  )
]

-- `Update`; `adapter` is `PDE_GENERIC_NETWORK_ADAPTER`, `all` the devices of the environment, and `key`
-- the index of a row with the name.
unfoldable pub interfaces :
    (List ℕ → Oid) → ℕ → List Device → (ℕ → Option Used) → ℕ → Flavor Interface Rows
unfolding fill apply devices
interfaces key adapter all stat count = record {
  fill = λ m. fill (devices adapter (λ d. d.device_type) all) stat count;
  apply = apply;
  rest = λ m. map (λ p. (key p.0, p.1)) m;
}

-- ".pkts_in"
abbrev pub pkts_in_suffix : List ℕ
pkts_in_suffix = 46 ∷ 112 ∷ 107 ∷ 116 ∷ 115 ∷ 95 ∷ 105 ∷ 110 ∷ []

-- ".pkts_out"
abbrev pub pkts_out_suffix : List ℕ
pkts_out_suffix = 46 ∷ 112 ∷ 107 ∷ 116 ∷ 115 ∷ 95 ∷ 111 ∷ 117 ∷ 116 ∷ []

-- ".bytes_in"
abbrev pub bytes_in_suffix : List ℕ
bytes_in_suffix = 46 ∷ 98 ∷ 121 ∷ 116 ∷ 101 ∷ 115 ∷ 95 ∷ 105 ∷ 110 ∷ []

-- ".bytes_out"
abbrev pub bytes_out_suffix : List ℕ
bytes_out_suffix = 46 ∷ 98 ∷ 121 ∷ 116 ∷ 101 ∷ 115 ∷ 95 ∷ 111 ∷ 117 ∷ 116 ∷ []

-- The four tests of `Traffic::Event::refresh`, in their order.
unfoldable pub put_counter : List ℕ → ℕ → Interface → Interface
unfolding ends_with
put_counter n u r =
    let r1 = if ends_with n pkts_in_suffix then record r { in_packets = u } else r in
    let r2 = if ends_with n pkts_out_suffix then record r1 { out_packets = u } else r1 in
    let r3 = if ends_with n bytes_in_suffix then record r2 { in_bytes = u } else r2 in
    if ends_with n bytes_out_suffix then record r3 { out_bytes = u } else r3
