-- ===== src/Asn.antt =====
-- The value policies of src/asn.h and src/asn.cpp: how an int, an address, a counter, a string and
-- an OID are written to a varbind and read back. Machine integers are bit patterns; `int` and
-- `in_addr_t` have 32 bits, `unsigned long long` has 64.
pub mod Laws
use rmond_drs.Base.{ℕ, ◌+◌, ◌*◌, ◌/◌, ◌%◌, ◌^◌, ◌<◌, ◌≡◌, List, [], ◌∷◌}
use rmond_drs.Oid.{Oid}

abbrev pub int_mod : ℕ
int_mod = 4294967296

abbrev pub long_mod : ℕ
long_mod = 18446744073709551616

-- What `snmp_set_var_typed_value` was last given: four bytes, a counter64 structure, a string, a
-- vector of sub-identifiers, or a null pointer of length 0.
pub data Buffer : Type 0 where
  word : ℕ → Buffer
  counter : ℕ → ℕ → Buffer
  octets : List ℕ → Buffer
  objid : Oid → Buffer
  null : Buffer

pub record Varbind : Type 0 where
  pub asn : ℕ
  pub value : Buffer

-- How net-snmp and the C library present a stored value: the members of `netsnmp_vardata`, of which
-- `integer` is a long, and the byte order conversions. A member that does not fit what was stored
-- reads something that nothing is assumed of.
pub record Netsnmp : Type 0 where
  pub val_integer : Buffer → ℕ
  pub val_counter64 : Buffer → ℕ × ℕ
  pub val_string : Buffer → List ℕ
  pub val_objid : Buffer → Oid
  pub htonl : ℕ → ℕ
  pub ntohl : ℕ → ℕ
  pub val_integer_word : (x : ℕ) → x < int_mod → val_integer (word x) % int_mod ≡ x
  pub val_counter64_lem : (high low : ℕ) → val_counter64 (counter high low) ≡ (high, low)
  pub val_string_lem : (s : List ℕ) → val_string (octets s) ≡ s
  pub val_objid_lem : (u : Oid) → val_objid (objid u) ≡ u
  pub val_objid_null : val_objid null ≡ []
  pub htonl-lt : (x : ℕ) → htonl x < int_mod
  pub ntohl-htonl : (x : ℕ) → x < int_mod → ntohl (htonl x) ≡ x

-- Types of the wire, from net-snmp's asn1.h.
abbrev pub asn_integer : ℕ
asn_integer = 2

abbrev pub asn_octet_str : ℕ
asn_octet_str = 4

abbrev pub asn_object_id : ℕ
asn_object_id = 6

abbrev pub asn_ipaddress : ℕ
asn_ipaddress = 64

abbrev pub asn_counter64 : ℕ
asn_counter64 = 70

-- `Policy::Integer<T>`: an int is stored as its four bytes, and the long read back is truncated.
unfoldable pub get_integer : ℕ → ℕ → Varbind
get_integer asn src = record { asn = asn; value = word src }

-- `Policy::Counter`: `src_ & 0xffffffff` and `src_ >> 32`.
unfoldable pub get_counter : ℕ → Varbind
get_counter src = record { asn = asn_counter64; value = counter (src / 2 ^ 32) (src % 2 ^ 32) }

unfoldable pub get_string : List ℕ → Varbind
get_string src = record { asn = asn_octet_str; value = octets src }

-- `Policy::ObjectId`: an empty OID is stored as a null pointer.
unfoldable pub get_objid : Oid → Varbind
get_objid [] = record { asn = asn_object_id; value = null }
get_objid (x ∷ xs) = record { asn = asn_object_id; value = objid (x ∷ xs) }

module _ ⦃n : Netsnmp⦄ where
  unfoldable pub put_integer : Varbind → ℕ
  put_integer src = n.val_integer src.value % int_mod

  -- `Policy::IP`: `n` is a u_long of which `sizeof(in_addr_t)` bytes are stored.
  unfoldable pub get_ip : ℕ → Varbind
  get_ip src = record { asn = asn_ipaddress; value = word (n.htonl src % int_mod) }

  -- `ntohl` takes a uint32_t, so the long is truncated.
  unfoldable pub put_ip : Varbind → ℕ
  put_ip src = n.ntohl (n.val_integer src.value % int_mod)

  -- `(dst_ << 32) + low` in 64 bits.
  unfoldable pub put_counter : Varbind → ℕ
  put_counter src =
      let (high, low) = n.val_counter64 src.value in (high * 2 ^ 32 % long_mod + low) % long_mod

  unfoldable pub put_string : Varbind → List ℕ
  put_string src = n.val_string src.value

  unfoldable pub put_objid : Varbind → Oid
  put_objid src = n.val_objid src.value
