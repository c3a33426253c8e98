-- ===== src/Asn/Laws.antt =====
-- Round trips of the value policies: what is written to a varbind is read back.
use rmond_drs.Base.{ℕ, ◌/◌, ◌%◌, ◌^◌, ◌<◌, ◌≡◌, List, [], ◌∷◌, arith}
use rmond_drs.Oid.{Oid}
use rmond_drs.Asn.{
  Netsnmp, int_mod, long_mod, get_integer, put_integer, get_ip, put_ip, get_counter, put_counter,
  get_string, put_string, get_objid, put_objid,
}

module _ ⦃n : Netsnmp⦄ where
  pub put_integer-get_integer : (asn x : ℕ) → x < int_mod → put_integer (get_integer asn x) ≡ x
  unfolding put_integer get_integer
  put_integer-get_integer asn x h = n.val_integer_word x h

  -- An address of 32 bits that is written to a varbind is read back as it was.
  put_ip-get_ip : (x : ℕ) → x < int_mod → put_ip (get_ip x) ≡ x
  unfolding put_ip get_ip
  put_ip-get_ip x h =
      rw (n.val_integer_word (n.htonl x % int_mod) (omega arith), put_ip)
        (rw mod_id (n.ntohl-htonl x h))
    where
      mod_id : n.htonl x % int_mod ≡ n.htonl x
      mod_id = omega (arith, n.htonl-lt x)

  -- A counter of 64 bits that is written to a varbind is read back as it was.
  put_counter-get_counter : (x : ℕ) → x < long_mod → put_counter (get_counter x) ≡ x
  unfolding put_counter get_counter
  put_counter-get_counter x h = rw (n.val_counter64_lem (x / 2 ^ 32) (x % 2 ^ 32)) (omega arith)

  pub put_string-get_string : (s : List ℕ) → put_string (get_string s) ≡ s
  unfolding put_string get_string
  put_string-get_string s = n.val_string_lem s

  pub put_objid-get_objid : (u : Oid) → put_objid (get_objid u) ≡ u
  unfolding put_objid get_objid
  put_objid-get_objid [] = n.val_objid_null
  put_objid-get_objid (x ∷ xs) = n.val_objid_lem (x ∷ xs)
