-- ===== src/Eth/Header.antt =====
-- crates/pnio/src/eth/header.rs: MAC addresses and the Ethernet II header, tagged or not.
use pnio_rs.Prelude.{ℕ, ◌+◌, ◌≡◌, ◌↔◌, Bool, true, ◌&&◌, Option, none, some, arith}
use pnio_rs.Prelude.{[], ◌∷◌, ◌++◌, length, ltb, ◌==◌, if◌then◌else◌, Bytes}
use pnio_rs.Prelude.{be16, byte_at, u16_at, Result, ok, ◌>>◌, fail_if}

abbrev pub ethertype_profinet : ℕ
ethertype_profinet = 0x8892

abbrev pub ethertype_vlan : ℕ
ethertype_vlan = 0x8100

-- `MacAddr(pub [u8; 6])`
pub record MacAddr : Type 0 where
  pub b0 : ℕ
  pub b1 : ℕ
  pub b2 : ℕ
  pub b3 : ℕ
  pub b4 : ℕ
  pub b5 : ℕ

abbrev pub mac_bytes : MacAddr → Bytes
mac_bytes m = m.b0 ∷ m.b1 ∷ m.b2 ∷ m.b3 ∷ m.b4 ∷ m.b5 ∷ []

-- `buf[o..o + 6]` copied into an array
abbrev pub mac_at : Bytes → ℕ → MacAddr
mac_at buf o = record {
  b0 = byte_at buf o;
  b1 = byte_at buf (o + 1);
  b2 = byte_at buf (o + 2);
  b3 = byte_at buf (o + 3);
  b4 = byte_at buf (o + 4);
  b5 = byte_at buf (o + 5);
}

unfoldable pub mac_eq : MacAddr → MacAddr → Bool
mac_eq m n =
    m.b0 == n.b0 && m.b1 == n.b1 && m.b2 == n.b2 && m.b3 == n.b3 && m.b4 == n.b4 && m.b5 == n.b5

pub mac_eq_iff : (m n : MacAddr) → (mac_eq m n ≡ true) ↔ (m ≡ n)
unfolding mac_eq
mac_eq_iff m n = ground arith

pub record EthHeader : Type 0 where
  pub dst : MacAddr
  pub src : MacAddr
  pub vlan : Option ℕ
  pub ethertype : ℕ

pub data EthError : Type 0 where
  too_short : EthError

parse_tagged : Bytes → Result EthError (EthHeader × ℕ)
parse_tagged buf = do
  fail_if (ltb (length buf) 18) too_short
  ok (
    record {
      dst = mac_at buf 0;
      src = mac_at buf 6;
      vlan = some (u16_at buf 14);
      ethertype = u16_at buf 16;
    },
    18,
  )

-- The header and the payload's offset.
unfoldable pub parse : Bytes → Result EthError (EthHeader × ℕ)
unfolding parse_tagged
parse buf = do
  fail_if (ltb (length buf) 14) too_short
  if u16_at buf 12 == ethertype_vlan
      then parse_tagged buf
      else ok (
        record { dst = mac_at buf 0; src = mac_at buf 6; vlan = none; ethertype = u16_at buf 12 },
        14,
      )

abbrev write_vlan : Option ℕ → Bytes
write_vlan none = []
write_vlan (some tci) = be16 ethertype_vlan ++ be16 tci

-- What `write` appends to its buffer.
unfoldable pub write : EthHeader → Bytes
write h = mac_bytes h.dst ++ (mac_bytes h.src ++ (write_vlan h.vlan ++ be16 h.ethertype))
