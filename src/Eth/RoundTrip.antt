-- ===== src/Eth/RoundTrip.antt =====
-- Reading back a written Ethernet header.
use pnio_rs.Prelude.{ℕ, ◌≡◌, ◌≢◌, ◌≤◌, Option, none, some, arith, ◌++◌, IsU16, Bytes, length}
use pnio_rs.Prelude.{ok, be16_lem}
use pnio_rs.Eth.Header.{EthHeader, MacAddr, parse, write}
use pnio_rs.Eth.Header.{ethertype_vlan}

-- The values that a header's fields can hold. An untagged header's type is not the tag's: the
-- reader would take it for one.
abbrev pub FitsVlan : Option ℕ → ℕ → Type 0
FitsVlan none ethertype = ethertype ≢ ethertype_vlan
FitsVlan (some tci) ethertype = IsU16 tci

abbrev pub header_len : Option ℕ → ℕ
header_len none = 14
header_len (some tci) = 18

pub parse-write_tagged :
    (dst src : MacAddr) (tci et : ℕ) (rest : Bytes)
    → IsU16 tci
    → IsU16 et
    → parse (write (record { dst = dst; src = src; vlan = some tci; ethertype = et }) ++ rest)
      ≡ ok (record { dst = dst; src = src; vlan = some tci; ethertype = et }, 18)
unfolding parse write
parse-write_tagged dst src tci et rest ht he = ground (arith, be16_lem tci ht, be16_lem et he)

pub parse-write_untagged :
    (dst src : MacAddr) (et : ℕ) (rest : Bytes)
    → IsU16 et
    → et ≢ ethertype_vlan
    → parse (write (record { dst = dst; src = src; vlan = none; ethertype = et }) ++ rest)
      ≡ ok (record { dst = dst; src = src; vlan = none; ethertype = et }, 14)
unfolding parse write
parse-write_untagged dst src et rest he ht = ground (arith, be16_lem et he)

-- A written header is read back with the offset of what follows it, tagged or not.
pub eth_parse-write :
    (dst src : MacAddr) (vlan : Option ℕ) (et : ℕ) (rest : Bytes)
    → IsU16 et
    → FitsVlan vlan et
    → parse (write (record { dst = dst; src = src; vlan = vlan; ethertype = et }) ++ rest)
      ≡ ok (record { dst = dst; src = src; vlan = vlan; ethertype = et }, header_len vlan)
eth_parse-write dst src none et rest he hv = parse-write_untagged dst src et rest he hv
eth_parse-write dst src (some tci) et rest he hv = parse-write_tagged dst src tci et rest hv he

-- What is read takes 14 or 18 bytes, and the buffer holds them.
pub eth_parse_bounds :
    (buf : Bytes) (h : EthHeader) (off : ℕ)
    → parse buf ≡ ok (h, off)
    → (off ≡ header_len h.vlan) × (off ≤ length buf)
unfolding parse
eth_parse_bounds buf h off e = ground arith
