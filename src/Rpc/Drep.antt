-- ===== src/Rpc/Drep.antt =====
-- crates/pnio/src/rpc/mod.rs: the data representation of an RPC, which is a byte order.
use pnio_rs.Prelude.{ℕ, ◌+◌, ◌/◌, ◌%◌, Bool, true, false}
use pnio_rs.Prelude.{[], ◌∷◌, Bytes, be16, be32, from_be16, from_be32, test_bit}
use pnio_rs.Prelude.{if◌then◌else◌, byte_at}

pub record Drep : Type 0 where
  pub little_endian : Bool

abbrev pub big : Drep
big = record { little_endian = false }

abbrev pub little : Drep
little = record { little_endian = true }

unfoldable pub from_byte : ℕ → Drep
from_byte b = record { little_endian = test_bit b 4 }

unfoldable pub to_bytes : Drep → Bytes
to_bytes d = (if d.little_endian then 0x10 else 0x00) ∷ 0 ∷ 0 ∷ []

abbrev le16 : ℕ → Bytes
le16 n = (n % 256) ∷ (n / 256 % 256) ∷ []

abbrev le32 : ℕ → Bytes
le32 n = (n % 256) ∷ (n / 256 % 256) ∷ (n / 65536 % 256) ∷ (n / 16777216 % 256) ∷ []

-- The number at `b[o..o + 2]`.
unfoldable pub u16 : Drep → Bytes → ℕ → ℕ
u16 d b o =
    if d.little_endian
    then from_be16 (byte_at b (o + 1)) (byte_at b o)
    else from_be16 (byte_at b o) (byte_at b (o + 1))

unfoldable pub u32 : Drep → Bytes → ℕ → ℕ
u32 d b o =
    if d.little_endian
    then from_be32 (byte_at b (o + 3)) (byte_at b (o + 2)) (byte_at b (o + 1)) (byte_at b o)
    else from_be32 (byte_at b o) (byte_at b (o + 1)) (byte_at b (o + 2)) (byte_at b (o + 3))

-- What `put_u16` and `put_u32` append.
unfoldable pub put_u16 : Drep → ℕ → Bytes
put_u16 d v = if d.little_endian then le16 v else be16 v

unfoldable pub put_u32 : Drep → ℕ → Bytes
put_u32 d v = if d.little_endian then le32 v else be32 v
