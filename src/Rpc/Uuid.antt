-- ===== src/Rpc/Uuid.antt =====
-- crates/pnio/src/rpc/uuid.rs: UUIDs, whose first three fields follow the byte order of the RPC.
use pnio_rs.Prelude.{ℕ, ◌≡◌, Bool, true, false, Option, none, some, arith, refl, ap}
use pnio_rs.Prelude.{[], ◌∷◌, ◌++◌, Bytes, IsByte, All, length, ltb, ◌==◌, ◌&&◌, byte_at}
use pnio_rs.Prelude.{be16, be32, from_be16, from_be32, if◌then◌else◌, slice}
use pnio_rs.Rpc.Drep.{Drep, big, u16, u32, put_u16, put_u32}

-- `Uuid(pub [u8; 16])`, in canonical (big-endian) order.
pub record Uuid : Type 0 where
  pub b0 : ℕ
  pub b1 : ℕ
  pub b2 : ℕ
  pub b3 : ℕ
  pub b4 : ℕ
  pub b5 : ℕ
  pub b6 : ℕ
  pub b7 : ℕ
  pub b8 : ℕ
  pub b9 : ℕ
  pub b10 : ℕ
  pub b11 : ℕ
  pub b12 : ℕ
  pub b13 : ℕ
  pub b14 : ℕ
  pub b15 : ℕ

-- Bytes 8 to 15.
abbrev node : Uuid → Bytes
node u = u.b8 ∷ u.b9 ∷ u.b10 ∷ u.b11 ∷ u.b12 ∷ u.b13 ∷ u.b14 ∷ u.b15 ∷ []

abbrev pub uuid_bytes : Uuid → Bytes
uuid_bytes u = u.b0 ∷ u.b1 ∷ u.b2 ∷ u.b3 ∷ u.b4 ∷ u.b5 ∷ u.b6 ∷ u.b7 ∷ node u

-- The array that holds 16 bytes.
abbrev pub uuid_of : Bytes → Uuid
uuid_of b = record {
  b0 = byte_at b 0;
  b1 = byte_at b 1;
  b2 = byte_at b 2;
  b3 = byte_at b 3;
  b4 = byte_at b 4;
  b5 = byte_at b 5;
  b6 = byte_at b 6;
  b7 = byte_at b 7;
  b8 = byte_at b 8;
  b9 = byte_at b 9;
  b10 = byte_at b 10;
  b11 = byte_at b 11;
  b12 = byte_at b 12;
  b13 = byte_at b 13;
  b14 = byte_at b 14;
  b15 = byte_at b 15;
}

abbrev pub nil_uuid : Uuid
nil_uuid = uuid_of []

abbrev pub pnio_device_interface : Uuid
pnio_device_interface = uuid_of (
    0xde ∷ 0xa0 ∷ 0x00 ∷ 0x01 ∷ 0x6c ∷ 0x97 ∷ 0x11 ∷ 0xd1 ∷ 0x82 ∷ 0x71 ∷ 0x00 ∷ 0xa0 ∷ 0x24 ∷ 0x42
    ∷ 0xdf ∷ 0x7d ∷ [])

abbrev pub pnio_controller_interface : Uuid
pnio_controller_interface = record pnio_device_interface { b3 = 0x02 }

unfoldable pub bytes_eq : Bytes → Bytes → Bool
bytes_eq [] [] = true
bytes_eq [] (y ∷ ys) = false
bytes_eq (x ∷ xs) [] = false
bytes_eq (x ∷ xs) (y ∷ ys) = x == y && bytes_eq xs ys

unfoldable pub uuid_eq : Uuid → Uuid → Bool
unfolding bytes_eq
uuid_eq a b = bytes_eq (uuid_bytes a) (uuid_bytes b)

unfoldable pub pnio_object : ℕ → ℕ → ℕ → Uuid
pnio_object instance_id device_id vendor_id = uuid_of (
    0xde
    ∷ 0xa0
    ∷ 0x00
    ∷ 0x00
    ∷ 0x6c
    ∷ 0x97
    ∷ 0x11
    ∷ 0xd1
    ∷ 0x82
    ∷ 0x71
    ∷ (be16 instance_id ++ (be16 device_id ++ be16 vendor_id)))

unfoldable pub read : Bytes → Drep → Option Uuid
unfolding u16 u32
read buf drep =
    if ltb (length buf) 16
    then none
    else some (
        uuid_of (
          be32 (u32 drep buf 0)
          ++ (be16 (u16 drep buf 4) ++ (be16 (u16 drep buf 6) ++ slice buf 8 16))))

unfoldable pub write : Uuid → Drep → Bytes
unfolding put_u16 put_u32
write u drep =
    put_u32 drep (from_be32 u.b0 u.b1 u.b2 u.b3)
    ++ (put_u16 drep (from_be16 u.b4 u.b5) ++ (put_u16 drep (from_be16 u.b6 u.b7) ++ node u))

bytes_eq_sound : (a b : Bytes) → bytes_eq a b ≡ true → a ≡ b
unfolding bytes_eq
bytes_eq_sound [] [] h = refl
bytes_eq_sound [] (y ∷ ys) h = cc
bytes_eq_sound (x ∷ xs) [] h = cc
bytes_eq_sound (x ∷ xs) (y ∷ ys) h = ground (arith, bytes_eq_sound xs ys)

bytes_eq_refl : (a : Bytes) → bytes_eq a a ≡ true
unfolding bytes_eq
bytes_eq_refl [] = refl
bytes_eq_refl (x ∷ xs) = ground (arith, bytes_eq_refl xs)

pub uuid_eq_sound : (a b : Uuid) → uuid_eq a b ≡ true → a ≡ b
unfolding uuid_eq
uuid_eq_sound a b h = ap uuid_of (bytes_eq_sound (uuid_bytes a) (uuid_bytes b) h)

pub uuid_eq_refl : (a : Uuid) → uuid_eq a a ≡ true
unfolding uuid_eq
uuid_eq_refl a = bytes_eq_refl (uuid_bytes a)

abbrev pub IsUuid : Uuid → Type 0
IsUuid u = All IsByte (uuid_bytes u)

read-write_at :
    (u : Uuid) (little_endian : Bool) (rest : Bytes)
    → IsUuid u
    → let drep : Drep = record { little_endian = little_endian } in
      read (write u drep ++ rest) drep ≡ some u
unfolding read write
read-write_at u true rest h = ground arith
read-write_at u false rest h = ground arith

-- A UUID is read back from its wire form in either byte order.
pub read-write :
    (u : Uuid) (drep : Drep) (rest : Bytes) → IsUuid u → read (write u drep ++ rest) drep ≡ some u
read-write u drep rest h = read-write_at u drep.little_endian rest h

-- In big-endian order the wire form is the canonical one.
pub write-big : (u : Uuid) → IsUuid u → write u big ≡ uuid_bytes u
unfolding write
write-big u h = ground arith

pub read-bytes : (u : Uuid) → IsUuid u → read (uuid_bytes u) big ≡ some u
unfolding read
read-bytes u h = ground arith
