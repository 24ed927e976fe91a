-- ===== src/Data.antt =====
-- crates/pnio/src/data.rs: the process data types. An `i16` and an `i32` are integers, in two's
-- complement on the wire; an `f32` is its 32-bit pattern (`to_bits`), which `to_be_bytes` writes.
pub mod RoundTrip
use pnio_rs.Prelude.{
  ℕ, ◌+◌, ◌-◌, ◌/◌, ◌%◌, ◌^◌, Bool, true, false, not, Option, none, some, ◌==◌, ltb, leb,
  if◌then◌else◌, List, [], ◌∷◌, length, Bytes, byte_at, test_bit, be16, be32, u16_at, u32_at,
  copy_at, set, Result, ok, err, ◌>>=◌, ◌>>◌, fail_if,
}

pub data ℤ : Type 0 where
  pos : ℕ → ℤ
  negsuc : ℕ → ℤ

-- The `w`-bit pattern of an integer, `half` being `2 ^ (w - 1)`, and the integer of a pattern.
abbrev pub to_word : ℕ → ℤ → ℕ
to_word half (pos n) = n
to_word half (negsuc n) = half + half - 1 - n

abbrev pub from_word : ℕ → ℕ → ℤ
from_word half n = if ltb n half then pos n else negsuc (half + half - 1 - n)

-- The names end in `_type`, since `Value` has the same ones.
pub data FieldType : Type 0 where
  bool_type int_type word_type dint_type real_type : FieldType

unfoldable pub byte_len : FieldType → Option ℕ
byte_len bool_type = none
byte_len int_type = some 2
byte_len word_type = some 2
byte_len dint_type = some 4
byte_len real_type = some 4

pub data Value : Type 0 where
  bool : Bool → Value
  int : ℤ → Value
  word : ℕ → Value
  dint : ℤ → Value
  real : ℕ → Value

unfoldable pub field_type : Value → FieldType
field_type (bool b) = bool_type
field_type (int v) = int_type
field_type (word v) = word_type
field_type (dint v) = dint_type
field_type (real v) = real_type

pub data CodecError : Type 0 where
  too_short : ℕ → ℕ → CodecError
  bit_out_of_range : ℕ → ℕ → CodecError

abbrev pub encode_i16 : ℤ → Bytes
encode_i16 v = be16 (to_word 32768 v)

abbrev pub encode_u16 : ℕ → Bytes
encode_u16 v = be16 v

abbrev pub encode_i32 : ℤ → Bytes
encode_i32 v = be32 (to_word 2147483648 v)

abbrev pub encode_f32 : ℕ → Bytes
encode_f32 v = be32 v

-- The test of `take::<N>`.
abbrev pub enough : ℕ → Bytes → Result CodecError (Unit {0})
enough n b = fail_if (ltb (length b) n) (too_short n (length b))

unfoldable pub decode_i16 : Bytes → Result CodecError ℤ
decode_i16 b = enough 2 b >> ok (from_word 32768 (u16_at b 0))

unfoldable pub decode_u16 : Bytes → Result CodecError ℕ
decode_u16 b = enough 2 b >> ok (u16_at b 0)

unfoldable pub decode_i32 : Bytes → Result CodecError ℤ
decode_i32 b = enough 4 b >> ok (from_word 2147483648 (u32_at b 0))

unfoldable pub decode_f32 : Bytes → Result CodecError ℕ
decode_f32 b = enough 4 b >> ok (u32_at b 0)

abbrev pub bit_in : ℕ → Bytes → Result CodecError (Unit {0})
bit_in bit buf = fail_if (leb (length buf) (bit / 8)) (bit_out_of_range bit (length buf))

unfoldable pub get_bit : Bytes → ℕ → Result CodecError Bool
get_bit buf bit = bit_in bit buf >> ok (test_bit (byte_at buf (bit / 8)) (bit % 8))

-- `x |= mask` and `x &= !mask`, for a mask of bit `k`
abbrev pub with_bit : ℕ → ℕ → Bool → ℕ
with_bit x k true = if test_bit x k then x else x + 2 ^ k
with_bit x k false = if test_bit x k then x - 2 ^ k else x

unfoldable pub set_bit : Bytes → ℕ → Bool → Result CodecError Bytes
set_bit buf bit value =
    bit_in bit buf >> ok (set buf (bit / 8) (with_bit (byte_at buf (bit / 8)) (bit % 8) value))

abbrev pub put : Bytes → Bytes → Result CodecError Bytes
put dst bytes =
    fail_if (ltb (length dst) (length bytes)) (too_short (length bytes) (length dst))
    >> ok (copy_at dst 0 bytes)

unfoldable pub encode : Value → Bytes → ℕ → Result CodecError Bytes
encode (bool b) dst bit = set_bit dst bit b
encode (int v) dst bit = put dst (encode_i16 v)
encode (word v) dst bit = put dst (encode_u16 v)
encode (dint v) dst bit = put dst (encode_i32 v)
encode (real v) dst bit = put dst (encode_f32 v)

unfoldable pub decode : FieldType → Bytes → ℕ → Result CodecError Value
decode bool_type src bit = get_bit src bit >>= λ (b : Bool). ok (bool b)
decode int_type src bit = decode_i16 src >>= λ (v : ℤ). ok (int v)
decode word_type src bit = decode_u16 src >>= λ (v : ℕ). ok (word v)
decode dint_type src bit = decode_i32 src >>= λ (v : ℤ). ok (dint v)
decode real_type src bit = decode_f32 src >>= λ (v : ℕ). ok (real v)
