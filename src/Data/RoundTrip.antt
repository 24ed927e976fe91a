-- ===== src/Data/RoundTrip.antt =====
-- A value that was encoded is decoded again.
use pnio_rs.Prelude.{
  ℕ, zero, suc, ◌+◌, ◌-◌, ◌/◌, ◌%◌, ◌≤◌, ◌<◌, ◌≡◌, arith, refl, Bool, true, false, ltb, leb, [],
  ◌∷◌, length, length-set, set, Bytes, byte_at, test_bit, be16_lem, be32_lem, copy_at_front,
  length-copy_at, drop, ◌++◌, IsU16, IsU32, ok,
}
use pnio_rs.Data.{
  ℤ, pos, negsuc, to_word, from_word, Value, bool, int, word, dint, real, field_type, encode,
  decode, set_bit, get_bit, with_bit, decode_i16, decode_u16, decode_i32, decode_f32, put, enough,
  encode_i16, encode_u16, encode_i32, encode_f32,
}

-- The integers of a word whose sign bit counts `half`.
abbrev pub InRange : ℕ → ℤ → Type 0
InRange half (pos n) = n < half
InRange half (negsuc n) = n < half

-- The value is one of its machine type.
abbrev pub IsValue : Value → Type 0
IsValue (bool b) = Unit
IsValue (int v) = InRange 32768 v
IsValue (word v) = IsU16 v
IsValue (dint v) = InRange 2147483648 v
IsValue (real v) = IsU32 v

abbrev pub HasRoom : Value → Bytes → ℕ → Type 0
HasRoom (bool b) dst bit = bit / 8 < length dst
HasRoom (int v) dst bit = 2 ≤ length dst
HasRoom (word v) dst bit = 2 ≤ length dst
HasRoom (dint v) dst bit = 4 ≤ length dst
HasRoom (real v) dst bit = 4 ≤ length dst

from_word-to_word :
    (half : ℕ) (v : ℤ)
    → InRange half v
    → (from_word half (to_word half v) ≡ v) × (to_word half v < half + half)
from_word-to_word half (pos n) h =
    let low : ltb n half ≡ true = ground arith in (rw low refl, omega arith)
from_word-to_word half (negsuc n) h =
    let high : ltb (half + half - 1 - n) half ≡ false = ground arith in
    let back : half + half - 1 - (half + half - 1 - n) ≡ n = omega arith in
    (rw (high, back) refl, omega arith)

byte_at-set : (buf : Bytes) (i v : ℕ) → i < length buf → byte_at (set buf i v) i ≡ v
byte_at-set [] i v h = absurd (omega arith)
byte_at-set (x ∷ buf) zero v h = refl
byte_at-set (x ∷ buf) (suc i) v h = byte_at-set buf i v (omega arith)

-- A bit that was written is read.
bit_lem : (x k : ℕ) (b : Bool) → k < 8 → test_bit (with_bit x k b) k ≡ b
bit_lem x zero true h = ground arith
bit_lem x zero false h = ground arith
bit_lem x (suc zero) true h = ground arith
bit_lem x (suc zero) false h = ground arith
bit_lem x (suc (suc zero)) true h = ground arith
bit_lem x (suc (suc zero)) false h = ground arith
bit_lem x (suc (suc (suc zero))) true h = ground arith
bit_lem x (suc (suc (suc zero))) false h = ground arith
bit_lem x (suc (suc (suc (suc zero)))) true h = ground arith
bit_lem x (suc (suc (suc (suc zero)))) false h = ground arith
bit_lem x (suc (suc (suc (suc (suc zero))))) true h = ground arith
bit_lem x (suc (suc (suc (suc (suc zero))))) false h = ground arith
bit_lem x (suc (suc (suc (suc (suc (suc zero)))))) true h = ground arith
bit_lem x (suc (suc (suc (suc (suc (suc zero)))))) false h = ground arith
bit_lem x (suc (suc (suc (suc (suc (suc (suc zero))))))) true h = ground arith
bit_lem x (suc (suc (suc (suc (suc (suc (suc zero))))))) false h = ground arith
bit_lem x (suc (suc (suc (suc (suc (suc (suc (suc k)))))))) b h = absurd (omega arith)

-- The outcome of encoding into `dst` and decoding again.
abbrev pub Encodes : Value → Bytes → ℕ → Type 0
Encodes v dst bit =
    (dst2 : Bytes) × (encode v dst bit ≡ ok dst2)
    × (decode (field_type v) dst2 bit ≡ ok v)
    × (length dst2 ≡ length dst)

enough_lem : (n : ℕ) (b : Bytes) → n ≤ length b → enough n b ≡ ok tt
enough_lem n b h = let long : ltb (length b) n ≡ false = ground arith in rw long refl

put_lem :
    (dst bytes : Bytes)
    → length bytes ≤ length dst
    → (put dst bytes ≡ ok (bytes ++ drop (length bytes) dst))
      × (length (bytes ++ drop (length bytes) dst) ≡ length dst)
put_lem dst bytes h =
    let long : ltb (length dst) (length bytes) ≡ false = ground arith in
    (
      rw (long, ← copy_at_front dst bytes) refl,
      rw (← copy_at_front dst bytes) (length-copy_at dst 0 bytes (omega arith)),
    )

-- A value of its machine type that has room in the buffer is encoded, the buffer keeps its length,
-- and decoding at the same place gives the value back: for `Bool` at its bit, for the other types
-- at the start of the buffer.
pub decode-encode :
    (v : Value) (dst : Bytes) (bit : ℕ) → IsValue v → HasRoom v dst bit → Encodes v dst bit
unfolding encode decode field_type set_bit get_bit decode_i16 decode_u16 decode_i32 decode_f32
decode-encode (bool b) dst bit h room =
    let i : ℕ = bit / 8 in
    let x : ℕ = with_bit (byte_at dst i) (bit % 8) b in
    let free : leb (length dst) i ≡ false = ground arith in
    let n : length (set dst i x) ≡ length dst = length-set dst i x in
    (
      set dst i x,
      rw free refl,
      rw (n, free, byte_at-set dst i x room, bit_lem (byte_at dst i) (bit % 8) b (omega arith))
          refl,
      n,
    )
decode-encode (int v) dst bit h room =
    let (back, low) = from_word-to_word 32768 v h in
    let (fits, n) = put_lem dst (encode_i16 v) room in
    (
      _,
      fits,
      rw
          (
            enough_lem 2 (encode_i16 v ++ drop 2 dst) (omega arith),
            be16_lem (to_word 32768 v) low,
            back,
          )
          refl,
      n,
    )
decode-encode (word v) dst bit h room =
    let (fits, n) = put_lem dst (encode_u16 v) room in
    (_, fits, rw (enough_lem 2 (encode_u16 v ++ drop 2 dst) (omega arith), be16_lem v h) refl, n)
decode-encode (dint v) dst bit h room =
    let (back, low) = from_word-to_word 2147483648 v h in
    let (fits, n) = put_lem dst (encode_i32 v) room in
    (
      _,
      fits,
      rw
          (
            enough_lem 4 (encode_i32 v ++ drop 4 dst) (omega arith),
            be32_lem (to_word 2147483648 v) low,
            back,
          )
          refl,
      n,
    )
decode-encode (real v) dst bit h room =
    let (fits, n) = put_lem dst (encode_f32 v) room in
    (_, fits, rw (enough_lem 4 (encode_f32 v ++ drop 4 dst) (omega arith), be32_lem v h) refl, n)
