-- ===== src/Prelude/Words.antt =====
-- Machine words as native numbers, and their big-endian bytes. A byte slice is a list of numbers
-- below 256. Shifts and masks are written as quotients and remainders by powers of two; an `|` of
-- fields that share no bit is a sum.
use Prim.Native.Nat.{ℕ, ◌+◌, ◌-◌, ◌*◌, ◌/◌, ◌%◌, ◌^◌, ◌<◌}
use mathlib.Core.Path.{◌≡◌}
use mathlib.Core.Bool.{Bool, true, false}
use mathlib.Core.List.{List, [], ◌∷◌}
use native.Mathlib.Omega.{arith}
use pnio_rs.Prelude.Lists.{get_or, take, drop}
use pnio_rs.Prelude.Tests.{◌==◌}

abbrev pub Bytes : Type 0
Bytes = List ℕ

abbrev pub IsByte : ℕ → Type 0
IsByte b = b < 256

abbrev pub IsU16 : ℕ → Type 0
IsU16 n = n < 65536

abbrev pub IsU32 : ℕ → Type 0
IsU32 n = n < 4294967296

-- `n as u16` and wrapping arithmetic.
abbrev pub u16 : ℕ → ℕ
u16 n = n % 65536

abbrev pub u32 : ℕ → ℕ
u32 n = n % 4294967296

abbrev pub u64 : ℕ → ℕ
u64 n = n % 18446744073709551616

-- A `u64` counter that goes up by one.
abbrev pub bump : ℕ → ℕ
bump n = u64 (n + 1)

-- `x & (1 << k) != 0`
abbrev pub test_bit : ℕ → ℕ → Bool
test_bit x k = x / 2 ^ k % 2 == 1

-- `flag as u16`
abbrev pub bit_of : Bool → ℕ
bit_of true = 1
bit_of false = 0

-- `to_be_bytes` and `from_be_bytes`
abbrev pub be16 : ℕ → Bytes
be16 n = (n / 256 % 256) ∷ (n % 256) ∷ []

abbrev pub be32 : ℕ → Bytes
be32 n = (n / 16777216 % 256) ∷ (n / 65536 % 256) ∷ (n / 256 % 256) ∷ (n % 256) ∷ []

abbrev pub from_be16 : ℕ → ℕ → ℕ
from_be16 a b = a * 256 + b

abbrev pub from_be32 : ℕ → ℕ → ℕ → ℕ → ℕ
from_be32 a b c d = a * 16777216 + b * 65536 + c * 256 + d

-- `buf[i]`; the callers test the length first.
abbrev pub byte_at : Bytes → ℕ → ℕ
byte_at buf i = get_or buf i 0

-- `u16::from_be_bytes([buf[i], buf[i + 1]])`
abbrev pub u16_at : Bytes → ℕ → ℕ
u16_at buf i = from_be16 (byte_at buf i) (byte_at buf (i + 1))

abbrev pub u32_at : Bytes → ℕ → ℕ
u32_at buf i =
    from_be32 (byte_at buf i) (byte_at buf (i + 1)) (byte_at buf (i + 2)) (byte_at buf (i + 3))

-- `buf[from..to]`
abbrev pub slice {ℓ} : {A : Type ℓ} → List A → ℕ → ℕ → List A
slice buf from to = take (to - from) (drop from buf)

pub be16_lem : (n : ℕ) → IsU16 n → from_be16 (n / 256 % 256) (n % 256) ≡ n
be16_lem n h = omega arith

pub be32_lem :
    (n : ℕ)
    → IsU32 n
    → from_be32 (n / 16777216 % 256) (n / 65536 % 256) (n / 256 % 256) (n % 256) ≡ n
be32_lem n h = omega arith
