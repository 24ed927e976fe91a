-- ===== src/Cm/Cursor.antt =====
-- crates/pnio/src/cm/block.rs: the big-endian cursor that the block parsers read with. An accessor
-- takes the cursor and returns its value with the cursor behind it; `do` threads the cursor.
use pnio_rs.Prelude.{ℕ, ◌+◌, ◌-◌, true, false, length, ltb, Bytes, byte_at}
use pnio_rs.Prelude.{u16_at, u32_at, slice, Option, none, some, Result, ok, err}
use pnio_rs.Cm.Block.{BlockError, too_short, malformed}
use pnio_rs.Rpc.Drep.{big}
use pnio_rs.Rpc.Uuid.{Uuid}
use pnio_rs.Rpc.Uuid
use pnio_rs.Eth.Header.{MacAddr, mac_at}

pub record Cursor : Type 0 where
  pub buf : Bytes
  pub pos : ℕ

abbrev pub Reader {ℓ} : Type ℓ → Type ℓ
Reader A = Cursor → Result BlockError (A × Cursor)

infixl 5 ◌>>=◌ ◌>>◌
abbrev pub ◌>>=◌ {ℓ κ} : {A : Type ℓ} {B : Type κ} → Reader A → (A → Reader B) → Reader B
◌>>=◌ m f c = elim (m c) [ ok (a, c') ↦ f a c' | err e ↦ err e ]

abbrev pub ◌>>◌ {κ} : {B : Type κ} → Reader (Unit {0}) → Reader B → Reader B
m >> k = m >>= λ _. k

abbrev pub pure {ℓ} : {A : Type ℓ} → A → Reader A
pure a c = ok (a, c)

abbrev pub fail {ℓ} : {A : Type ℓ} → BlockError → Reader A
fail e c = err e

-- The value that a reader finds in `buf` from its start on.
abbrev pub run {ℓ} : {A : Type ℓ} → Reader A → Bytes → Result BlockError A
run m buf = elim (m (record { buf = buf; pos = 0 })) [ ok (a, c) ↦ ok a | err e ↦ err e ]

abbrev pub need : ℕ → Reader (Unit {0})
need n c = elim (ltb (length c.buf) (c.pos + n)) [
  | true ↦ err (too_short (c.pos + n) (length c.buf))
  | false ↦ ok (tt, c)
]

abbrev advance : ℕ → Cursor → Cursor
advance n c = record c { pos = c.pos + n }

abbrev pub remaining : Reader ℕ
remaining c = ok (length c.buf - c.pos, c)

abbrev pub u8 : Reader ℕ
u8 = need 1 >> λ c. ok (byte_at c.buf c.pos, advance 1 c)

abbrev pub u16 : Reader ℕ
u16 = need 2 >> λ c. ok (u16_at c.buf c.pos, advance 2 c)

abbrev pub u32 : Reader ℕ
u32 = need 4 >> λ c. ok (u32_at c.buf c.pos, advance 4 c)

abbrev pub bytes : ℕ → Reader Bytes
bytes n = need n >> λ c. ok (slice c.buf c.pos (c.pos + n), advance n c)

abbrev pub or_malformed : Option Uuid → Reader Uuid
or_malformed (some u) = pure u
or_malformed none = fail (malformed "uuid")

abbrev pub uuid : Reader Uuid
uuid = do b ← bytes 16; or_malformed (Uuid.read b big)

abbrev pub mac : Reader MacAddr
mac = do b ← bytes 6; pure (mac_at b 0)
