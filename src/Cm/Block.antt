-- ===== src/Cm/Block.antt =====
-- crates/pnio/src/cm/block.rs and mod.rs: the header that every PNIO block starts with.
pub mod Laws
use Prim.Native.String.{String}
use pnio_rs.Prelude.{ℕ, zero, suc, ◌+◌, ◌-◌, ◌≡◌, Bool, true, false, ◌&&◌, arith, length, ltb, ◌==◌}
use pnio_rs.Prelude.{List, [], ◌∷◌, ◌++◌, not, Bytes, be16, byte_at, u16_at, slice, u16, drop}
use pnio_rs.Prelude.{Result, ok, err, ◌>>=◌, ◌>>◌, fail_if}

pub data BlockError : Type 0 where
  too_short : ℕ → ℕ → BlockError
  unexpected_type : ℕ → ℕ → BlockError
  bad_version : ℕ → ℕ → BlockError
  bad_length : ℕ → ℕ → BlockError
  malformed : String → BlockError

pub record BlockHeader : Type 0 where
  pub block_type : ℕ
  pub block_length : ℕ
  pub version_high : ℕ
  pub version_low : ℕ

abbrev pub header_len : ℕ
header_len = 6

-- The header and the block's body. `block_length.saturating_sub(2)` is ℕ's subtraction.
unfoldable pub parse : Bytes → Result BlockError (BlockHeader × Bytes)
parse buf = do
  fail_if (ltb (length buf) header_len) (too_short header_len (length buf))
  let block_length = u16_at buf 2
  let version_high = byte_at buf 4
  let version_low = byte_at buf 5
  fail_if (not (version_high == 1 && version_low == 0)) (bad_version version_high version_low)
  let available = length buf - header_len
  let body_len = block_length - 2
  fail_if (ltb available body_len) (bad_length block_length available)
  ok (
    record {
      block_type = u16_at buf 0;
      block_length = block_length;
      version_high = version_high;
      version_low = version_low;
    },
    slice buf header_len (header_len + body_len),
  )

-- What `write` appends. `body_len + 2` is a sum of `u16`.
unfoldable pub write : ℕ → ℕ → Bytes
write block_type body_len = be16 block_type ++ (be16 (u16 (body_len + 2)) ++ (1 ∷ 0 ∷ []))

-- The loop of `read_all`, which looks at what is left of the buffer; a block takes six bytes at
-- least, so the buffer's length is fuel enough.
read_loop : ℕ → Bytes → Result BlockError (List (BlockHeader × Bytes))
read_loop fuel [] = ok []
read_loop zero (b ∷ bs) = ok []
read_loop (suc fuel) (b ∷ bs) = parse (b ∷ bs) >>= λ (p : BlockHeader × Bytes).
    read_loop fuel (drop (header_len + length p.1) (b ∷ bs)) >>= λ rest. ok (p ∷ rest)

unfoldable pub read_all : Bytes → Result BlockError (List (BlockHeader × Bytes))
unfolding read_loop
read_all buf = read_loop (length buf) buf
