-- ===== src/Dcp/Block.antt =====
-- crates/pnio/src/dcp/block.rs and mod.rs: the blocks of a DCP frame, padded to an even length. The
-- debug assertions on lengths are left out: the sum is cut to a `u16` as in a release build.
pub mod Laws
pub mod Reads
use Prim.Native.String.{String}
use pnio_rs.Prelude.{ℕ, zero, suc, ◌+◌, ◌%◌, Bool, true, false, Option, none, some, List, [], ◌∷◌}
use pnio_rs.Prelude.{◌++◌, Bytes, length, drop, slice, be16, byte_at, u16_at, u16, ltb}
use pnio_rs.Prelude.{replicate, Result, ok, err, ◌>>=◌, ◌>>◌, fail_if}

pub data DcpError : Type 0 where
  too_short : ℕ → ℕ → DcpError
  bad_service_id : ℕ → DcpError
  bad_service_type : ℕ → DcpError
  malformed : String → DcpError

pub record DcpBlock : Type 0 where
  pub option : ℕ
  pub suboption : ℕ
  pub block_info : Option ℕ
  pub value : Bytes

-- The information in front of the value, if there is one, and the value, of a block that ends at
-- `end` in `buf`.
abbrev body_of : Bool → Bytes → ℕ → Result DcpError (Option ℕ × Bytes)
body_of true buf end = do
  fail_if (ltb end 6) (malformed "block too short for BlockInfo")
  ok (some (u16_at buf 4), slice buf 6 end)
body_of false buf end = ok (none, slice buf 4 end)

-- The block in front of `buf`, which starts at `p` in a buffer of `total` bytes, and the bytes up to
-- the next one.
unfoldable pub parse_block : Bool → ℕ → ℕ → Bytes → Result DcpError (DcpBlock × ℕ)
parse_block has_block_info total p buf = do
  fail_if (ltb total (p + 4)) (too_short (p + 4) total)
  let block_len = u16_at buf 2
  let end = 4 + block_len
  fail_if (ltb total (p + end)) (too_short (p + end) total)
  (block_info, value) ← body_of has_block_info buf end
  ok (
    record {
      option = byte_at buf 0;
      suboption = byte_at buf 1;
      block_info = block_info;
      value = value;
    },
    end + block_len % 2,
  )

-- The loop of `parse_blocks`, on what is left of the buffer. A block takes four bytes at least, so
-- the length of that is fuel enough.
parse_loop : Bool → ℕ → ℕ → ℕ → Bytes → Result DcpError (List DcpBlock)
parse_loop has_block_info total fuel p [] = ok []
parse_loop has_block_info total zero p (b ∷ bs) = ok []
parse_loop has_block_info total (suc fuel) p (b ∷ bs) =
    parse_block has_block_info total p (b ∷ bs) >>= λ (r : DcpBlock × ℕ).
    parse_loop has_block_info total fuel (p + r.1) (drop r.1 (b ∷ bs)) >>= λ rest. ok (r.0 ∷ rest)

-- The blocks from position `p` on.
unfoldable pub parse_from : Bool → ℕ → ℕ → Bytes → Result DcpError (List DcpBlock)
unfolding parse_loop
parse_from has_block_info total p rest = parse_loop has_block_info total (length rest) p rest

unfoldable pub parse_blocks : Bytes → Bool → Result DcpError (List DcpBlock)
unfolding parse_from
parse_blocks buf has_block_info = parse_from has_block_info (length buf) 0 buf

abbrev info_len : Option ℕ → ℕ
info_len none = 0
info_len (some info) = 2

abbrev pub block_len : DcpBlock → ℕ
block_len b = info_len b.block_info + length b.value

abbrev write_info : Option ℕ → Bytes
write_info none = []
write_info (some info) = be16 info

-- The pad byte behind a block of odd length.
abbrev pad : ℕ → Bytes
pad n = replicate (n % 2) 0

unfoldable pub write_block : DcpBlock → Bytes
write_block b =
    b.option
    ∷ b.suboption
    ∷ (be16 (u16 (block_len b)) ++ (write_info b.block_info ++ (b.value ++ pad (block_len b))))

-- What `write_blocks` appends.
unfoldable pub write_blocks : List DcpBlock → Bytes
write_blocks [] = []
write_blocks (b ∷ bs) = write_block b ++ write_blocks bs

abbrev pub total_len : List DcpBlock → ℕ
total_len [] = 0
total_len (b ∷ bs) = 4 + block_len b + block_len b % 2 + total_len bs

unfoldable pub blocks_encoded_len : List DcpBlock → ℕ
blocks_encoded_len bs = u16 (total_len bs)
