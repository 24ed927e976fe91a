-- ===== src/Rpc/Ndr.antt =====
-- crates/pnio/src/rpc/ndr.rs: the array header of 20 bytes in front of the blocks of a call and of
-- its answer.
pub mod Laws
use pnio_rs.Prelude.{ℕ, ◌+◌, ◌-◌, not, ◌++◌, Bytes, length, slice, ltb, ◌==◌}
use pnio_rs.Prelude.{Result, ok, err, ◌>>=◌, ◌>>◌, fail_if}
use pnio_rs.Rpc.Drep.{Drep, u32, put_u32}
use pnio_rs.Rpc.Errors.{RpcError, too_short, ndr_mismatch}

pub record NdrRequest : Type 0 where
  pub args_max : ℕ
  pub args_len : ℕ
  pub max_count : ℕ
  pub offset : ℕ
  pub actual_count : ℕ

pub record NdrResponse : Type 0 where
  pub status : ℕ
  pub args_len : ℕ
  pub max_count : ℕ
  pub offset : ℕ
  pub actual_count : ℕ

abbrev pub ndr_len : ℕ
ndr_len = 20

-- The tests that `NdrRequest::parse` and `NdrResponse::parse` share.
abbrev check_counts : Bytes → ℕ → ℕ → ℕ → Result RpcError (Unit {0})
check_counts buf args_len offset actual_count = do
  fail_if (not (args_len == actual_count)) (ndr_mismatch "args_len != actual_count")
  fail_if (not (offset == 0)) (ndr_mismatch "array offset must be 0")
  fail_if (ltb (length buf - ndr_len) actual_count) (ndr_mismatch "actual_count overruns buffer")

-- The header and the blocks behind it.
unfoldable pub parse_request : Bytes → Drep → Result RpcError (NdrRequest × Bytes)
parse_request buf drep = do
  fail_if (ltb (length buf) ndr_len) (too_short ndr_len (length buf))
  let actual_count = u32 drep buf 16
  check_counts buf (u32 drep buf 4) (u32 drep buf 12) actual_count
  ok (
    record {
      args_max = u32 drep buf 0;
      args_len = u32 drep buf 4;
      max_count = u32 drep buf 8;
      offset = u32 drep buf 12;
      actual_count = actual_count;
    },
    slice buf ndr_len (ndr_len + actual_count),
  )

unfoldable pub for_blocks : ℕ → ℕ → NdrRequest
for_blocks args_max blocks_len = record {
  args_max = args_max;
  args_len = blocks_len;
  max_count = args_max;
  offset = 0;
  actual_count = blocks_len;
}

unfoldable pub write_request : NdrRequest → Drep → Bytes
write_request n drep =
    put_u32 drep n.args_max
    ++ (put_u32 drep n.args_len
        ++ (put_u32 drep n.max_count ++ (put_u32 drep n.offset ++ put_u32 drep n.actual_count)))

unfoldable pub parse_response : Bytes → Drep → Result RpcError (NdrResponse × Bytes)
parse_response buf drep = do
  fail_if (ltb (length buf) ndr_len) (too_short ndr_len (length buf))
  let actual_count = u32 drep buf 16
  check_counts buf (u32 drep buf 4) (u32 drep buf 12) actual_count
  ok (
    record {
      status = u32 drep buf 0;
      args_len = u32 drep buf 4;
      max_count = u32 drep buf 8;
      offset = u32 drep buf 12;
      actual_count = actual_count;
    },
    slice buf ndr_len (ndr_len + actual_count),
  )

unfoldable pub ok_response : ℕ → ℕ → NdrResponse
ok_response request_args_max blocks_len = record {
  status = 0;
  args_len = blocks_len;
  max_count = request_args_max;
  offset = 0;
  actual_count = blocks_len;
}

unfoldable pub error_response : ℕ → ℕ → NdrResponse
error_response status request_args_max = record {
  status = status;
  args_len = 0;
  max_count = request_args_max;
  offset = 0;
  actual_count = 0;
}

unfoldable pub write_response : NdrResponse → Drep → Bytes
write_response n drep =
    put_u32 drep n.status
    ++ (put_u32 drep n.args_len
        ++ (put_u32 drep n.max_count ++ (put_u32 drep n.offset ++ put_u32 drep n.actual_count)))
