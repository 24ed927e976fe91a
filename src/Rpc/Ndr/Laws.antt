-- ===== src/Rpc/Ndr/Laws.antt =====
-- Reading back the array headers with the blocks behind them.
use pnio_rs.Prelude.{ℕ, Bool, ◌≡◌, arith, true, false, Bytes, ◌++◌, length, ok, IsU32}
use pnio_rs.Prelude.{[], length-append, take-length-append}
use pnio_rs.Rpc.Drep.{Drep, u32, put_u32}
use pnio_rs.Rpc.Errors.{NoPanic}
use pnio_rs.Rpc.Ndr.{
  parse_request, for_blocks, write_request, parse_response, ok_response, error_response,
  write_response,
}

request_at :
    (little_endian : Bool) (args_max : ℕ) (blocks rest : Bytes)
    → IsU32 args_max
    → IsU32 (length blocks)
    → let drep : Drep = record { little_endian = little_endian } in
      let n = for_blocks args_max (length blocks) in
      parse_request (write_request n drep ++ (blocks ++ rest)) drep ≡ ok (n, blocks)
unfolding parse_request write_request for_blocks u32 put_u32
request_at true args_max blocks rest ha hb =
    ground (arith, length-append blocks rest, take-length-append blocks rest)
request_at false args_max blocks rest ha hb =
    ground (arith, length-append blocks rest, take-length-append blocks rest)

-- The array header that a call gets for its blocks is read back with exactly these blocks, in
-- either byte order, whatever follows them.
pub parse_request-for_blocks :
    (drep : Drep) (args_max : ℕ) (blocks rest : Bytes)
    → IsU32 args_max
    → IsU32 (length blocks)
    → let n = for_blocks args_max (length blocks) in
      parse_request (write_request n drep ++ (blocks ++ rest)) drep ≡ ok (n, blocks)
parse_request-for_blocks drep args_max blocks rest ha hb =
    request_at drep.little_endian args_max blocks rest ha hb

response_at :
    (little_endian : Bool) (args_max : ℕ) (blocks rest : Bytes)
    → IsU32 args_max
    → IsU32 (length blocks)
    → let drep : Drep = record { little_endian = little_endian } in
      let n = ok_response args_max (length blocks) in
      parse_response (write_response n drep ++ (blocks ++ rest)) drep ≡ ok (n, blocks)
unfolding parse_response write_response ok_response u32 put_u32
response_at true args_max blocks rest ha hb =
    ground (arith, length-append blocks rest, take-length-append blocks rest)
response_at false args_max blocks rest ha hb =
    ground (arith, length-append blocks rest, take-length-append blocks rest)

pub parse_response-ok_response :
    (drep : Drep) (args_max : ℕ) (blocks rest : Bytes)
    → IsU32 args_max
    → IsU32 (length blocks)
    → let n = ok_response args_max (length blocks) in
      parse_response (write_response n drep ++ (blocks ++ rest)) drep ≡ ok (n, blocks)
parse_response-ok_response drep args_max blocks rest ha hb =
    response_at drep.little_endian args_max blocks rest ha hb

error_at :
    (little_endian : Bool) (status args_max : ℕ) (rest : Bytes)
    → IsU32 status
    → IsU32 args_max
    → let drep : Drep = record { little_endian = little_endian } in
      let n = error_response status args_max in
      parse_response (write_response n drep ++ rest) drep ≡ ok (n, [])
unfolding parse_response write_response error_response u32 put_u32
error_at true status args_max rest hs ha = ground arith
error_at false status args_max rest hs ha = ground arith

pub parse_response-error_response :
    (drep : Drep) (status args_max : ℕ) (rest : Bytes)
    → IsU32 status
    → IsU32 args_max
    → let n = error_response status args_max in
      parse_response (write_response n drep ++ rest) drep ≡ ok (n, [])
parse_response-error_response drep status args_max rest hs ha =
    error_at drep.little_endian status args_max rest hs ha

-- Neither reader panics.
pub parse_request-NoPanic : (buf : Bytes) (drep : Drep) → NoPanic (parse_request buf drep)
unfolding parse_request
parse_request-NoPanic buf drep = ground arith

pub parse_response-NoPanic : (buf : Bytes) (drep : Drep) → NoPanic (parse_response buf drep)
unfolding parse_response
parse_response-NoPanic buf drep = ground arith
