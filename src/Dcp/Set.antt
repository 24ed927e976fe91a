-- ===== src/Dcp/Set.antt =====
-- crates/pnio/src/dcp/set.rs: Set requests, the decision on them and the response. Addresses are
-- arrays of four bytes.
use pnio_rs.Prelude.{ℕ, true, ◌&&◌, not, none, some, List, [], ◌∷◌, ◌++◌, map, Bytes, be16}
use pnio_rs.Prelude.{length, slice, ◌==◌, if◌then◌else◌, Option, Result, ok, ◌>>=◌, ◌>>◌}
use pnio_rs.Prelude.{fail_if}
use pnio_rs.Eth.Header.{MacAddr, ethertype_profinet}
use pnio_rs.Eth.Header
use pnio_rs.Rpc.Uuid.{bytes_eq}
use pnio_rs.Dcp.Block.{
  DcpError, malformed, DcpBlock, parse_blocks, write_blocks, blocks_encoded_len,
}
use pnio_rs.Dcp.Frame.{DcpHeader, set, response_success, frame_id_code, get_set}
use pnio_rs.Dcp.Frame
use pnio_rs.Dcp.Identify.{DeviceProperties}

pub data SetBlock : Type 0 where
  ip_suite : ℕ → Bytes → Bytes → Bytes → SetBlock
  other : ℕ → ℕ → SetBlock

pub record SetRequest : Type 0 where
  pub blocks : List SetBlock

pub data SetBlockError : Type 0 where
  set_ok option_not_supported suboption_not_supported suboption_not_set : SetBlockError
  resource_error set_not_possible : SetBlockError

-- `err as u8`
abbrev pub set_code : SetBlockError → ℕ
set_code set_ok = 0
set_code option_not_supported = 1
set_code suboption_not_supported = 2
set_code suboption_not_set = 3
set_code resource_error = 4
set_code set_not_possible = 5

-- A request's block. A block without its qualifier, on which `expect` would panic, does not come
-- out of `parse_blocks`; it is `none` here.
abbrev pub set_block : DcpBlock → Option ℕ → Result DcpError (Option SetBlock)
set_block b none = ok none
set_block b (some qualifier) =
    if b.option == 1 && b.suboption == 2
    then fail_if (not (length b.value == 12)) (malformed "IPParameter value must be 12 bytes")
      >> ok (some (ip_suite qualifier (slice b.value 0 4) (slice b.value 4 8) (slice b.value 8 12)))
    else ok (some (other b.option b.suboption))

abbrev pub with_front : Option SetBlock → Option (List SetBlock) → Option (List SetBlock)
with_front none rest = none
with_front (some b) none = none
with_front (some b) (some rest) = some (b ∷ rest)

-- The loop over the blocks; `none` is a panic.
unfoldable pub set_blocks : List DcpBlock → Result DcpError (Option (List SetBlock))
set_blocks [] = ok (some [])
set_blocks (b ∷ bs) =
    set_block b b.block_info >>= λ front. set_blocks bs >>= λ rest. ok (with_front front rest)

abbrev pub request_of : Option (List SetBlock) → Option SetRequest
request_of none = none
request_of (some blocks) = some (record { blocks = blocks })

unfoldable pub parse_set_request : Bytes → Result DcpError (Option SetRequest)
parse_set_request block_bytes = do
  blocks ← parse_blocks block_bytes true
  parsed ← set_blocks blocks
  ok (request_of parsed)

pub record SetResult : Type 0 where
  pub option : ℕ
  pub suboption : ℕ
  pub outcome : SetBlockError

abbrev pub decide : DeviceProperties → SetBlock → SetResult
decide current (ip_suite qualifier ip subnet gateway) = record {
  option = 1;
  suboption = 2;
  outcome =
      if bytes_eq ip current.ip
        && (bytes_eq subnet current.subnet && bytes_eq gateway current.gateway)
      then set_ok
      else set_not_possible;
}
decide current (other option suboption) = record {
  option = option;
  suboption = suboption;
  outcome = suboption_not_supported;
}

unfoldable pub decide_set : SetRequest → DeviceProperties → List SetResult
decide_set req current = map (decide current) req.blocks

abbrev pub result_block : SetResult → DcpBlock
result_block r = record {
  option = 5;
  suboption = 4;
  block_info = none;
  value = r.option ∷ r.suboption ∷ set_code r.outcome ∷ [];
}

unfoldable pub build_set_response : MacAddr → MacAddr → ℕ → List SetResult → Bytes
build_set_response dst src xid results =
    let blocks = map result_block results in
    Header.write (record { dst = dst; src = src; vlan = none; ethertype = ethertype_profinet })
    ++ (be16 (frame_id_code get_set)
        ++ (Frame.write (record {
          service_id = set;
          service_type = response_success;
          xid = xid;
          response_delay = 0;
          data_length = blocks_encoded_len blocks;
        })
            ++ write_blocks blocks))
