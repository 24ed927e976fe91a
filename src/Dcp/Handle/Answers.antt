-- ===== src/Dcp/Handle/Answers.antt =====
-- What a station reads in the device's answers.
use pnio_rs.Prelude.{ℕ, ◌*◌, ◌≡◌, ◌<◌, arith, refl, sym, ap, ◌∙◌, Bool, true, false, none, List, []}
use pnio_rs.Prelude.{
  ◌∷◌, ◌++◌, map, Bytes, length, drop, u16_at, be16, ok, All, IsU16, IsU32, be16_lem,
}
use pnio_rs.Prelude.{append-nil}
use pnio_rs.Eth.Header.{MacAddr, EthHeader, ethertype_profinet}
use pnio_rs.Eth.Header
use pnio_rs.Eth.RoundTrip.{parse-write_untagged}
use pnio_rs.Dcp.Block.{DcpBlock, parse_blocks, write_blocks, write_block, blocks_encoded_len}
use pnio_rs.Dcp.Block.Laws.{FitsBlock, parse_blocks-write_blocks, blocks_encoded_len_lem}
use pnio_rs.Dcp.Frame.{
  FrameId, ServiceId, ServiceType, DcpHeader, identify, set, response_success, frame_id_code,
  identify_response, get_set,
}
use pnio_rs.Dcp.Frame
use pnio_rs.Dcp.Frame.RoundTrip.{dcp_parse-write}
use pnio_rs.Dcp.Identify.{DeviceProperties, identify_blocks, build_identify_response}
use pnio_rs.Dcp.Set.{SetResult, result_block, build_set_response}

abbrev pub untagged : MacAddr → MacAddr → EthHeader
untagged dst src = record { dst = dst; src = src; vlan = none; ethertype = ethertype_profinet }

abbrev answer_header : ServiceId → ℕ → Bytes → DcpHeader
answer_header service xid blocks = record {
  service_id = service;
  service_type = response_success;
  xid = xid;
  response_delay = 0;
  data_length = length blocks;
}

-- A frame of the device `src` to the station `dst` that answers the transaction `xid` with these
-- blocks.
abbrev pub ReadsAnswer :
    Bytes → MacAddr → MacAddr → FrameId → ServiceId → ℕ → Bool → List DcpBlock → Type 0
ReadsAnswer out dst src id service xid has_info blocks =
    (Header.parse out ≡ ok (untagged dst src, 14))
    × (u16_at (drop 14 out) 0 ≡ frame_id_code id)
    × (body : Bytes) × (Frame.parse (drop 16 out) ≡ ok (answer_header service xid body, body))
    × (parse_blocks body has_info ≡ ok blocks)

abbrev frame_of : MacAddr → MacAddr → FrameId → ServiceId → ℕ → List DcpBlock → Bytes
frame_of dst src id service xid blocks =
    Header.write (untagged dst src)
    ++ (be16 (frame_id_code id)
        ++ (Frame.write (record {
          service_id = service;
          service_type = response_success;
          xid = xid;
          response_delay = 0;
          data_length = blocks_encoded_len blocks;
        })
            ++ write_blocks blocks))

pub frame_id_fits : (id : FrameId) → IsU16 (frame_id_code id)
frame_id_fits Frame.identify_request = omega arith
frame_id_fits identify_response = omega arith
frame_id_fits get_set = omega arith
frame_id_fits Frame.hello_frame = omega arith

drop_header :
    (dst src : MacAddr) (id : FrameId) (rest : Bytes)
    → drop 16 (Header.write (untagged dst src) ++ (be16 (frame_id_code id) ++ rest)) ≡ rest
unfolding Header.write
drop_header dst src id rest = refl

id_lem :
    (dst src : MacAddr) (id : FrameId) (rest : Bytes)
    → u16_at (drop 14 (Header.write (untagged dst src) ++ (be16 (frame_id_code id) ++ rest))) 0
      ≡ frame_id_code id
unfolding Header.write
id_lem dst src id rest = be16_lem (frame_id_code id) (frame_id_fits id)

answer_lem :
    (dst src : MacAddr) (id : FrameId) (service : ServiceId) (xid : ℕ) (has_info : Bool)
    (blocks : List DcpBlock)
    → IsU32 xid
    → All (FitsBlock has_info) blocks
    → length (write_blocks blocks) < 65536
    → ReadsAnswer (frame_of dst src id service xid blocks) dst src id service xid has_info blocks
answer_lem dst src id service xid has_info blocks hx hb hl =
    let body = write_blocks blocks in
    let len = blocks_encoded_len_lem blocks hl in
    rw len (
      parse-write_untagged dst src ethertype_profinet
          (be16 (frame_id_code id) ++ (Frame.write (answer_header service xid body) ++ body))
          (omega arith) (λ e. absurd (omega arith)),
      id_lem dst src id (Frame.write (answer_header service xid body) ++ body),
      body,
      ap Frame.parse (drop_header dst src id (Frame.write (answer_header service xid body) ++ body))
          ∙ ap (λ (b : Bytes). Frame.parse (Frame.write (answer_header service xid body) ++ b))
              (sym (append-nil body))
          ∙ dcp_parse-write (answer_header service xid body) body [] hx (omega arith) hl refl,
      parse_blocks-write_blocks has_info blocks hb,
    )

-- What the device says of itself fits its fields.
pub record IsProperties (props : DeviceProperties) : Type 0 where
  pub blocks_fit : length (write_blocks (identify_blocks props)) < 65536
  pub all_fit : All (FitsBlock true) (identify_blocks props)

-- A station reads in an Identify response its own transaction and the seven blocks of the device's
-- identity, under the device's address and sent to the station.
pub reads_identify_response :
    (dst src : MacAddr) (xid : ℕ) (props : DeviceProperties)
    → IsU32 xid
    → IsProperties props
    → ReadsAnswer
        (build_identify_response dst src xid props)
        dst
        src
        identify_response
        identify
        xid
        true
        (identify_blocks props)
unfolding build_identify_response
reads_identify_response dst src xid props hx i =
    answer_lem dst src identify_response identify xid true (identify_blocks props) hx i.all_fit
      i.blocks_fit

result_fits : (results : List SetResult) → All (FitsBlock false) (map result_block results)
result_fits [] = tt
result_fits (r ∷ rs) = ((tt, omega arith), result_fits rs)

length-results :
    (results : List SetResult)
    → length (write_blocks (map result_block results)) ≡ 8 * length results
unfolding write_blocks write_block
length-results [] = omega arith
length-results (r ∷ rs) = omega (arith, length-results rs)

-- A station reads in a Set response its own transaction and one result for each block, in order.
pub reads_set_response :
    (dst src : MacAddr) (xid : ℕ) (results : List SetResult)
    → IsU32 xid
    → length results < 8192
    → ReadsAnswer
        (build_set_response dst src xid results)
        dst
        src
        get_set
        set
        xid
        false
        (map result_block results)
unfolding build_set_response
reads_set_response dst src xid results hx hl =
    answer_lem dst src get_set set xid false (map result_block results) hx (result_fits results)
      (omega (arith, length-results results))
