-- ===== src/Dcp/Handle.antt =====
-- crates/pnio/src/dcp/mod.rs: what the device answers to a frame. The outer `Option` of the outcome
-- is the code's; `panic` is the `expect` of parse_set_request.
pub mod Answers
pub mod Requests
pub mod SetRequests
use pnio_rs.Prelude.{
  ℕ, ◌+◌, Bool, true, false, ◌&&◌, ◌||◌, not, Option, none, some, List, [], ◌∷◌, Bytes,
}
use pnio_rs.Prelude.{length, drop, u16_at, ltb, ◌==◌, if◌then◌else◌, Result, ok, err, ◌>>=◌, ◌>>◌}
use pnio_rs.Prelude.{fail_if, map_err}
use pnio_rs.Eth.Header.{MacAddr, EthHeader, EthError, ethertype_profinet}
use pnio_rs.Eth.Header
use pnio_rs.Rpc.Uuid.{bytes_eq}
use pnio_rs.Dcp.Block.{DcpError, too_short, malformed}
use pnio_rs.Dcp.Frame.{
  FrameId, identify_request, identify_response, get_set, hello_frame, frame_id_of, DcpHeader,
  ServiceId, get, set, identify, hello, ServiceType, request, response_success,
}
use pnio_rs.Dcp.Frame
use pnio_rs.Dcp.Identify.{
  IdentifyFilter, DeviceProperties, parse_identify_request, build_identify_response,
}
use pnio_rs.Dcp.Set.{SetRequest, parse_set_request, decide_set, build_set_response}

pub record DcpConfig : Type 0 where
  pub mac : MacAddr
  pub properties : DeviceProperties

-- What the handler does: it stays silent, it answers, or it panics.
pub data Reaction : Type 0 where
  silent : Reaction
  answers : Bytes → Reaction
  panics : Reaction

abbrev pub is_empty {ℓ} : {A : Type ℓ} → List A → Bool
is_empty [] = true
is_empty (x ∷ xs) = false

abbrev pub named : Option Bytes → Bytes → Bool → Bool
named none name all_selector = all_selector
named (some wanted) name all_selector = bytes_eq wanted name

unfoldable pub responds : IdentifyFilter → DeviceProperties → Bool
responds f props =
    if not (is_empty f.other_filters)
    then false
    else named f.name_of_station props.name_of_station f.all_selector

abbrev pub on_identify : EthHeader → DcpHeader → Bytes → DcpConfig → Result DcpError Reaction
on_identify eth h blocks cfg = do
  filter ← parse_identify_request blocks
  ok (
      if responds filter cfg.properties
      then answers (build_identify_response eth.src cfg.mac h.xid cfg.properties)
      else silent)

abbrev is_set : ServiceId → Bool
is_set set = true
is_set get = false
is_set identify = false
is_set hello = false

abbrev is_request : ServiceType → Bool
is_request request = true
is_request response_success = false

abbrev pub set_answer : EthHeader → DcpHeader → DcpConfig → Option SetRequest → Reaction
set_answer eth h cfg none = panics
set_answer eth h cfg (some req) =
    answers (build_set_response eth.src cfg.mac h.xid (decide_set req cfg.properties))

abbrev pub on_set : EthHeader → DcpHeader → Bytes → DcpConfig → Result DcpError Reaction
on_set eth h blocks cfg =
    if not (is_set h.service_id) || not (is_request h.service_type)
    then ok silent
    else parse_set_request blocks >>= λ req. ok (set_answer eth h cfg req)

abbrev pub by_id : Option FrameId → EthHeader → Bytes → DcpConfig → Result DcpError Reaction
by_id (some identify_request) eth payload cfg =
    Frame.parse (drop 2 payload) >>= λ (r : DcpHeader × Bytes). on_identify eth r.0 r.1 cfg
by_id (some get_set) eth payload cfg =
    Frame.parse (drop 2 payload) >>= λ (r : DcpHeader × Bytes). on_set eth r.0 r.1 cfg
by_id (some identify_response) eth payload cfg = ok silent
by_id (some hello_frame) eth payload cfg = ok silent
by_id none eth payload cfg = ok silent

abbrev pub bad_header : EthError → DcpError
bad_header e = malformed "bad Ethernet header"

unfoldable pub handle_dcp_frame : Bytes → DcpConfig → Result DcpError Reaction
handle_dcp_frame frame cfg = do
  (eth, payload_off) ← map_err bad_header (Header.parse frame)
  let payload = drop payload_off frame
  if not (eth.ethertype == ethertype_profinet)
      then ok silent
      else (if ltb (length payload) 2
          then err (too_short (payload_off + 2) (length frame))
          else by_id (frame_id_of (u16_at payload 0)) eth payload cfg)
