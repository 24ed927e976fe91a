-- ===== src/Dcp/Identify.antt =====
-- crates/pnio/src/dcp/identify.rs: Identify requests and their response. Strings are their UTF-8
-- bytes.
use pnio_rs.Prelude.{ℕ, Bool, true, false, ◌&&◌, not, Option, none, some, List, [], ◌∷◌, ◌++◌}
use pnio_rs.Prelude.{Bytes, be16, ◌==◌, if◌then◌else◌, Result, ok, ◌>>=◌, ◌>>◌, fail_if}
use pnio_rs.Eth.Header.{MacAddr, ethertype_profinet}
use pnio_rs.Eth.Header
use pnio_rs.Cm.Requests.Parse.{is_utf8}
use pnio_rs.Dcp.Block.{
  DcpError, malformed, DcpBlock, parse_blocks, write_blocks, blocks_encoded_len,
}
use pnio_rs.Dcp.Frame.{DcpHeader, identify, response_success, frame_id_code, identify_response}
use pnio_rs.Dcp.Frame

pub record IdentifyFilter : Type 0 where
  pub name_of_station : Option Bytes
  pub all_selector : Bool
  pub other_filters : List (ℕ × ℕ)

-- `IdentifyFilter::default()`
abbrev pub no_filter : IdentifyFilter
no_filter = record { name_of_station = none; all_selector = false; other_filters = [] }

abbrev pub is_name : DcpBlock → Bool
is_name b = b.option == 2 && b.suboption == 2

abbrev pub is_all : DcpBlock → Bool
is_all b = b.option == 0xff && b.suboption == 0xff

-- The body of the loop over the blocks.
abbrev pub add_filter : IdentifyFilter → DcpBlock → Result DcpError IdentifyFilter
add_filter f b =
    if is_name b
    then fail_if (not (is_utf8 b.value)) (malformed "NameOfStation not UTF-8")
      >> ok (record f { name_of_station = some b.value })
    else if is_all b
    then ok (record f { all_selector = true })
    else ok (record f { other_filters = f.other_filters ++ ((b.option, b.suboption) ∷ []) })

unfoldable pub add_filters : IdentifyFilter → List DcpBlock → Result DcpError IdentifyFilter
add_filters f [] = ok f
add_filters f (b ∷ bs) = add_filter f b >>= λ f'. add_filters f' bs

unfoldable pub parse_identify_request : Bytes → Result DcpError IdentifyFilter
parse_identify_request block_bytes = do
  blocks ← parse_blocks block_bytes false
  add_filters no_filter blocks

pub record DeviceProperties : Type 0 where
  pub name_of_station : Bytes
  pub type_of_station : Bytes
  pub vendor_id : ℕ
  pub device_id : ℕ
  pub device_role : ℕ
  pub device_instance : ℕ
  pub device_options : Bytes
  pub ip : Bytes
  pub subnet : Bytes
  pub gateway : Bytes
  pub ip_block_info : ℕ

abbrev block : ℕ → ℕ → ℕ → Bytes → DcpBlock
block option suboption info value = record {
  option = option;
  suboption = suboption;
  block_info = some info;
  value = value;
}

abbrev pub identify_blocks : DeviceProperties → List DcpBlock
identify_blocks props =
    block 2 2 0 props.name_of_station
    ∷ block 2 5 0 props.device_options
    ∷ block 2 1 0 props.type_of_station
    ∷ block 2 3 0 (be16 props.vendor_id ++ be16 props.device_id)
    ∷ block 2 4 0 (be16 props.device_role)
    ∷ block 2 7 0 (be16 props.device_instance)
    ∷ block 1 2 props.ip_block_info (props.ip ++ (props.subnet ++ props.gateway))
    ∷ []

unfoldable pub build_identify_response : MacAddr → MacAddr → ℕ → DeviceProperties → Bytes
build_identify_response dst src xid props =
    let blocks = identify_blocks props in
    Header.write (record { dst = dst; src = src; vlan = none; ethertype = ethertype_profinet })
    ++ (be16 (frame_id_code identify_response)
        ++ (Frame.write (record {
          service_id = identify;
          service_type = response_success;
          xid = xid;
          response_delay = 0;
          data_length = blocks_encoded_len blocks;
        })
            ++ write_blocks blocks))
