-- ===== src/Cm/Requests/Parse.antt =====
-- crates/pnio/src/cm/block.rs: the parsers of the Connect request's blocks.
use pnio_rs.Prelude.{ℕ, zero, suc, ◌%◌, Bool, false, ◌&&◌, ◌==◌, leb, ltb}
use pnio_rs.Prelude.{if◌then◌else◌, Option, none, some, List, [], ◌∷◌, Bytes, Result}
use pnio_rs.Cm.Block.{BlockError, malformed}
use pnio_rs.Cm.Cursor.{Reader, ◌>>=◌, ◌>>◌, pure, fail, run, bytes, u8, u16, u32, uuid, mac}
use pnio_rs.Cm.Requests.{
  ArBlockReq, IocrObject, IocrApi, IocrBlockReq, DataDescription, ExpectedSubmodule, ExpectedApi,
  ExpectedSubmoduleBlockReq, AlarmCrBlockReq,
}

-- `String::from_utf8` accepts well-formed UTF-8: how many continuation bytes are still to come, and
-- the bounds of the next one.
abbrev lead_byte : ℕ → Option (ℕ × ℕ × ℕ)
lead_byte b =
    if ltb b 0x80
    then some (0, 0x80, 0xBF)
    else if ltb b 0xC2
    then none
    else if ltb b 0xE0
    then some (1, 0x80, 0xBF)
    else if b == 0xE0
    then some (2, 0xA0, 0xBF)
    else if b == 0xED
    then some (2, 0x80, 0x9F)
    else if ltb b 0xF0
    then some (2, 0x80, 0xBF)
    else if b == 0xF0
    then some (3, 0x90, 0xBF)
    else if ltb b 0xF4
    then some (3, 0x80, 0xBF)
    else if b == 0xF4
    then some (3, 0x80, 0x8F)
    else none

abbrev utf8_step : ℕ → ℕ → ℕ → ℕ → Option (ℕ × ℕ × ℕ)
utf8_step zero lo hi b = lead_byte b
utf8_step (suc n) lo hi b = if leb lo b && leb b hi then some (n, 0x80, 0xBF) else none

utf8_from : Bytes → Option (ℕ × ℕ × ℕ) → Bool
utf8_from bs none = false
utf8_from [] (some (n, lo, hi)) = n == 0
utf8_from (b ∷ bs) (some (n, lo, hi)) = utf8_from bs (utf8_step n lo hi b)

unfoldable pub is_utf8 : Bytes → Bool
unfolding utf8_from
is_utf8 bs = utf8_from bs (some (0, 0x80, 0xBF))

abbrev utf8 : Bytes → Reader Bytes
utf8 bs = if is_utf8 bs then pure bs else fail (malformed "station name not valid utf-8")

read_ar_block : Reader ArBlockReq
read_ar_block = do
  ar_type ← u16
  ar_uuid ← uuid
  session_key ← u16
  initiator_mac ← mac
  initiator_object_uuid ← uuid
  ar_properties ← u32
  activity_timeout_factor ← u16
  initiator_udp_rt_port ← u16
  name_len ← u16
  name_bytes ← bytes name_len
  station_name ← utf8 name_bytes
  pure (record {
    ar_type = ar_type;
    ar_uuid = ar_uuid;
    session_key = session_key;
    initiator_mac = initiator_mac;
    initiator_object_uuid = initiator_object_uuid;
    ar_properties = ar_properties;
    activity_timeout_factor = activity_timeout_factor;
    initiator_udp_rt_port = initiator_udp_rt_port;
    station_name = station_name;
  })

unfoldable pub parse_ar_block : Bytes → Result BlockError ArBlockReq
unfolding read_ar_block
parse_ar_block body = run read_ar_block body

-- `for _ in 0..n { out.push(read()?) }`
repeat : {A : Type 0} → ℕ → Reader A → Reader (List A)
repeat zero m = pure []
repeat (suc n) m = do a ← m; rest ← repeat n m; pure (a ∷ rest)

abbrev read_object : Reader IocrObject
read_object = do
  slot ← u16
  subslot ← u16
  frame_offset ← u16
  pure (record { slot = slot; subslot = subslot; frame_offset = frame_offset })

abbrev read_iocr_api : Reader IocrApi
read_iocr_api = do
  api ← u32
  number_of_io_data ← u16
  io_data ← repeat number_of_io_data read_object
  number_of_iocs ← u16
  iocs ← repeat number_of_iocs read_object
  pure (record { api = api; io_data = io_data; iocs = iocs })

read_iocr_block : Reader IocrBlockReq
unfolding repeat
read_iocr_block = do
  iocr_type ← u16
  reference ← u16
  lt ← u16
  properties ← u32
  data_length ← u16
  frame_id ← u16
  send_clock_factor ← u16
  reduction_ratio ← u16
  phase ← u16
  sequence ← u16
  frame_send_offset ← u32
  watchdog_factor ← u16
  data_hold_factor ← u16
  tag_header ← u16
  multicast_mac ← mac
  number_of_apis ← u16
  apis ← repeat number_of_apis read_iocr_api
  pure (record {
    iocr_type = iocr_type;
    reference = reference;
    lt = lt;
    properties = properties;
    data_length = data_length;
    frame_id = frame_id;
    send_clock_factor = send_clock_factor;
    reduction_ratio = reduction_ratio;
    phase = phase;
    sequence = sequence;
    frame_send_offset = frame_send_offset;
    watchdog_factor = watchdog_factor;
    data_hold_factor = data_hold_factor;
    tag_header = tag_header;
    multicast_mac = multicast_mac;
    apis = apis;
  })

unfoldable pub parse_iocr_block : Bytes → Result BlockError IocrBlockReq
unfolding read_iocr_block
parse_iocr_block body = run read_iocr_block body

abbrev data_description : ℕ → Reader DataDescription
data_description expected_tag = do
  tag ← u16
  (if tag == expected_tag then pure tt else fail (malformed "data description tag"))
  data_length ← u16
  length_iocs ← u8
  length_iops ← u8
  pure (record { data_length = data_length; length_iocs = length_iocs; length_iops = length_iops })

abbrev input_description : Reader (Option DataDescription × Option DataDescription)
input_description = do input ← data_description 1; pure (some input, none)

abbrev output_description : Reader (Option DataDescription × Option DataDescription)
output_description = do output ← data_description 2; pure (none, some output)

abbrev both_descriptions : Reader (Option DataDescription × Option DataDescription)
both_descriptions = do
  input ← data_description 1
  output ← data_description 2
  pure (some input, some output)

-- `match properties & 0x3`
abbrev descriptions : ℕ → Reader (Option DataDescription × Option DataDescription)
descriptions properties =
    if ltb (properties % 4) 2
    then input_description
    else if properties % 4 == 2
    then output_description
    else both_descriptions

abbrev read_submodule : Reader ExpectedSubmodule
read_submodule = do
  subslot ← u16
  submodule_ident ← u32
  properties ← u16
  io ← descriptions properties
  pure (record {
    subslot = subslot;
    submodule_ident = submodule_ident;
    properties = properties;
    input = io.0;
    output = io.1;
  })

abbrev read_expected_api : Reader ExpectedApi
read_expected_api = do
  api ← u32
  slot ← u16
  module_ident ← u32
  module_properties ← u16
  number_of_submodules ← u16
  submodules ← repeat number_of_submodules read_submodule
  pure (record {
    api = api;
    slot = slot;
    module_ident = module_ident;
    module_properties = module_properties;
    submodules = submodules;
  })

read_expected_block : Reader ExpectedSubmoduleBlockReq
unfolding repeat
read_expected_block = do
  number_of_apis ← u16
  apis ← repeat number_of_apis read_expected_api
  pure (record { apis = apis })

unfoldable pub parse_expected_block : Bytes → Result BlockError ExpectedSubmoduleBlockReq
unfolding read_expected_block
parse_expected_block body = run read_expected_block body

read_alarm_cr_block : Reader AlarmCrBlockReq
read_alarm_cr_block = do
  alarm_cr_type ← u16
  lt ← u16
  properties ← u32
  rta_timeout_factor ← u16
  rta_retries ← u16
  local_alarm_reference ← u16
  max_alarm_data_length ← u16
  tag_header_high ← u16
  tag_header_low ← u16
  pure (record {
    alarm_cr_type = alarm_cr_type;
    lt = lt;
    properties = properties;
    rta_timeout_factor = rta_timeout_factor;
    rta_retries = rta_retries;
    local_alarm_reference = local_alarm_reference;
    max_alarm_data_length = max_alarm_data_length;
    tag_header_high = tag_header_high;
    tag_header_low = tag_header_low;
  })

unfoldable pub parse_alarm_cr_block : Bytes → Result BlockError AlarmCrBlockReq
unfolding read_alarm_cr_block
parse_alarm_cr_block body = run read_alarm_cr_block body
