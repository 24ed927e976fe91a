-- ===== src/Cm/Connect/Validate.antt =====
-- crates/pnio/src/cm/connect.rs: the validation of a Connect request against the device's model.
use pnio_rs.Prelude.{ℕ, zero, suc, ◌+◌, Bool, true, false, not, ◌&&◌, ◌||◌, Option, none, some}
use pnio_rs.Prelude.{List, [], ◌∷◌, length, find, ltb, leb, ◌==◌, if◌then◌else◌}
use pnio_rs.Prelude.{Result, ok, err, ◌>>=◌, ◌>>◌, fail_if, for_each}
use pnio_rs.Rpc.Uuid.{uuid_eq, nil_uuid}
use pnio_rs.Cm.Status.{
  PnioStatus, iocr_block, ar_block, expected_submodule, alarm_cr, connect_reject,
}
use pnio_rs.Cm.Model.{DeviceModel, SubmoduleModel, SlotModel, find_slot, find_submodule}
use pnio_rs.Cm.Requests.{
  IocrObject, IocrApi, IocrBlockReq, DataDescription, ExpectedSubmodule, ExpectedApi,
  ExpectedSubmoduleBlockReq,
}
use pnio_rs.Cm.Connect.{ConnectReq, IocrParams, ArParams}

abbrev pub io_data_of : List IocrApi → List IocrObject
io_data_of [] = []
io_data_of (api ∷ apis) = api.io_data

abbrev pub iocs_of : List IocrApi → List IocrObject
iocs_of [] = []
iocs_of (api ∷ apis) = api.iocs

unfoldable pub from_req : IocrBlockReq → IocrParams
from_req cr = record {
  reference = cr.reference;
  frame_id = cr.frame_id;
  data_length = cr.data_length;
  send_clock_factor = cr.send_clock_factor;
  reduction_ratio = cr.reduction_ratio;
  watchdog_factor = cr.watchdog_factor;
  data_hold_factor = cr.data_hold_factor;
  io_data = io_data_of cr.apis;
  iocs = iocs_of cr.apis;
}

-- `FRAME_ID_RANGE.contains`
abbrev pub in_frame_id_range : ℕ → Bool
in_frame_id_range id = leb 0x8000 id && leb id 0xBBFF

abbrev pub frame_id_device_selects : ℕ
frame_id_device_selects = 0xFFFF

-- `(id..=0xBBFF).find(|&id| id != input_frame_id)`, with the number of values still to try.
unfoldable pub find_frame_id : ℕ → ℕ → ℕ → Option ℕ
find_frame_id zero id input_frame_id = none
find_frame_id (suc n) id input_frame_id =
    let rest = find_frame_id n (id + 1) input_frame_id in
    if not (id == input_frame_id) then some id else rest

abbrev pub unwrap_or : Option ℕ → ℕ → ℕ
unwrap_or none d = d
unwrap_or (some x) d = x

unfoldable pub select_output_frame_id : ℕ → ℕ
unfolding find_frame_id
select_output_frame_id input_frame_id =
    unwrap_or (find_frame_id (suc (suc 0x3BFD)) 0x8001 input_frame_id) 0x8001

abbrev pub too_small : PnioStatus
too_small = connect_reject iocr_block 5

abbrev pub model_len : Bool → SubmoduleModel → ℕ
model_len true sm = sm.output_len
model_len false sm = sm.input_len

abbrev fits_data : Bool → ℕ → ℕ → Option SubmoduleModel → Result PnioStatus (Unit {0})
fits_data is_output_cr frame_offset data_length none = err too_small
fits_data is_output_cr frame_offset data_length (some sm) =
    fail_if (ltb data_length (frame_offset + model_len is_output_cr sm + 1)) too_small

unfoldable pub check_io_data : DeviceModel → Bool → ℕ → IocrObject → Result PnioStatus (Unit {0})
check_io_data model is_output_cr data_length obj =
    fits_data is_output_cr obj.frame_offset data_length (find_submodule model obj.slot obj.subslot)

unfoldable pub check_iocs : ℕ → IocrObject → Result PnioStatus (Unit {0})
check_iocs data_length obj = fail_if (ltb data_length (obj.frame_offset + 1)) too_small

unfoldable pub check_iocr_data_length :
    IocrBlockReq → DeviceModel → Bool → Result PnioStatus (Unit {0})
check_iocr_data_length cr model is_output_cr = do
  fail_if (not (length cr.apis == 1)) (connect_reject iocr_block 15)
  for_each (check_io_data model is_output_cr cr.data_length) (io_data_of cr.apis)
  for_each (check_iocs cr.data_length) (iocs_of cr.apis)

abbrev check_module : ℕ → Option SlotModel → Result PnioStatus (Unit {0})
check_module module_ident none = ok tt
check_module module_ident (some s) =
    fail_if (not (s.module_ident == module_ident)) (connect_reject expected_submodule 4)

abbrev pub described_length : Option DataDescription → ℕ
described_length none = 0
described_length (some d) = d.data_length

abbrev check_found : ExpectedSubmodule → Option SubmoduleModel → Result PnioStatus (Unit {0})
check_found sm none = err (connect_reject expected_submodule 7)
check_found sm (some m) = do
  fail_if (not (m.submodule_ident == sm.submodule_ident)) (connect_reject expected_submodule 6)
  fail_if
      (not (m.input_len == described_length sm.input)
        || not (m.output_len == described_length sm.output))
      (connect_reject expected_submodule 7)

unfoldable pub check_submodule : DeviceModel → ℕ → ExpectedSubmodule → Result PnioStatus (Unit {0})
check_submodule model slot sm = check_found sm (find_submodule model slot sm.subslot)

unfoldable pub check_api : DeviceModel → ExpectedApi → Result PnioStatus (Unit {0})
check_api model api = do
  check_module api.module_ident (find_slot model api.slot)
  for_each (check_submodule model api.slot) api.submodules

unfoldable pub check_expected :
    DeviceModel → ExpectedSubmoduleBlockReq → Result PnioStatus (Unit {0})
check_expected model block = for_each (check_api model) block.apis

abbrev both :
    Option IocrBlockReq → Option IocrBlockReq → Result PnioStatus (IocrBlockReq × IocrBlockReq)
both (some i) (some o) = ok (i, o)
both none o = err (connect_reject iocr_block 1)
both (some i) none = err (connect_reject iocr_block 1)

-- The Input and the Output CR.
unfoldable pub find_crs : List IocrBlockReq → Result PnioStatus (IocrBlockReq × IocrBlockReq)
find_crs iocrs = do
  fail_if (not (length iocrs == 2)) (connect_reject iocr_block 1)
  both (find (λ c. c.iocr_type == 1) iocrs) (find (λ c. c.iocr_type == 2) iocrs)

unfoldable pub check_frame_ids : ℕ → ℕ → Result PnioStatus (Unit {0})
check_frame_ids input_id output_id = do
  fail_if (not (in_frame_id_range input_id)) (connect_reject iocr_block 6)
  fail_if (not (in_frame_id_range output_id) && not (output_id == frame_id_device_selects))
      (connect_reject iocr_block 6)

abbrev pub output_frame_id : ℕ → ℕ → ℕ
output_frame_id input_id output_id =
    if output_id == frame_id_device_selects then select_output_frame_id input_id else output_id

abbrev pub params_of : ConnectReq → DeviceModel → IocrBlockReq → IocrBlockReq → ArParams
params_of req model input output = record {
  ar_uuid = req.ar.ar_uuid;
  session_key = req.ar.session_key;
  initiator_mac = req.ar.initiator_mac;
  initiator_object_uuid = req.ar.initiator_object_uuid;
  activity_timeout_factor = req.ar.activity_timeout_factor;
  input_cr = from_req input;
  output_cr = record (from_req output) {
    frame_id = output_frame_id input.frame_id output.frame_id;
  };
  alarm_ref_remote = req.alarm_cr.local_alarm_reference;
  max_alarm_data_length = model.max_alarm_data_length;
  max_alarm_data_length_remote = req.alarm_cr.max_alarm_data_length;
  rta_timeout_factor = req.alarm_cr.rta_timeout_factor;
  rta_retries = req.alarm_cr.rta_retries;
  alarm_ref_local = 0;
  alarm_tag_high = req.alarm_cr.tag_header_high;
  alarm_tag_low = req.alarm_cr.tag_header_low;
}

-- `validate` from the CRs' checks on.
abbrev pub validate_crs :
    ConnectReq → DeviceModel → IocrBlockReq × IocrBlockReq → Result PnioStatus ArParams
validate_crs req model (input, output) = do
  check_frame_ids input.frame_id output.frame_id
  for_each (check_expected model) req.expected
  check_iocr_data_length input model false
  check_iocr_data_length output model true
  fail_if (not (req.alarm_cr.alarm_cr_type == 1)) (connect_reject alarm_cr 1)
  ok (params_of req model input output)

unfoldable pub validate : ConnectReq → DeviceModel → Result PnioStatus ArParams
validate req model = do
  fail_if (not (req.ar.ar_type == 1)) (connect_reject ar_block 1)
  fail_if (uuid_eq req.ar.ar_uuid nil_uuid) (connect_reject ar_block 2)
  crs ← find_crs req.iocrs
  validate_crs req model crs
