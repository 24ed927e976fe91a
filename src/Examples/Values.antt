-- ===== src/Examples/Values.antt =====
-- A device with one submodule, its controller, a Connect request and an alarm.
use pnio_rs.Prelude.{ℕ, ◌≡◌, refl, false, some, [], ◌∷◌, ok}
use pnio_rs.Eth.Header.{MacAddr}
use pnio_rs.Rpc.Uuid.{Uuid, uuid_of}
use pnio_rs.Cm.Model.{DeviceModel}
use pnio_rs.Cm.Requests.{IocrBlockReq, ExpectedSubmoduleBlockReq}
use pnio_rs.Cm.Connect.{ConnectReq, ArParams}
use pnio_rs.Cm.Connect.Validate.{
  validate, params_of, find_crs, check_frame_ids, check_expected, check_api, check_submodule,
  check_iocr_data_length, check_io_data, check_iocs,
}
use pnio_rs.Rpc.Uuid.{uuid_eq, bytes_eq}
use pnio_rs.Cm.Model.{find_submodule, find_slot}
use pnio_rs.Cm.Control.{ControlBlock, iod_control_req_prm_end}
use pnio_rs.Cm.Write.{Record, WriteReq}
use pnio_rs.Alarm.Fields.{process}
use pnio_rs.Alarm.Pdu.{AlarmNotification, raw_data, low}
use pnio_rs.Alarm.Channel.Types.{AlarmChannelConfig, AlarmReq}

abbrev pub device_mac : MacAddr
device_mac = record { b0 = 2; b1 = 0; b2 = 0; b3 = 0; b4 = 0; b5 = 1 }

abbrev pub controller_mac : MacAddr
controller_mac = record { b0 = 2; b1 = 0; b2 = 0; b3 = 0; b4 = 0; b5 = 2 }

abbrev pub ar_id : Uuid
ar_id = uuid_of (1 ∷ 2 ∷ 3 ∷ 4 ∷ 5 ∷ 6 ∷ 7 ∷ 8 ∷ 9 ∷ 10 ∷ 11 ∷ 12 ∷ 13 ∷ 14 ∷ 15 ∷ 16 ∷ [])

abbrev pub device : DeviceModel
device = record {
  vendor_id = 1;
  device_id = 2;
  instance_id = 1;
  station_name = 100 ∷ 101 ∷ 118 ∷ [];
  mac = device_mac;
  max_alarm_data_length = 200;
  slots =
      record {
        slot = 1;
        module_ident = 0x30;
        submodules =
            record { subslot = 1; submodule_ident = 0x31; input_len = 2; output_len = 1 } ∷ [];
      }
      ∷ [];
}

abbrev cr_of : ℕ → ℕ → IocrBlockReq
cr_of iocr_type frame_id = record {
  iocr_type = iocr_type;
  reference = iocr_type;
  lt = 0x8892;
  properties = 1;
  data_length = 40;
  frame_id = frame_id;
  send_clock_factor = 32;
  reduction_ratio = 1;
  phase = 1;
  sequence = 0;
  frame_send_offset = 0;
  watchdog_factor = 3;
  data_hold_factor = 3;
  tag_header = 0xC000;
  multicast_mac = controller_mac;
  apis =
      record {
        api = 0;
        io_data = record { slot = 1; subslot = 1; frame_offset = 0 } ∷ [];
        iocs = record { slot = 1; subslot = 1; frame_offset = 3 } ∷ [];
      }
      ∷ [];
}

abbrev pub input_cr : IocrBlockReq
input_cr = cr_of 1 0x8001

abbrev pub output_cr : IocrBlockReq
output_cr = cr_of 2 0x8002

abbrev expected_block : ExpectedSubmoduleBlockReq
expected_block = record {
  apis =
      record {
        api = 0;
        slot = 1;
        module_ident = 0x30;
        module_properties = 0;
        submodules =
            record {
              subslot = 1;
              submodule_ident = 0x31;
              properties = 3;
              input = some (record { data_length = 2; length_iocs = 1; length_iops = 1 });
              output = some (record { data_length = 1; length_iocs = 1; length_iops = 1 });
            }
            ∷ [];
      }
      ∷ [];
}

abbrev pub request : ConnectReq
request = record {
  ar = record {
    ar_type = 1;
    ar_uuid = ar_id;
    session_key = 7;
    initiator_mac = controller_mac;
    initiator_object_uuid = ar_id;
    ar_properties = 0;
    activity_timeout_factor = 600;
    initiator_udp_rt_port = 0x8892;
    station_name = 99 ∷ [];
  };
  iocrs = input_cr ∷ output_cr ∷ [];
  expected = expected_block ∷ [];
  alarm_cr = record {
    alarm_cr_type = 1;
    lt = 0x8892;
    properties = 0;
    rta_timeout_factor = 1;
    rta_retries = 3;
    local_alarm_reference = 5;
    max_alarm_data_length = 200;
    tag_header_high = 0xC000;
    tag_header_low = 0xA000;
  };
}

abbrev pub params : ArParams
params = params_of request device input_cr output_cr

pub request_accepted : validate request device ≡ ok params
unfolding validate find_crs check_frame_ids check_expected check_api check_submodule
    check_iocr_data_length check_io_data check_iocs uuid_eq bytes_eq find_submodule find_slot
request_accepted = refl

abbrev pub prm_end : ControlBlock
prm_end = record {
  block_type = iod_control_req_prm_end;
  ar_uuid = ar_id;
  session_key = 7;
  command = 1;
  properties = 0;
}

abbrev pub parameter : Record
parameter = record {
  seq = 1;
  ar_uuid = ar_id;
  api = 0;
  slot = 1;
  subslot = 1;
  index = 5;
  payload = 170 ∷ 187 ∷ [];
}

abbrev pub parameters : WriteReq
parameters = record { records = parameter ∷ [] }

abbrev pub config : AlarmChannelConfig
config = record {
  local_ref = 0;
  remote_ref = 5;
  rta_timeout = 100000000;
  rta_retries = 3;
  max_alarm_data_length = 200;
  peer_mac = controller_mac;
  our_mac = device_mac;
}

abbrev pub alarm_notification : AlarmNotification
alarm_notification = record {
  alarm_type = process;
  api = 0;
  slot = 1;
  subslot = 1;
  module_ident = 0x30;
  submodule_ident = 0x31;
  specifier = record {
    sequence = 0;
    channel_diag = false;
    manufacturer_diag = false;
    submodule_diag = false;
    ar_diag = false;
  };
  usi = 1;
  user_data = raw_data (9 ∷ []);
}

abbrev pub alarm : AlarmReq
alarm = record { id = 1; priority = low; notification = alarm_notification }
