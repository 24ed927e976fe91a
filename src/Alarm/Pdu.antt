-- ===== src/Alarm/Pdu.antt =====
-- crates/pnio/src/alarm/rta.rs: the data of an alarm frame.
use pnio_rs.Prelude.{ℕ, Bool, Bytes, length}
use pnio_rs.Cm.Status.{PnioStatus}
use pnio_rs.Cm.Block.{BlockError}
use pnio_rs.Eth.Header.{EthError}
use pnio_rs.Alarm.Fields.{AlarmType, AlarmSpecifier, ChannelProperties}

pub data Priority : Type 0 where
  high low : Priority

abbrev pub frame_id_high : ℕ
frame_id_high = 0xFC01

abbrev pub frame_id_low : ℕ
frame_id_low = 0xFE01

-- The frame id and the VLAN TCI of a priority.
abbrev pub frame_id : Priority → ℕ
frame_id high = frame_id_high
frame_id low = frame_id_low

abbrev pub tci : Priority → ℕ
tci high = 0xC000
tci low = 0xA000

abbrev pub seq_init : ℕ
seq_init = 0xFFFF

abbrev pub seq_none : ℕ
seq_none = 0xFFFE

abbrev pub usi_channel_diag : ℕ
usi_channel_diag = 0x8000

abbrev pub usi_ext_channel_diag : ℕ
usi_ext_channel_diag = 0x8002

pub data PduType : Type 0 where
  data_pdu nack_pdu ack_pdu err_pdu : PduType

-- `pdu_type as u8`
abbrev pub pdu_code : PduType → ℕ
pdu_code data_pdu = 1
pdu_code nack_pdu = 2
pdu_code ack_pdu = 3
pdu_code err_pdu = 4

pub record RtaHeader : Type 0 where
  pub dst_ref : ℕ
  pub src_ref : ℕ
  pub pdu_type : PduType
  pub tack : Bool
  pub send_seq : ℕ
  pub ack_seq : ℕ

pub record ChannelDiagnosis : Type 0 where
  pub channel : ℕ
  pub properties : ChannelProperties
  pub error_type : ℕ

pub record ExtChannelDiagnosis : Type 0 where
  pub channel : ℕ
  pub properties : ChannelProperties
  pub error_type : ℕ
  pub ext_error_type : ℕ
  pub ext_add_value : ℕ

pub data UserData : Type 0 where
  channel_data : ChannelDiagnosis → UserData
  ext_channel_data : ExtChannelDiagnosis → UserData
  raw_data : Bytes → UserData

-- crates/pnio/src/alarm/channel.rs: the payload's length on the wire.
abbrev pub data_len : UserData → ℕ
data_len (raw_data v) = length v
data_len (channel_data d) = 6
data_len (ext_channel_data d) = 12

pub record AlarmNotification : Type 0 where
  pub alarm_type : AlarmType
  pub api : ℕ
  pub slot : ℕ
  pub subslot : ℕ
  pub module_ident : ℕ
  pub submodule_ident : ℕ
  pub specifier : AlarmSpecifier
  pub usi : ℕ
  pub user_data : UserData

pub record AlarmAck : Type 0 where
  pub alarm_type : AlarmType
  pub api : ℕ
  pub slot : ℕ
  pub subslot : ℕ
  pub specifier : AlarmSpecifier
  pub status : PnioStatus

pub data RtaData : Type 0 where
  notification : AlarmNotification → RtaData
  alarm_ack : AlarmAck → RtaData
  unknown_block : ℕ → Bytes → RtaData

pub data RtaBody : Type 0 where
  data_body : RtaData → RtaBody
  ack_body nack_body : RtaBody
  err_body : PnioStatus → RtaBody

pub record RtaPdu : Type 0 where
  pub priority : Priority
  pub header : RtaHeader
  pub body : RtaBody

pub data RtaError : Type 0 where
  eth_error : EthError → RtaError
  not_alarm too_short : RtaError
  bad_pdu_type : ℕ → RtaError
  bad_version : ℕ → RtaError
  block_error : BlockError → RtaError
  bad_var_part_len : ℕ → ℕ → RtaError
