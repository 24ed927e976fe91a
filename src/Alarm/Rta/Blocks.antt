-- ===== src/Alarm/Rta/Blocks.antt =====
-- Reading back the alarm blocks and the RTA header.
use pnio_rs.Prelude.{ℕ, ◌<◌, ◌≡◌, ◌≢◌, arith, length, Bytes, ok}
use pnio_rs.Prelude.{IsU16, IsU32, be16_lem, be32_lem, take-length, ◌++◌}
use pnio_rs.Alarm.Fields.{type_to_u16, specifier_to_u16}
use pnio_rs.Alarm.Fields.{properties_to_u16}
use pnio_rs.Alarm.Fields.Laws.{IsAlarmType, IsProperties, from_u16-to_u16, to_u16-IsU16}
use pnio_rs.Alarm.Fields.Laws.{specifier_round, properties_round}
use pnio_rs.Alarm.Pdu.{
  RtaHeader, UserData, channel_data, ext_channel_data, raw_data, AlarmNotification, AlarmAck,
  usi_channel_diag, usi_ext_channel_diag,
}
use pnio_rs.Alarm.Rta.Content.{user_data_of, parse_notification, parse_ack}
use pnio_rs.Alarm.Rta.Parse.{parse_header}
use pnio_rs.Alarm.Rta.Build.{write_header, write_user_data, notification_body, ack_bytes}

pub record IsRtaHeader (h : RtaHeader) : Type 0 where
  pub dst_fits : IsU16 h.dst_ref
  pub src_fits : IsU16 h.src_ref
  pub send_fits : IsU16 h.send_seq
  pub ack_fits : IsU16 h.ack_seq

-- A written RTA header is read back with the length written into it, whatever follows.
pub parse_header-write_header :
    (h : RtaHeader) (n : ℕ) (rest : Bytes)
    → IsRtaHeader h
    → IsU16 n
    → parse_header (write_header h n ++ rest) ≡ ok (h, n)
unfolding parse_header write_header
parse_header-write_header h n rest w hn = ground (
  arith,
  be16_lem h.dst_ref,
  be16_lem h.src_ref,
  be16_lem h.send_seq,
  be16_lem h.ack_seq,
  be16_lem n hn,
)

-- The payload is in the form that its identifier says, and its fields fit.
abbrev pub FitsUserData : ℕ → UserData → Type 0
FitsUserData usi (channel_data d) =
    (usi ≡ usi_channel_diag) × IsU16 d.channel × IsProperties d.properties × IsU16 d.error_type
FitsUserData usi (ext_channel_data d) =
    (usi ≡ usi_ext_channel_diag)
    × IsU16 d.channel
    × IsProperties d.properties
    × IsU16 d.error_type
    × IsU16 d.ext_error_type
    × IsU32 d.ext_add_value
FitsUserData usi (raw_data b) =
    (usi ≡ usi_channel_diag → length b ≢ 6) × (usi ≡ usi_ext_channel_diag → length b ≢ 12)

pub user_data_round :
    (usi : ℕ) (d : UserData) → FitsUserData usi d → user_data_of usi (write_user_data d) ≡ d
user_data_round usi (channel_data d) h = ground (
  arith,
  be16_lem d.channel,
  be16_lem d.error_type,
  be16_lem (properties_to_u16 d.properties),
  properties_round d.properties,
)
user_data_round usi (ext_channel_data d) h = ground (
  arith,
  be16_lem d.channel,
  be16_lem d.error_type,
  be16_lem (properties_to_u16 d.properties),
  properties_round d.properties,
  be16_lem d.ext_error_type,
  be32_lem d.ext_add_value,
)
user_data_round usi (raw_data b) h = ground arith

-- The values that a notification's fields can hold.
pub record IsNotification (n : AlarmNotification) : Type 0 where
  pub type_fits : IsAlarmType n.alarm_type
  pub api_fits : IsU32 n.api
  pub slot_fits : IsU16 n.slot
  pub subslot_fits : IsU16 n.subslot
  pub module_fits : IsU32 n.module_ident
  pub submodule_fits : IsU32 n.submodule_ident
  pub sequence_fits : n.specifier.sequence < 2048
  pub usi_fits : IsU16 n.usi
  pub user_data_fits : FitsUserData n.usi n.user_data

-- A notification's body is read back.
pub parse_notification_lem :
    (n : AlarmNotification) → IsNotification n → parse_notification (notification_body n) ≡ ok n
unfolding parse_notification notification_body
parse_notification_lem n h = ground (
  arith,
  be16_lem (type_to_u16 n.alarm_type),
  from_u16-to_u16 n.alarm_type h.type_fits,
  to_u16-IsU16 n.alarm_type h.type_fits,
  be32_lem n.api,
  be16_lem n.slot,
  be16_lem n.subslot,
  be32_lem n.module_ident,
  be32_lem n.submodule_ident,
  be16_lem (specifier_to_u16 n.specifier),
  specifier_round n.specifier,
  be16_lem n.usi,
  take-length (write_user_data n.user_data),
  user_data_round n.usi n.user_data h.user_data_fits,
)

pub record IsAck (a : AlarmAck) : Type 0 where
  pub type_fits : IsAlarmType a.alarm_type
  pub api_fits : IsU32 a.api
  pub slot_fits : IsU16 a.slot
  pub subslot_fits : IsU16 a.subslot
  pub sequence_fits : a.specifier.sequence < 2048
  pub status_fits : IsU32 a.status.value

-- An acknowledgement's body is read back.
pub parse_ack_lem : (a : AlarmAck) → IsAck a → parse_ack (ack_bytes a) ≡ ok a
unfolding parse_ack ack_bytes
parse_ack_lem a h = ground (
  arith,
  be16_lem (type_to_u16 a.alarm_type),
  from_u16-to_u16 a.alarm_type h.type_fits,
  to_u16-IsU16 a.alarm_type h.type_fits,
  be32_lem a.api,
  be16_lem a.slot,
  be16_lem a.subslot,
  be16_lem (specifier_to_u16 a.specifier),
  specifier_round a.specifier,
  be32_lem a.status.value,
)
