-- ===== src/Alarm/Rta/Content.antt =====
-- crates/pnio/src/alarm/rta.rs: the parsers of the two alarm blocks.
use pnio_rs.Prelude.{ℕ, ◌&&◌, length, ◌==◌, if◌then◌else◌, Bytes, u16_at, u32_at, Result}
use pnio_rs.Cm.Block.{BlockError}
use pnio_rs.Cm.Cursor.{Reader, ◌>>=◌, pure, run, remaining, bytes, u16, u32}
use pnio_rs.Alarm.Fields.{type_from_u16, specifier_from_u16, properties_from_u16}
use pnio_rs.Alarm.Pdu.{
  ChannelDiagnosis, ExtChannelDiagnosis, UserData, channel_data, ext_channel_data, raw_data,
  AlarmNotification, AlarmAck, usi_channel_diag, usi_ext_channel_diag,
}

abbrev pub parse_channel : Bytes → ChannelDiagnosis
parse_channel b = record {
  channel = u16_at b 0;
  properties = properties_from_u16 (u16_at b 2);
  error_type = u16_at b 4;
}

abbrev pub parse_ext_channel : Bytes → ExtChannelDiagnosis
parse_ext_channel b = record {
  channel = u16_at b 0;
  properties = properties_from_u16 (u16_at b 2);
  error_type = u16_at b 4;
  ext_error_type = u16_at b 6;
  ext_add_value = u32_at b 8;
}

abbrev pub user_data_of : ℕ → Bytes → UserData
user_data_of usi data_bytes =
    if usi == usi_channel_diag && length data_bytes == 6
    then channel_data (parse_channel data_bytes)
    else if usi == usi_ext_channel_diag && length data_bytes == 12
    then ext_channel_data (parse_ext_channel data_bytes)
    else raw_data data_bytes

read_notification : Reader AlarmNotification
read_notification = do
  alarm_type ← u16
  api ← u32
  slot ← u16
  subslot ← u16
  module_ident ← u32
  submodule_ident ← u32
  specifier ← u16
  usi ← u16
  n ← remaining
  data_bytes ← bytes n
  pure (record {
    alarm_type = type_from_u16 alarm_type;
    api = api;
    slot = slot;
    subslot = subslot;
    module_ident = module_ident;
    submodule_ident = submodule_ident;
    specifier = specifier_from_u16 specifier;
    usi = usi;
    user_data = user_data_of usi data_bytes;
  })

unfoldable pub parse_notification : Bytes → Result BlockError AlarmNotification
unfolding read_notification
parse_notification body = run read_notification body

read_ack : Reader AlarmAck
read_ack = do
  alarm_type ← u16
  api ← u32
  slot ← u16
  subslot ← u16
  specifier ← u16
  status ← u32
  pure (record {
    alarm_type = type_from_u16 alarm_type;
    api = api;
    slot = slot;
    subslot = subslot;
    specifier = specifier_from_u16 specifier;
    status = record { value = status };
  })

unfoldable pub parse_ack : Bytes → Result BlockError AlarmAck
unfolding read_ack
parse_ack body = run read_ack body
