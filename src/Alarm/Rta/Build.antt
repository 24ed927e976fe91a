-- ===== src/Alarm/Rta/Build.antt =====
-- crates/pnio/src/alarm/rta.rs: `build_frame` and the writers below it. A writer gives the bytes
-- that the code appends to its buffer.
use pnio_rs.Prelude.{ℕ, ◌+◌, length, Bytes, be16, be32, u16}
use pnio_rs.Prelude.{[], ◌∷◌, ◌++◌, some, if◌then◌else◌}
use pnio_rs.Eth.Header.{MacAddr, EthHeader, ethertype_profinet}
use pnio_rs.Eth.Header
use pnio_rs.Cm.Status.{to_u32}
use pnio_rs.Cm.Block
use pnio_rs.Alarm.Fields.{type_to_u16, specifier_to_u16, properties_to_u16}
use pnio_rs.Alarm.Pdu.{
  Priority, high, low, pdu_code, RtaHeader, ChannelDiagnosis, ExtChannelDiagnosis, UserData,
  channel_data, ext_channel_data, raw_data, AlarmNotification, AlarmAck, RtaData, notification,
  alarm_ack, unknown_block, RtaBody, data_body, ack_body, nack_body, err_body, RtaPdu, frame_id,
  tci,
}

-- `RtaHeader::write`: version 1 over the type, and a window size of 1 under the flag.
unfoldable pub write_header : RtaHeader → ℕ → Bytes
write_header h var_part_len =
    be16 h.dst_ref
    ++ (be16 h.src_ref
        ++ ((0x10 + pdu_code h.pdu_type)
            ∷ (0x01 + (if h.tack then 0x10 else 0))
            ∷ (be16 h.send_seq ++ (be16 h.ack_seq ++ be16 var_part_len))))

abbrev pub write_channel : ChannelDiagnosis → Bytes
write_channel d = be16 d.channel ++ (be16 (properties_to_u16 d.properties) ++ be16 d.error_type)

abbrev pub write_ext_channel : ExtChannelDiagnosis → Bytes
write_ext_channel d =
    be16 d.channel
    ++ (be16 (properties_to_u16 d.properties)
        ++ (be16 d.error_type ++ (be16 d.ext_error_type ++ be32 d.ext_add_value)))

abbrev pub write_user_data : UserData → Bytes
write_user_data (channel_data d) = write_channel d
write_user_data (ext_channel_data d) = write_ext_channel d
write_user_data (raw_data b) = b

abbrev pub notification_block_type : Priority → ℕ
notification_block_type high = 0x0001
notification_block_type low = 0x0002

abbrev pub ack_block_type : Priority → ℕ
ack_block_type high = 0x8001
ack_block_type low = 0x8002

unfoldable pub notification_body : AlarmNotification → Bytes
notification_body n =
    be16 (type_to_u16 n.alarm_type)
    ++ (be32 n.api
        ++ (be16 n.slot
            ++ (be16 n.subslot
                ++ (be32 n.module_ident
                    ++ (be32 n.submodule_ident
                        ++ (be16 (specifier_to_u16 n.specifier)
                            ++ (be16 n.usi ++ write_user_data n.user_data)))))))

unfoldable pub ack_bytes : AlarmAck → Bytes
ack_bytes a =
    be16 (type_to_u16 a.alarm_type)
    ++ (be32 a.api
        ++ (be16 a.slot
            ++ (be16 a.subslot ++ (be16 (specifier_to_u16 a.specifier) ++ be32 (to_u32 a.status)))))

-- A block's header, with the body's length cut to a `u16`, and its body.
abbrev pub write_block : ℕ → Bytes → Bytes
write_block block_type body = Block.write block_type (u16 (length body)) ++ body

-- `write_rta_data`, `write_notification` and `write_ack`
unfoldable pub write_rta_data : RtaData → Priority → Bytes
write_rta_data (notification n) priority =
    write_block (notification_block_type priority) (notification_body n)
write_rta_data (alarm_ack a) priority = write_block (ack_block_type priority) (ack_bytes a)
write_rta_data (unknown_block block_type body) priority = write_block block_type body

unfoldable pub write_body : RtaBody → Priority → Bytes
write_body ack_body priority = []
write_body nack_body priority = []
write_body (err_body status) priority = be32 (to_u32 status)
write_body (data_body rta_data) priority = write_rta_data rta_data priority

unfoldable pub build_frame : MacAddr → MacAddr → RtaPdu → Bytes
build_frame dst src pdu =
    let var_part : Bytes = write_body pdu.body pdu.priority in
    Header.write (record {
      dst = dst;
      src = src;
      vlan = some (tci pdu.priority);
      ethertype = ethertype_profinet;
    })
    ++ (be16 (frame_id pdu.priority)
        ++ (write_header pdu.header (u16 (length var_part)) ++ var_part))
