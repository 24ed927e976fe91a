-- ===== src/Examples/Channel.antt =====
-- The alarm channel of the small device.
use pnio_rs.Prelude.{
  ◌+◌, ◌≤◌, ◌≡◌, ◌≢◌, refl, arith, some, List, [], ◌∷◌, ◌++◌, replicate, true, false, ok, Bytes,
}
use pnio_rs.Eth.Header.{mac_eq, EthHeader}
use pnio_rs.Eth.Header
use pnio_rs.Cm.Block
use pnio_rs.Cm.Abort.{alarm_send_failed}
use pnio_rs.Alarm.Pdu.{data_len, RtaPdu, data_pdu, data_body, notification, low}
use pnio_rs.Alarm.Rta.Build.{
  build_frame, write_header, write_body, write_rta_data, notification_body,
}
use pnio_rs.Alarm.Rta.Parse.{parse_frame}
use pnio_rs.Alarm.Rta.RoundTrip.{IsPdu, parse_frame-build_frame}
use pnio_rs.Alarm.Channel.Types.{AlarmChannel, State, idle, sent_data, send, abort, AlarmAction}
use pnio_rs.Alarm.Channel.Types
use pnio_rs.Alarm.Channel.Ops.{
  enqueue, send_next, on_tick, on_frame, build_data_frame, build_ack_rta,
}
use pnio_rs.Alarm.Channel.Invariant.{
  IsChannel, IsReady, on_tick-IsChannel, enqueue-IsChannel, on_frame-IsChannel, new-IsChannel,
}
use pnio_rs.Alarm.Channel.View.{pending, verdicts, Received, Ticked, Launched}
use pnio_rs.Alarm.Channel.Fifo.{enqueue-pending, on_frame-Received, on_tick-Ticked}
use pnio_rs.Alarm.Channel.Retry.{run_ticks, run_ticks_lem}
use pnio_rs.Alarm.Channel.Receive.{on_frame_twice}
use pnio_rs.Alarm.Channel.Wire.{number_behind, FitsWords, IsReq, send_next_frame}
use pnio_rs.Examples.Values.{config, alarm, device_mac, controller_mac, alarm_notification}

abbrev fresh_channel : AlarmChannel
fresh_channel = Types.new config

fresh-IsChannel : IsChannel fresh_channel
fresh-IsChannel = new-IsChannel config (omega arith)

-- The channel behind the first alarm.
abbrev busy : AlarmChannel
busy = (send_next (record fresh_channel { queue = alarm ∷ [] }) 0).0

abbrev busy_out : List AlarmAction
busy_out = (send_next (record fresh_channel { queue = alarm ∷ [] }) 0).1

accepts : enqueue fresh_channel alarm 0 ≡ ok (busy, busy_out)
unfolding enqueue Types.new
accepts = refl

enqueue-pending_example :
    (24 + data_len alarm.notification.user_data ≤ fresh_channel.cfg.max_alarm_data_length)
    × (pending busy ≡ pending fresh_channel ++ (alarm ∷ []))
    × (verdicts busy_out ≡ [])
    × Launched fresh_channel (fresh_channel.queue ++ (alarm ∷ [])) (busy, busy_out)
enqueue-pending_example = enqueue-pending fresh_channel busy alarm 0 busy_out accepts

busy-IsChannel : IsChannel busy
busy-IsChannel = enqueue-IsChannel fresh_channel busy alarm 0 busy_out fresh-IsChannel accepts

on_tick-IsChannel_example : IsChannel (on_tick busy 100000000).0
on_tick-IsChannel_example = on_tick-IsChannel busy 100000000 busy-IsChannel

on_tick-Ticked_example : Ticked busy 100000000 (on_tick busy 100000000)
on_tick-Ticked_example = on_tick-Ticked busy 100000000

abbrev peer_pdu : RtaPdu
peer_pdu = record {
  priority = low;
  header = record {
    dst_ref = 0;
    src_ref = 5;
    pdu_type = data_pdu;
    tack = true;
    send_seq = 0xFFFF;
    ack_seq = 0xFFFE;
  };
  body = data_body (notification alarm_notification);
}

abbrev peer_frame : Bytes
peer_frame = build_frame device_mac controller_mac peer_pdu ++ []

on_frame-IsChannel_example : IsChannel (on_frame busy peer_frame 7).0
on_frame-IsChannel_example = on_frame-IsChannel busy peer_frame 7 busy-IsChannel

on_frame-Received_example : Received busy peer_frame (on_frame busy peer_frame 7)
on_frame-Received_example = on_frame-Received busy peer_frame 7

peer-IsPdu : IsPdu peer_pdu
peer-IsPdu = ground arith

parse_frame-build_frame_example :
    parse_frame (build_frame device_mac controller_mac peer_pdu ++ (0 ∷ 0 ∷ [])) ≡ ok peer_pdu
parse_frame-build_frame_example =
    parse_frame-build_frame device_mac controller_mac peer_pdu (0 ∷ 0 ∷ []) peer-IsPdu

peer_parses : parse_frame peer_frame ≡ ok peer_pdu
peer_parses = parse_frame-build_frame device_mac controller_mac peer_pdu [] peer-IsPdu

abbrev peer_header : EthHeader
peer_header = record {
  dst = device_mac;
  src = controller_mac;
  vlan = some 0xA000;
  ethertype = 0x8892;
}

peer_header_parses : Header.parse peer_frame ≡ ok (peer_header, 18)
unfolding Header.parse build_frame Header.write write_header write_body write_rta_data Block.write
    notification_body
peer_header_parses = refl

known : mac_eq peer_header.src fresh_channel.cfg.peer_mac ≡ true
unfolding mac_eq Types.new
known = refl

on_frame_twice_example :
    let ch' = (on_frame fresh_channel peer_frame 5).0 in
    on_frame ch' peer_frame 9 ≡ (ch', send (build_ack_rta ch' low 0xFFFF) ∷ [])
on_frame_twice_example =
    on_frame_twice fresh_channel peer_frame 5 9 peer_pdu (notification alarm_notification)
      peer_header 18 peer_parses refl peer_header_parses known

-- A frame that the device itself sent.
abbrev own_frame : Bytes
own_frame = build_frame controller_mac device_mac peer_pdu ++ []

abbrev own_header : EthHeader
own_header = record peer_header { dst = controller_mac; src = device_mac }

own_header_parses : Header.parse own_frame ≡ ok (own_header, 18)
unfolding Header.parse build_frame Header.write write_header write_body write_rta_data Block.write
    notification_body
own_header_parses = refl

unknown : mac_eq own_header.src busy.cfg.peer_mac ≡ false
unfolding mac_eq send_next Types.new
unknown = refl

abbrev alarm_frame : Bytes
alarm_frame = build_data_frame config alarm 0xFFFF 0xFFFE

busy_state : busy.state ≡ sent_data alarm 0xFFFF alarm_frame 100000000
unfolding send_next Types.new
busy_state = refl

busy_attempts : busy.attempt + 3 ≡ busy.cfg.rta_retries
unfolding send_next Types.new
busy_attempts = refl

run_ticks_example :
    ((run_ticks 4 busy).1 ≡ replicate 3 (send alarm_frame) ++ (abort alarm_send_failed ∷ []))
    × ((run_ticks 4 busy).0.state ≡ idle)
    × ((run_ticks 4 busy).0.queue ≡ [])
run_ticks_example =
    run_ticks_lem 3 busy alarm 0xFFFF alarm_frame 100000000 busy_state busy_attempts
      (busy-IsChannel.retries_fit)

fresh-FitsWords : FitsWords fresh_channel
unfolding Types.new
fresh-FitsWords = ground arith

abbrev waiting_channel : AlarmChannel
waiting_channel = record fresh_channel { queue = alarm ∷ [] }

waiting-IsReady : IsReady waiting_channel
unfolding Types.new
waiting-IsReady = ground arith

waiting-FitsWords : FitsWords waiting_channel
unfolding Types.new
waiting-FitsWords = ground arith

waiting_idle : waiting_channel.state ≡ idle
unfolding Types.new
waiting_idle = refl

alarm-IsReq : IsReq alarm
alarm-IsReq = ground arith

send_next_frame_example :
    (frame : Bytes) × ((send_next waiting_channel 0).1 ≡ send frame ∷ [])
    × (parse_frame (frame ++ (0 ∷ []))
        ≡ ok (record {
          priority = alarm.priority;
          header = record {
            dst_ref = config.remote_ref;
            src_ref = config.local_ref;
            pdu_type = data_pdu;
            tack = true;
            send_seq = number_behind 0xFFFE;
            ack_seq = 0xFFFE;
          };
          body = data_body (notification alarm.notification);
        }))
    × (number_behind 0xFFFE ≢ 0xFFFE)
    × ((send_next waiting_channel 0).0.last_sent_seq ≡ number_behind 0xFFFE)
    × ((send_next waiting_channel 0).0.next_send_seq ≡ number_behind (number_behind 0xFFFE))
    × ((send_next waiting_channel 0).0.state
        ≡ sent_data alarm (number_behind 0xFFFE) frame (0 + config.rta_timeout))
unfolding Types.new
send_next_frame_example =
    send_next_frame waiting_channel alarm [] 0 (0 ∷ []) waiting_idle refl waiting-IsReady
      waiting-FitsWords alarm-IsReq
