-- ===== src/Alarm/Channel/Ops.antt =====
-- crates/pnio/src/alarm/channel.rs: the channel's operations. Each takes the channel and returns it
-- with the actions for the caller.
use pnio_rs.Prelude.{ℕ, ◌+◌, ◌*◌, ◌%◌, Bool, true, false, ◌&&◌, Option, none, some, ltb, ◌==◌}
use pnio_rs.Prelude.{if◌then◌else◌, List, [], ◌∷◌, ◌++◌, Bytes, length, bump, u16, Result, ok, err}
use pnio_rs.Eth.Header.{MacAddr, mac_eq, EthHeader, EthError}
use pnio_rs.Eth.Header
use pnio_rs.Cm.Status.{PnioStatus}
use pnio_rs.Cm.Abort.{controller_err_rta, alarm_send_failed}
use pnio_rs.Alarm.Fields.{type_eq}
use pnio_rs.Alarm.Pdu.{
  Priority, low, PduType, data_pdu, ack_pdu, err_pdu, RtaHeader, RtaData, notification, alarm_ack,
  unknown_block, RtaBody, data_body, ack_body, nack_body, err_body, RtaPdu, AlarmAck, data_len,
  seq_init,
}
use pnio_rs.Alarm.Rta.Parse.{parse_frame}
use pnio_rs.Alarm.Rta.Build.{build_frame}
use pnio_rs.Alarm.Channel.Types.{
  AlarmChannelConfig, AlarmReq, AlarmAction, send, abort, AlarmError, too_long, State, idle,
  sent_data, await_alarm_ack, AlarmChannel, notification_fixed_len, alarm_ack_timeout_factor,
}

abbrev pub data_pdu_of : AlarmChannelConfig → AlarmReq → ℕ → ℕ → RtaPdu
data_pdu_of cfg req seq ack_seq = record {
  priority = req.priority;
  header = record {
    dst_ref = cfg.remote_ref;
    src_ref = cfg.local_ref;
    pdu_type = data_pdu;
    tack = true;
    send_seq = seq;
    ack_seq = ack_seq;
  };
  body = data_body (notification req.notification);
}

unfoldable pub build_data_frame : AlarmChannelConfig → AlarmReq → ℕ → ℕ → Bytes
build_data_frame cfg req seq ack_seq =
    build_frame cfg.peer_mac cfg.our_mac (data_pdu_of cfg req seq ack_seq)

-- A PDU of this side with no DATA: the header's counters are the channel's.
abbrev pub reply_pdu : AlarmChannel → Priority → PduType → ℕ → RtaBody → RtaPdu
reply_pdu ch priority pdu_type ack_seq body = record {
  priority = priority;
  header = record {
    dst_ref = ch.cfg.remote_ref;
    src_ref = ch.cfg.local_ref;
    pdu_type = pdu_type;
    tack = false;
    send_seq = ch.last_sent_seq;
    ack_seq = ack_seq;
  };
  body = body;
}

unfoldable pub build_ack_rta : AlarmChannel → Priority → ℕ → Bytes
build_ack_rta ch priority received_seq =
    build_frame ch.cfg.peer_mac ch.cfg.our_mac (reply_pdu ch priority ack_pdu received_seq ack_body)

unfoldable pub err_rta : AlarmChannel → PnioStatus → Bytes
err_rta ch status =
    build_frame ch.cfg.peer_mac ch.cfg.our_mac
      (reply_pdu ch low err_pdu ch.last_rx_seq (err_body status))

unfoldable pub next_deadline : AlarmChannel → Option ℕ
next_deadline ch = elim ch.state [
  | idle ↦ none
  | sent_data req seq frame deadline ↦ some deadline
  | await_alarm_ack req deadline ↦ some deadline
]

unfoldable pub in_flight : AlarmChannel → Option ℕ
in_flight ch = elim ch.state [
  | idle ↦ none
  | sent_data req seq frame deadline ↦ some req.id
  | await_alarm_ack req deadline ↦ some req.id
]

unfoldable pub queued : AlarmChannel → ℕ
queued ch = length ch.queue

-- `& 0x07FF` and `& 0x7FFF` are remainders.
unfoldable pub next_specifier_sequence : AlarmChannel → AlarmChannel × ℕ
next_specifier_sequence ch =
    (record ch { specifier_seq = (ch.specifier_seq + 1) % 2048 }, ch.specifier_seq)

abbrev pub seq_after : ℕ → ℕ
seq_after seq = if seq == seq_init then 0 else (seq + 1) % 32768

-- Sending the request at the front of the queue.
abbrev send_first : AlarmChannel → AlarmReq → List AlarmReq → ℕ → AlarmChannel × List AlarmAction
send_first ch req rest now =
    let seq = ch.next_send_seq in
    let frame = build_data_frame ch.cfg req seq ch.last_rx_seq in
    let stats = ch.stats in
    (
      record ch {
        state = sent_data req seq frame (now + ch.cfg.rta_timeout);
        queue = rest;
        next_send_seq = seq_after seq;
        last_sent_seq = seq;
        attempt = 0;
        stats = record stats { sent = bump stats.sent };
      },
      send frame ∷ [],
    )

unfoldable pub send_next : AlarmChannel → ℕ → AlarmChannel × List AlarmAction
send_next ch now = elim ch.state [
  | idle ↦ elim ch.queue [ [] ↦ (ch, []) | req ∷ rest ↦ send_first ch req rest now ]
  | _ ↦ (ch, [])
]

unfoldable pub enqueue :
    AlarmChannel → AlarmReq → ℕ → Result AlarmError (AlarmChannel × List AlarmAction)
enqueue ch req now =
    let len = notification_fixed_len + data_len req.notification.user_data in
    if ltb ch.cfg.max_alarm_data_length len
    then err (too_long len ch.cfg.max_alarm_data_length)
    else ok (send_next (record ch { queue = ch.queue ++ (req ∷ []) }) now)

abbrev count_unexpected : AlarmChannel → AlarmChannel
count_unexpected ch =
    let stats = ch.stats in
    record ch { stats = record stats { unexpected_rx = bump stats.unexpected_rx } }

unfoldable pub on_transport_ack : AlarmChannel → ℕ → ℕ → AlarmChannel × List AlarmAction
on_transport_ack ch ack_seq now = elim ch.state [
  | sent_data req seq frame deadline ↦
      if ack_seq == seq
      then (
        record ch {
          state = await_alarm_ack req (now + ch.cfg.rta_timeout * alarm_ack_timeout_factor);
        },
        [],
      )
      else (count_unexpected ch, [])
  | _ ↦ (count_unexpected ch, [])
]

abbrev pub answers : AlarmReq → AlarmAck → Bool
answers req a =
    type_eq req.notification.alarm_type a.alarm_type
    && (req.notification.slot == a.slot && req.notification.subslot == a.subslot)

-- The alarm in flight was acknowledged with `status`: the next one is sent.
abbrev pub finish : AlarmChannel → AlarmReq → PnioStatus → ℕ → AlarmChannel × List AlarmAction
finish ch req status now =
    let stats = ch.stats in
    let (ch', out) =
      send_next (record ch { state = idle; stats = record stats { acked = bump stats.acked } })
        now in
    (ch', AlarmAction.acked req.id status ∷ out)

abbrev pub stray : AlarmChannel → AlarmChannel × List AlarmAction
stray ch = (count_unexpected ch, AlarmAction.unexpected_rx ∷ [])

-- The content-level acknowledgement, by the state. It may overtake the transport acknowledgement.
abbrev pub settle : State → AlarmChannel → AlarmAck → ℕ → AlarmChannel × List AlarmAction
settle idle ch a now = stray ch
settle (sent_data req seq frame deadline) ch a now =
    if answers req a then finish ch req a.status now else stray ch
settle (await_alarm_ack req deadline) ch a now =
    if answers req a then finish ch req a.status now else stray ch

abbrev pub on_content : AlarmChannel → RtaData → ℕ → AlarmChannel × List AlarmAction
on_content ch (alarm_ack a) now = settle ch.state ch a now
on_content ch (notification n) now = stray ch
on_content ch (unknown_block t body) now = stray ch

unfoldable pub on_data :
    AlarmChannel → RtaHeader → Priority → RtaData → ℕ → AlarmChannel × List AlarmAction
on_data ch header priority content now =
    let ack = send (build_ack_rta ch priority header.send_seq) in
    if header.send_seq == ch.last_rx_seq
    then (ch, ack ∷ [])
    else let (ch', out) = on_content (record ch { last_rx_seq = header.send_seq }) content now in
      (ch', ack ∷ out)

unfoldable pub on_err_rta : AlarmChannel → PnioStatus → AlarmChannel × List AlarmAction
on_err_rta ch status =
    let stats = ch.stats in
    (
      record ch {
        state = idle;
        queue = [];
        stats = record stats { rx_err_rta = bump stats.rx_err_rta };
      },
      abort (controller_err_rta status) ∷ [],
    )

abbrev pub dispatch : AlarmChannel → RtaPdu → RtaBody → ℕ → AlarmChannel × List AlarmAction
dispatch ch pdu ack_body now = on_transport_ack ch pdu.header.ack_seq now
dispatch ch pdu (data_body content) now = on_data ch pdu.header pdu.priority content now
dispatch ch pdu (err_body status) now = on_err_rta ch status
dispatch ch pdu nack_body now = stray ch

abbrev pub from_peer :
    AlarmChannel → RtaPdu → Result EthError (EthHeader × ℕ) → ℕ → AlarmChannel × List AlarmAction
from_peer ch pdu (ok (h, off)) now =
    if mac_eq h.src ch.cfg.peer_mac then dispatch ch pdu pdu.body now else stray ch
from_peer ch pdu (err e) now = stray ch

unfoldable pub on_frame : AlarmChannel → Bytes → ℕ → AlarmChannel × List AlarmAction
on_frame ch frame now = elim (parse_frame frame) [
  | ok pdu ↦ from_peer ch pdu (Header.parse frame) now
  | err e ↦ stray ch
]

-- The state is `sent_data req seq frame _` here.
unfoldable pub retry_or_abort :
    AlarmChannel → AlarmReq → ℕ → Bytes → ℕ → AlarmChannel × List AlarmAction
retry_or_abort ch req seq frame now =
    let stats = ch.stats in
    if ltb ch.attempt ch.cfg.rta_retries
    then (
      record ch {
        state = sent_data req seq frame (now + ch.cfg.rta_timeout);
        attempt = u16 (ch.attempt + 1);
        stats = record stats { retries = bump stats.retries };
      },
      send frame ∷ [],
    )
    else (
      record ch {
        state = idle;
        queue = [];
        stats = record stats { send_failures = bump stats.send_failures };
      },
      abort alarm_send_failed ∷ [],
    )

-- The state is `await_alarm_ack _ _` here. The code logs the dropped alarm.
unfoldable pub drop_unacknowledged : AlarmChannel → ℕ → AlarmChannel × List AlarmAction
drop_unacknowledged ch now =
    let stats = ch.stats in
    send_next
      (record ch { state = idle; stats = record stats { ack_timeouts = bump stats.ack_timeouts } })
      now

unfoldable pub on_tick : AlarmChannel → ℕ → AlarmChannel × List AlarmAction
on_tick ch now = elim ch.state [
  | idle ↦ (ch, [])
  | sent_data req seq frame deadline ↦
      if ltb now deadline then (ch, []) else retry_or_abort ch req seq frame now
  | await_alarm_ack req deadline ↦ if ltb now deadline then (ch, []) else drop_unacknowledged ch now
]
