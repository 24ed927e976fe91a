-- ===== src/Alarm/Channel/Wire.antt =====
-- What the channel puts on the wire: the frames that it builds are read back by `parse_frame`, and
-- each new alarm has a number of its own.
use pnio_rs.Prelude.{
  ℕ, ◌%◌, true, ◌==◌, if◌then◌else◌, ◌≡◌, ◌≢◌, arith, List, [], ◌∷◌, ◌++◌, Bytes, ok, ◌+◌, ◌<◌,
  IsU16, IsU32,
}
use pnio_rs.Cm.Status.{PnioStatus}
use pnio_rs.Alarm.Pdu.{
  Priority, low, data_pdu, data_body, notification, ack_pdu, ack_body, err_pdu, err_body, data_len,
}
use pnio_rs.Alarm.Channel.Types.{AlarmReq, send, AlarmChannel, idle, sent_data}
use pnio_rs.Alarm.Channel.Ops.{
  send_next, seq_after, data_pdu_of, build_data_frame, build_ack_rta, reply_pdu, err_rta,
}
use pnio_rs.Alarm.Channel.Invariant.{IsReady, Follows}
use pnio_rs.Alarm.Rta.Blocks.{IsNotification}
use pnio_rs.Alarm.Rta.Parse.{parse_frame}
use pnio_rs.Alarm.Rta.RoundTrip.{parse_frame-build_frame}

-- The numbers of a channel fit their words.
pub record FitsWords (ch : AlarmChannel) : Type 0 where
  pub local_fits : IsU16 ch.cfg.local_ref
  pub remote_fits : IsU16 ch.cfg.remote_ref
  pub sent_fits : IsU16 ch.last_sent_seq
  pub next_fits : IsU16 ch.next_send_seq
  pub rx_fits : IsU16 ch.last_rx_seq

-- A request that can be written.
pub record IsReq (req : AlarmReq) : Type 0 where
  pub notification_fits : IsNotification req.notification
  pub length_fits : data_len req.notification.user_data + 28 < 65536

data_frame_read :
    (ch : AlarmChannel) (req : AlarmReq) (pad : Bytes)
    → FitsWords ch
    → IsReq req
    → parse_frame (build_data_frame ch.cfg req ch.next_send_seq ch.last_rx_seq ++ pad)
      ≡ ok (data_pdu_of ch.cfg req ch.next_send_seq ch.last_rx_seq)
unfolding build_data_frame
data_frame_read ch req pad w r =
    parse_frame-build_frame ch.cfg.peer_mac ch.cfg.our_mac
      (data_pdu_of ch.cfg req ch.next_send_seq ch.last_rx_seq) pad
      (record { header_fits = omega arith; body_fits = (r.notification_fits, r.length_fits) })

-- The number of the DATA behind one with the number `last`: 0xFFFE, for none, is followed by 0xFFFF,
-- that by 0, and from there the numbers count up modulo 2^15.
abbrev pub number_behind : ℕ → ℕ
number_behind last =
    if last == 0xFFFE then 0xFFFF else if last == 0xFFFF then 0 else (last + 1) % 32768

follows_lem :
    (last next : ℕ)
    → Follows last next
    → (next ≡ number_behind last) × (next ≢ last) × (number_behind next ≡ seq_after next)
follows_lem last next h = (ground arith, ground arith, ground arith)

-- From an idle channel with a request at the front of its queue, `send_next` sends one frame. The
-- other side reads in it a DATA that asks for a transport acknowledgement, at the request's
-- priority, between the endpoints of the configuration, with the number that follows the one sent
-- last (and so is another one), the number received last, and the request's notification. The
-- channel takes that number as its last one, the next number follows it in turn, and the request is
-- in flight with that number, the frame, and the deadline of a resend.
pub send_next_frame :
    (ch : AlarmChannel) (req : AlarmReq) (rest : List AlarmReq) (now : ℕ) (pad : Bytes)
    → ch.state ≡ idle
    → ch.queue ≡ req ∷ rest
    → IsReady ch
    → FitsWords ch
    → IsReq req
    → (frame : Bytes) × ((send_next ch now).1 ≡ send frame ∷ [])
      × (parse_frame (frame ++ pad)
          ≡ ok (record {
            priority = req.priority;
            header = record {
              dst_ref = ch.cfg.remote_ref;
              src_ref = ch.cfg.local_ref;
              pdu_type = data_pdu;
              tack = true;
              send_seq = number_behind ch.last_sent_seq;
              ack_seq = ch.last_rx_seq;
            };
            body = data_body (notification req.notification);
          }))
      × (number_behind ch.last_sent_seq ≢ ch.last_sent_seq)
      × ((send_next ch now).0.last_sent_seq ≡ number_behind ch.last_sent_seq)
      × ((send_next ch now).0.next_send_seq ≡ number_behind (number_behind ch.last_sent_seq))
      × ((send_next ch now).0.state
          ≡ sent_data req (number_behind ch.last_sent_seq) frame (now + ch.cfg.rta_timeout))
unfolding send_next
send_next_frame ch req rest now pad i q h w r =
    let (same, differs, again) = follows_lem ch.last_sent_seq ch.next_send_seq h.follows in
    rw (← same) (
      build_data_frame ch.cfg req ch.next_send_seq ch.last_rx_seq,
      ground arith,
      data_frame_read ch req pad w r,
      differs,
      ground arith,
      ground (arith, again),
      ground arith,
    )

-- The acknowledgement of a DATA, and the ERR-RTA that ends a relationship, are read back with the
-- channel's counters in their headers.
pub replies_read :
    (ch : AlarmChannel) (p : Priority) (seq : ℕ) (status : PnioStatus) (pad : Bytes)
    → FitsWords ch
    → IsU16 seq
    → IsU32 status.value
    → (parse_frame (build_ack_rta ch p seq ++ pad) ≡ ok (reply_pdu ch p ack_pdu seq ack_body))
      × (parse_frame (err_rta ch status ++ pad)
          ≡ ok (reply_pdu ch low err_pdu ch.last_rx_seq (err_body status)))
unfolding build_ack_rta err_rta
replies_read ch p seq status pad w hs hv = (
  parse_frame-build_frame ch.cfg.peer_mac ch.cfg.our_mac (reply_pdu ch p ack_pdu seq ack_body) pad
      (record { header_fits = omega arith; body_fits = tt }),
  parse_frame-build_frame ch.cfg.peer_mac ch.cfg.our_mac
      (reply_pdu ch low err_pdu ch.last_rx_seq (err_body status)) pad
      (record { header_fits = omega arith; body_fits = hv }),
)
