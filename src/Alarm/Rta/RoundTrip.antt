-- ===== src/Alarm/Rta/RoundTrip.antt =====
-- Reading back a whole alarm frame.
use pnio_rs.Prelude.{ℕ, ◌+◌, ◌<◌, ◌≡◌, ◌≢◌, arith, refl, length, Bytes, ok}
use pnio_rs.Prelude.{IsU16, IsU32, be16, be32_lem, ◌++◌}
use pnio_rs.Prelude.{append-nil, u16, true, [], some, take-length-append, length-append}
use pnio_rs.Eth.Header.{MacAddr, ethertype_profinet}
use pnio_rs.Eth.Header
use pnio_rs.Eth.RoundTrip.{parse-write_tagged}
use pnio_rs.Cm.Block
use pnio_rs.Cm.Block.Laws.{block_parse-write, header_of}
use pnio_rs.Alarm.Pdu.{
  Priority, high, low, RtaHeader, RtaData, notification, alarm_ack, unknown_block, RtaBody,
  data_body, ack_body, nack_body, err_body, RtaPdu, PduType, data_pdu, nack_pdu, ack_pdu, err_pdu,
  tci, frame_id, AlarmNotification, AlarmAck, data_len,
}
use pnio_rs.Alarm.Rta.Parse.{parse_rta_data, parse_body, parse_frame, is_alarm_frame}
use pnio_rs.Alarm.Rta.Build.{
  write_header, notification_body, ack_bytes, write_block, write_rta_data, write_body, build_frame,
  notification_block_type, ack_block_type,
}
use pnio_rs.Alarm.Rta.Blocks.{
  IsRtaHeader, IsNotification, IsAck, parse_header-write_header, parse_notification_lem,
  parse_ack_lem,
}

-- A block that is not one of the alarm blocks, and what fits the lengths of a block and a frame.
abbrev pub IsRtaData : RtaData → Type 0
IsRtaData (notification n) = IsNotification n × (data_len n.user_data + 28 < 65536)
IsRtaData (alarm_ack a) = IsAck a
IsRtaData (unknown_block t body) =
    IsU16 t × (t ≢ 0x0001) × (t ≢ 0x0002) × (t ≢ 0x8001) × (t ≢ 0x8002) × (length body + 6 < 65536)

abbrev pub IsBody : PduType → RtaBody → Type 0
IsBody data_pdu (data_body d) = IsRtaData d
IsBody ack_pdu ack_body = Unit
IsBody nack_pdu nack_body = Unit
IsBody err_pdu (err_body status) = IsU32 status.value
IsBody _ _ = ⊥

pub record IsPdu (pdu : RtaPdu) : Type 0 where
  pub header_fits : IsRtaHeader pdu.header
  pub body_fits : IsBody pdu.header.pdu_type pdu.body

pub length-notification :
    (n : AlarmNotification) → length (notification_body n) ≡ data_len n.user_data + 22
unfolding notification_body
length-notification n = ground arith

length-ack : (a : AlarmAck) → length (ack_bytes a) ≡ 16
unfolding ack_bytes
length-ack a = refl

pub parse-write_block :
    (t : ℕ) (body : Bytes)
    → IsU16 t
    → length body + 6 < 65536
    → Block.parse (write_block t body) ≡ ok (header_of t (length body), body)
parse-write_block t body ht hl =
    let small : u16 (length body) ≡ length body = omega arith in
    rw small (rw append-nil at (block_parse-write t body [] ht (omega arith)))

-- A block whose body is read back as `d` is read back in a DATA frame.
data_of_block :
    (t : ℕ) (body : Bytes) (d : RtaData)
    → IsU16 t
    → length body + 6 < 65536
    → parse_rta_data t body ≡ ok d
    → parse_body data_pdu (write_block t body) ≡ ok (data_body d)
unfolding parse_body
data_of_block t body d ht hl e = ground (arith, parse-write_block t body ht hl)

notification_read :
    (n : AlarmNotification) (p : Priority)
    → IsNotification n
    → parse_rta_data (notification_block_type p) (notification_body n) ≡ ok (notification n)
unfolding parse_rta_data
notification_read n high h = rw (parse_notification_lem n h)
notification_read n low h = rw (parse_notification_lem n h)

ack_read :
    (a : AlarmAck) (p : Priority)
    → IsAck a
    → parse_rta_data (ack_block_type p) (ack_bytes a) ≡ ok (alarm_ack a)
unfolding parse_rta_data
ack_read a high h = rw (parse_ack_lem a h)
ack_read a low h = rw (parse_ack_lem a h)

unknown_read :
    (t : ℕ) (body : Bytes)
    → IsRtaData (unknown_block t body)
    → parse_rta_data t body ≡ ok (unknown_block t body)
unfolding parse_rta_data
unknown_read t body h = ground arith

type_fits : (p : Priority) → IsU16 (notification_block_type p) × IsU16 (ack_block_type p)
type_fits high = omega arith
type_fits low = omega arith

-- The block of a DATA frame is read back, whatever the priority.
parse_data :
    (d : RtaData) (p : Priority)
    → IsRtaData d
    → parse_body data_pdu (write_rta_data d p) ≡ ok (data_body d)
unfolding write_rta_data
parse_data (notification n) p h =
    data_of_block (notification_block_type p) (notification_body n) (notification n) (type_fits p).0
      (omega (arith, length-notification n)) (notification_read n p h.0)
parse_data (alarm_ack a) p h =
    data_of_block (ack_block_type p) (ack_bytes a) (alarm_ack a) (type_fits p).1
      (omega (arith, length-ack a)) (ack_read a p h)
parse_data (unknown_block t body) p h =
    data_of_block t body (unknown_block t body) h.0 (omega arith) (unknown_read t body h)

pub parse_body-write_body :
    (pt : PduType) (b : RtaBody) (p : Priority)
    → IsBody pt b
    → parse_body pt (write_body b p) ≡ ok b
unfolding write_body
parse_body-write_body data_pdu (data_body d) p h = parse_data d p h
parse_body-write_body ack_pdu ack_body p h = unfold parse_body in refl
parse_body-write_body nack_pdu nack_body p h = unfold parse_body in refl
parse_body-write_body err_pdu (err_body status) p h =
    unfold parse_body in ground (arith, be32_lem status.value h)
parse_body-write_body _ _ p h = elim h [ ]

length-write_header : (h : RtaHeader) (n : ℕ) → length (write_header h n) ≡ 12
unfolding write_header
length-write_header h n = refl

length-body :
    (pt : PduType) (b : RtaBody) (p : Priority) → IsBody pt b → length (write_body b p) < 65536
unfolding write_body write_rta_data Block.write
length-body data_pdu (data_body (notification n)) p h = omega (arith, length-notification n)
length-body data_pdu (data_body (alarm_ack a)) p h = omega (arith, length-ack a)
length-body data_pdu (data_body (unknown_block t body)) p h = omega arith
length-body ack_pdu ack_body p h = omega arith
length-body nack_pdu nack_body p h = omega arith
length-body err_pdu (err_body status) p h = omega arith
length-body _ _ p h = elim h [ ]

-- The frame of a header and a payload, with padding behind it, is read back.
frame_at :
    (dst src : MacAddr) (p : Priority) (h : RtaHeader) (b : RtaBody) (var pad : Bytes)
    → IsRtaHeader h
    → length var < 65536
    → parse_body h.pdu_type var ≡ ok b
    → parse_frame (
        Header.write
          (record { dst = dst; src = src; vlan = some (tci p); ethertype = ethertype_profinet })
        ++ (be16 (frame_id p) ++ (write_header h (u16 (length var)) ++ (var ++ pad))))
      ≡ ok (record { priority = p; header = h; body = b })
unfolding parse_frame Header.write write_header
frame_at dst src high h b var pad fits hl e =
    let small : u16 (length var) ≡ length var = omega arith in
    rw small (
      rw (parse-write_tagged dst src (tci high) ethertype_profinet _ (omega arith) (omega arith)) (
        ground (
          arith,
          e,
          parse_header-write_header h (length var) (var ++ pad) fits hl,
          take-length-append var pad,
          length-append var pad,
        )))
frame_at dst src low h b var pad fits hl e =
    let small : u16 (length var) ≡ length var = omega arith in
    rw small (
      rw (parse-write_tagged dst src (tci low) ethertype_profinet _ (omega arith) (omega arith)) (
        ground (
          arith,
          e,
          parse_header-write_header h (length var) (var ++ pad) fits hl,
          take-length-append var pad,
          length-append var pad,
        )))

-- A built alarm frame is read back as the PDU that it was built from: on both channels, for all
-- four PDU types, and with any padding behind it, as a network card adds to a short frame. The
-- PDU's fields fit their words, its type is that of its body, and its block fits its lengths.
pub parse_frame-build_frame :
    (dst src : MacAddr) (pdu : RtaPdu) (pad : Bytes)
    → IsPdu pdu
    → parse_frame (build_frame dst src pdu ++ pad) ≡ ok pdu
unfolding build_frame Header.write write_header
parse_frame-build_frame dst src pdu pad h =
    frame_at dst src pdu.priority pdu.header pdu.body (write_body pdu.body pdu.priority) pad
      h.header_fits (length-body pdu.header.pdu_type pdu.body pdu.priority h.body_fits)
      (parse_body-write_body pdu.header.pdu_type pdu.body pdu.priority h.body_fits)

-- The frames that `parse_frame` reads are among those that `is_alarm_frame` sends to the channel.
pub parse_frame-is_alarm_frame :
    (frame : Bytes) (pdu : RtaPdu) → parse_frame frame ≡ ok pdu → is_alarm_frame frame ≡ true
unfolding parse_frame is_alarm_frame
parse_frame-is_alarm_frame frame pdu e = ground arith
