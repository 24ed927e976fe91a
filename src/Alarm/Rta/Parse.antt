-- ===== src/Alarm/Rta/Parse.antt =====
-- crates/pnio/src/alarm/rta.rs: `parse_frame` and the parsers below it.
use pnio_rs.Prelude.{ℕ, ◌+◌, ◌-◌, ◌/◌, ◌%◌, Bool, false, ◌&&◌, ◌||◌, not, length, ltb, leb, ◌==◌}
use pnio_rs.Prelude.{if◌then◌else◌, Bytes, byte_at, u16_at, u32_at, slice, drop, test_bit}
use pnio_rs.Prelude.{Result, ok, err, ◌>>=◌, ◌>>◌, fail_if, map_err}
use pnio_rs.Eth.Header.{EthHeader, EthError, ethertype_profinet}
use pnio_rs.Eth.Header
use pnio_rs.Cm.Block.{BlockHeader}
use pnio_rs.Cm.Block
use pnio_rs.Alarm.Rta.Content.{parse_notification, parse_ack}
use pnio_rs.Alarm.Pdu.{
  Priority, high, low, PduType, data_pdu, nack_pdu, ack_pdu, err_pdu, RtaHeader, RtaData,
  notification, alarm_ack, unknown_block, RtaBody, data_body, ack_body, nack_body, err_body, RtaPdu,
  RtaError, eth_error, not_alarm, too_short, bad_pdu_type, bad_version, block_error,
  bad_var_part_len, frame_id_high, frame_id_low,
}

abbrev pub rta_header_len : ℕ
rta_header_len = 12

abbrev pdu_type_of : ℕ → Result RtaError PduType
pdu_type_of n =
    if n == 1
    then ok data_pdu
    else if n == 2
    then ok nack_pdu
    else if n == 3
    then ok ack_pdu
    else if n == 4
    then ok err_pdu
    else err (bad_pdu_type n)

-- `RtaHeader::parse`: the header and the length of what follows it.
unfoldable pub parse_header : Bytes → Result RtaError (RtaHeader × ℕ)
parse_header buf = do
  fail_if (ltb (length buf) rta_header_len) too_short
  let version = byte_at buf 4 / 16
  fail_if (not (version == 1)) (bad_version version)
  pdu_type ← pdu_type_of (byte_at buf 4 % 16)
  ok (
    record {
      dst_ref = u16_at buf 0;
      src_ref = u16_at buf 2;
      pdu_type = pdu_type;
      tack = test_bit (byte_at buf 5) 4;
      send_seq = u16_at buf 6;
      ack_seq = u16_at buf 8;
    },
    u16_at buf 10,
  )

unfoldable pub parse_rta_data : ℕ → Bytes → Result RtaError RtaData
parse_rta_data block_type body =
    if block_type == 0x0001 || block_type == 0x0002
    then (map_err block_error (parse_notification body) >>= λ n. ok (notification n))
    else if block_type == 0x8001 || block_type == 0x8002
    then (map_err block_error (parse_ack body) >>= λ a. ok (alarm_ack a))
    else ok (unknown_block block_type body)

abbrev priority_of : ℕ → Result RtaError Priority
priority_of id =
    if id == frame_id_high then ok high else if id == frame_id_low then ok low else err not_alarm

unfoldable pub parse_body : PduType → Bytes → Result RtaError RtaBody
unfolding parse_rta_data
parse_body ack_pdu var_part = ok ack_body
parse_body nack_pdu var_part = ok nack_body
parse_body err_pdu var_part = do
  fail_if (ltb (length var_part) 4) too_short
  ok (err_body (record { value = u32_at var_part 0 }))
parse_body data_pdu var_part = do
  (bh, body_bytes) ← map_err block_error (Block.parse var_part)
  rta_data ← parse_rta_data bh.block_type body_bytes
  ok (data_body rta_data)

unfoldable pub parse_frame : Bytes → Result RtaError RtaPdu
parse_frame frame = do
  (eth, off) ← map_err eth_error (Header.parse frame)
  fail_if (not (eth.ethertype == ethertype_profinet)) not_alarm
  fail_if (ltb (length frame) (off + 2)) too_short
  priority ← priority_of (u16_at frame off)
  let rta_off = off + 2
  (header, var_part_len) ← parse_header (drop rta_off frame)
  let var_off = rta_off + rta_header_len
  let available = length frame - var_off
  fail_if (ltb available var_part_len) (bad_var_part_len var_part_len available)
  body ← parse_body header.pdu_type (slice frame var_off (var_off + var_part_len))
  ok (record { priority = priority; header = header; body = body })

abbrev alarm_id : ℕ → Bool
alarm_id id = id == frame_id_high || id == frame_id_low

abbrev is_alarm : Bytes → Result EthError (EthHeader × ℕ) → Bool
is_alarm frame (ok (eth, off)) =
    eth.ethertype == ethertype_profinet
    && (leb (off + 2) (length frame) && alarm_id (u16_at frame off))
is_alarm frame (err e) = false

unfoldable pub is_alarm_frame : Bytes → Bool
is_alarm_frame frame = is_alarm frame (Header.parse frame)
