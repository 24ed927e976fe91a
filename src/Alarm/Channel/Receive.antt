-- ===== src/Alarm/Channel/Receive.antt =====
-- What the receiver does with frames that bring nothing new: duplicates, and frames of others.
use pnio_rs.Prelude.{ℕ, ◌≡◌, arith, [], ◌∷◌, Bytes, true, false, ok}
use pnio_rs.Prelude.{◌∙◌}
use pnio_rs.Eth.Header.{EthHeader, mac_eq, MacAddr}
use pnio_rs.Eth.Header
use pnio_rs.Alarm.Pdu.{RtaPdu, data_body, RtaData, RtaHeader, Priority}
use pnio_rs.Alarm.Channel.Types.{send, AlarmChannel}
use pnio_rs.Alarm.Channel.Ops.{on_frame, on_data, stray, build_ack_rta, send_next}
use pnio_rs.Alarm.Rta.Parse.{parse_frame}

-- A frame from another source than the controller is counted and changes nothing else.
pub on_frame_foreign :
    (ch : AlarmChannel) (frame : Bytes) (now : ℕ) (eth : EthHeader) (off : ℕ)
    → Header.parse frame ≡ ok (eth, off)
    → mac_eq eth.src ch.cfg.peer_mac ≡ false
    → on_frame ch frame now ≡ stray ch
unfolding on_frame
on_frame_foreign ch frame now eth off h k = ground arith

-- The channel remembers the number of the DATA that it has answered.
on_data_remembers :
    (ch : AlarmChannel) (h : RtaHeader) (p : Priority) (d : RtaData) (now : ℕ)
    → (on_data ch h p d now).0.last_rx_seq ≡ h.send_seq
unfolding on_data send_next
on_data_remembers ch h p d now = ground arith

on_data_cfg :
    (ch : AlarmChannel) (h : RtaHeader) (p : Priority) (d : RtaData) (now : ℕ)
    → (on_data ch h p d now).0.cfg ≡ ch.cfg
unfolding on_data send_next
on_data_cfg ch h p d now = ground arith

on_data_again :
    (ch : AlarmChannel) (h : RtaHeader) (p : Priority) (d : RtaData) (now : ℕ)
    → ch.last_rx_seq ≡ h.send_seq
    → on_data ch h p d now ≡ (ch, send (build_ack_rta ch p h.send_seq) ∷ [])
unfolding on_data
on_data_again ch h p d now e = ground arith

on_frame_data :
    (ch : AlarmChannel) (frame : Bytes) (now : ℕ) (pdu : RtaPdu) (d : RtaData) (eth : EthHeader)
    (off : ℕ)
    → parse_frame frame ≡ ok pdu
    → pdu.body ≡ data_body d
    → Header.parse frame ≡ ok (eth, off)
    → mac_eq eth.src ch.cfg.peer_mac ≡ true
    → on_frame ch frame now ≡ on_data ch pdu.header pdu.priority d now
unfolding on_frame
on_frame_data ch frame now pdu d eth off p b h s = ground arith

-- A DATA frame of the controller that arrives again, at any later time, is acknowledged again and
-- changes nothing: its content is not processed twice.
pub on_frame_twice :
    (ch : AlarmChannel) (frame : Bytes) (now later : ℕ) (pdu : RtaPdu) (d : RtaData)
    (eth : EthHeader) (off : ℕ)
    → parse_frame frame ≡ ok pdu
    → pdu.body ≡ data_body d
    → Header.parse frame ≡ ok (eth, off)
    → mac_eq eth.src ch.cfg.peer_mac ≡ true
    → let ch' = (on_frame ch frame now).0 in
      on_frame ch' frame later
      ≡ (ch', send (build_ack_rta ch' pdu.priority pdu.header.send_seq) ∷ [])
on_frame_twice ch frame now later pdu d eth off p b h s =
    let first : on_frame ch frame now ≡ on_data ch pdu.header pdu.priority d now =
      on_frame_data ch frame now pdu d eth off p b h s in
    rw first (
      on_frame_data (on_data ch pdu.header pdu.priority d now).0 frame later pdu d eth off p b h
        (rw (on_data_cfg ch pdu.header pdu.priority d now) s)
      ∙ on_data_again _ pdu.header pdu.priority d later
          (on_data_remembers ch pdu.header pdu.priority d now))
