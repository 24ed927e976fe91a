-- ===== src/Alarm/Channel/Cases.antt =====
-- What a received frame leads to: it is counted as unexpected, or it is dispatched.
use pnio_rs.Prelude.{ℕ, ◌≡◌, refl, true, false, Bytes, List, Result, ok, err, Bool, if◌then◌else◌}
use pnio_rs.Eth.Header.{EthHeader, EthError, mac_eq}
use pnio_rs.Eth.Header
use pnio_rs.Alarm.Pdu.{RtaPdu, RtaError}
use pnio_rs.Alarm.Channel.Types.{AlarmAction, AlarmChannel}
use pnio_rs.Alarm.Channel.Ops.{on_frame, dispatch, from_peer, stray}
use pnio_rs.Alarm.Rta.Parse.{parse_frame}

-- The frame parses as `pdu`, and its source is the controller.
pub record FromPeer (ch : AlarmChannel) (frame : Bytes) (pdu : RtaPdu) : Type 0 where
  pub eth : EthHeader
  pub off : ℕ
  pub parsed : parse_frame frame ≡ ok pdu
  pub header : Header.parse frame ≡ ok (eth, off)
  pub source : mac_eq eth.src ch.cfg.peer_mac ≡ true

module _ {ℓ} (P : AlarmChannel × List AlarmAction → Type ℓ) (ch : AlarmChannel) (frame : Bytes)
    (now : ℕ) (strays : P (stray ch))
    (dispatches : (pdu : RtaPdu) → FromPeer ch frame pdu → P (dispatch ch pdu pdu.body now)) where
  source_cases :
      (pdu : RtaPdu) (eth : EthHeader) (off : ℕ)
      → parse_frame frame ≡ ok pdu
      → Header.parse frame ≡ ok (eth, off)
      → (b : Bool) → mac_eq eth.src ch.cfg.peer_mac ≡ b
      → P (if b then dispatch ch pdu pdu.body now else stray ch)
  source_cases pdu eth off p q true s =
      dispatches pdu (record { eth = eth; off = off; parsed = p; header = q; source = s })
  source_cases pdu eth off p q false s = strays

  header_cases :
      (pdu : RtaPdu)
      → parse_frame frame ≡ ok pdu
      → (r : Result EthError (EthHeader × ℕ)) → Header.parse frame ≡ r
      → P (from_peer ch pdu r now)
  header_cases pdu p (ok (eth, off)) q =
      source_cases pdu eth off p q (mac_eq eth.src ch.cfg.peer_mac) refl
  header_cases pdu p (err e) q = strays

  frame_cases :
      (r : Result RtaError RtaPdu)
      → parse_frame frame ≡ r
      → P (elim r [ ok pdu ↦ from_peer ch pdu (Header.parse frame) now | err e ↦ stray ch ])
  frame_cases (ok pdu) p = header_cases pdu p (Header.parse frame) refl
  frame_cases (err e) p = strays

  pub on_frame_cases : P (on_frame ch frame now)
  unfolding on_frame
  on_frame_cases = frame_cases (parse_frame frame) refl
