-- ===== src/Rt/Frame.antt =====
-- crates/pnio/src/rt/frame.rs: the RTC1 cyclic frame.
pub mod RoundTrip
use pnio_rs.Prelude.{ℕ, ◌+◌, ◌-◌, ◌/◌, ◌%◌, ◌^◌, max, ◌≡◌, Bool, true, false, ◌&&◌, Option, none}
use pnio_rs.Prelude.{List, [], ◌∷◌, ◌++◌, length, ltb, ◌==◌, not, if◌then◌else◌, Bytes, replicate}
use pnio_rs.Prelude.{be16, byte_at, u16_at, slice, drop, test_bit, copy_all, ◌||◌}
use pnio_rs.Prelude.{Result, ok, err, ◌>>=◌, ◌>>◌, fail_if, map_err}
use pnio_rs.Eth.Header.{MacAddr, EthHeader, EthError, mac_bytes, ethertype_profinet, ethertype_vlan}
use pnio_rs.Eth.Header

abbrev pub tci_rt : ℕ
tci_rt = 0xC000

abbrev pub csdu_min : ℕ
csdu_min = 40

abbrev pub apdu_len : ℕ
apdu_len = 4

pub data FrameError : Type 0 where
  too_short : ℕ → ℕ → FrameError
  not_profinet : FrameError
  buffer_too_small : ℕ → ℕ → FrameError

-- `DataStatus(pub u8)`
abbrev pub DataStatus : Type 0
DataStatus = ℕ

abbrev pub run_primary_valid_ok : DataStatus
run_primary_valid_ok = 0x35

abbrev pub run_primary_valid_problem : DataStatus
run_primary_valid_problem = 0x15

abbrev pub primary : DataStatus → Bool
primary s = test_bit s 0

abbrev pub redundancy : DataStatus → Bool
redundancy s = test_bit s 1

abbrev pub data_valid : DataStatus → Bool
data_valid s = test_bit s 2

abbrev pub provider_run : DataStatus → Bool
provider_run s = test_bit s 4

abbrev pub station_ok : DataStatus → Bool
station_ok s = test_bit s 5

pub record RtFrame : Type 0 where
  pub frame_id : ℕ
  pub csdu : Bytes
  pub cycle_counter : ℕ
  pub data_status : DataStatus
  pub transfer_status : ℕ

abbrev pub frame_len : ℕ → ℕ
frame_len csdu_len = 18 + 2 + max csdu_len csdu_min + apdu_len

-- The header's length as far as the bytes show it, for the error of a cut header.
abbrev visible_header_len : Bytes → ℕ
visible_header_len frame =
    if not (ltb (length frame) 14) && byte_at frame 12 == 0x81 && byte_at frame 13 == 0x00
    then 18
    else 14

unfoldable pub parse : Bytes → Result FrameError (EthHeader × RtFrame)
parse frame = do
  (eth, off) ←
      map_err (λ _. too_short (visible_header_len frame + 2 + csdu_min + apdu_len) (length frame))
        (Header.parse frame)
  fail_if (not (eth.ethertype == ethertype_profinet)) not_profinet
  let need = off + 2 + csdu_min + apdu_len
  fail_if (ltb (length frame) need) (too_short need (length frame))
  let apdu_off = length frame - apdu_len
  let apdu = drop apdu_off frame
  ok (
    eth,
    record {
      frame_id = u16_at frame off;
      csdu = slice frame (off + 2) apdu_off;
      cycle_counter = u16_at apdu 0;
      data_status = byte_at apdu 2;
      transfer_status = byte_at apdu 3;
    },
  )

-- The slices that `write` copies, in order; each begins where the last one ended.
abbrev pub write_chunks : RtFrame → MacAddr → MacAddr → List Bytes
write_chunks f dst src =
    mac_bytes dst
    ∷ mac_bytes src
    ∷ be16 ethertype_vlan
    ∷ be16 tci_rt
    ∷ be16 ethertype_profinet
    ∷ be16 f.frame_id
    ∷ f.csdu
    ∷ replicate (max (length f.csdu) csdu_min - length f.csdu) 0
    ∷ be16 f.cycle_counter
    ∷ (f.data_status ∷ [])
    ∷ (f.transfer_status ∷ [])
    ∷ []

-- The number of bytes written, and the buffer.
unfoldable pub write : RtFrame → Bytes → MacAddr → MacAddr → Result FrameError (ℕ × Bytes)
write f out dst src = do
  let need = frame_len (length f.csdu)
  fail_if (ltb (length out) need) (buffer_too_small need (length out))
  ok (need, copy_all out 0 (write_chunks f dst src))
