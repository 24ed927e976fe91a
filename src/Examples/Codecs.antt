-- ===== src/Examples/Codecs.antt =====
-- The frames and blocks of the small device.
use pnio_rs.Data.{int, negsuc}
use pnio_rs.Data.RoundTrip.{Encodes, decode-encode}
use pnio_rs.Prelude.{◌≡◌, arith, [], ◌∷◌, replicate, ok, Bytes, length, take}
use pnio_rs.Rt.Frame.{RtFrame, frame_len, csdu_min}
use pnio_rs.Rt.Frame
use pnio_rs.Rt.Frame.RoundTrip.{rt_parse-write, rt_parse_bounds, padded, IsFrame}
use pnio_rs.Rt.Frame.RoundTrip
use pnio_rs.Examples.Values.{device_mac, controller_mac}

abbrev frame : RtFrame
frame = record {
  frame_id = 0x8001;
  csdu = 1 ∷ 2 ∷ 3 ∷ [];
  cycle_counter = 77;
  data_status = 0x35;
  transfer_status = 0;
}

frame-IsFrame : IsFrame frame
frame-IsFrame = record {
  id_fits = omega arith;
  counter_fits = omega arith;
  status_fits = omega arith;
  transfer_fits = omega arith;
}

rt_parse-write_example :
    (buf : Bytes) × (Frame.write frame (replicate 70 0) device_mac controller_mac
      ≡ ok (frame_len 3, buf))
    × (length buf ≡ 70)
    × (Frame.parse (take (frame_len 3) buf)
        ≡ ok (
          RoundTrip.header_of device_mac controller_mac,
          record frame { csdu = padded frame.csdu },
        ))
rt_parse-write_example =
    rt_parse-write frame (replicate 70 0) device_mac controller_mac frame-IsFrame (omega arith)

-- The number -2
decode-encode_example : Encodes (int (negsuc 1)) (1 ∷ 2 ∷ 3 ∷ []) 0
decode-encode_example =
    decode-encode (int (negsuc 1)) (1 ∷ 2 ∷ 3 ∷ []) 0 (omega arith) (omega arith)
