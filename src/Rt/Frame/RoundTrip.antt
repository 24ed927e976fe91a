-- ===== src/Rt/Frame/RoundTrip.antt =====
-- Reading back a written cyclic frame.
use pnio_rs.Prelude.{ℕ, ◌+◌, ◌-◌, max, ◌≡◌, ◌≤◌, arith, sym, ap, ◌∙◌}
use pnio_rs.Prelude.{[], ◌∷◌, ◌++◌, length, Bytes, replicate, some, IsU16, IsByte, be16, be16_lem}
use pnio_rs.Prelude.{take, drop, length-append, length-replicate, take-length-append, append_assoc}
use pnio_rs.Prelude.{
  drop-length-append, copy_all, copy_all_lem, length-drop, map_err, map_err-eq-ok, >>=-eq-ok,
  length-take, concat, ok, ltb, false, le→ltb,
}
use pnio_rs.Eth.Header.{MacAddr, EthHeader, mac_bytes, ethertype_profinet, ethertype_vlan}
use pnio_rs.Eth.Header
use pnio_rs.Eth
use pnio_rs.Eth.RoundTrip.{parse-write_tagged, header_len}
use pnio_rs.Rt.Frame.{RtFrame, parse, write, write_chunks, frame_len, csdu_min, tci_rt}

-- The values that a frame's fields can hold.
pub record IsFrame (f : RtFrame) : Type 0 where
  pub id_fits : IsU16 f.frame_id
  pub counter_fits : IsU16 f.cycle_counter
  pub status_fits : IsByte f.data_status
  pub transfer_fits : IsByte f.transfer_status

-- The C-SDU as it stands on the wire.
abbrev pub padded : Bytes → Bytes
padded csdu = csdu ++ replicate (max (length csdu) csdu_min - length csdu) 0

pub length-padded : (csdu : Bytes) → length (padded csdu) ≡ max (length csdu) csdu_min
length-padded csdu = omega (
  arith,
  length-append csdu (replicate (max (length csdu) csdu_min - length csdu) 0),
  length-replicate {A = ℕ} (max (length csdu) csdu_min - length csdu) 0,
)

abbrev pub header_of : MacAddr → MacAddr → EthHeader
header_of dst src = record {
  dst = dst;
  src = src;
  vlan = some tci_rt;
  ethertype = ethertype_profinet;
}

abbrev trailer : RtFrame → Bytes
trailer f = be16 f.cycle_counter ++ (f.data_status ∷ f.transfer_status ∷ [])

abbrev wire : RtFrame → MacAddr → MacAddr → Bytes
wire f dst src =
    Header.write (header_of dst src) ++ (be16 f.frame_id ++ (padded f.csdu ++ trailer f))

concat_chunks : (f : RtFrame) (dst src : MacAddr) → concat (write_chunks f dst src) ≡ wire f dst src
unfolding Header.write
concat_chunks f dst src =
    let pad : Bytes = replicate (max (length f.csdu) csdu_min - length f.csdu) 0 in
    ap (λ (t : Bytes). Header.write (header_of dst src) ++ (be16 f.frame_id ++ t))
      (sym (append_assoc f.csdu pad (trailer f)))

length-wire :
    (f : RtFrame) (dst src : MacAddr) → length (wire f dst src) ≡ frame_len (length f.csdu)
unfolding Header.write
length-wire f dst src =
    omega (arith, length-append (padded f.csdu) (trailer f), length-padded f.csdu)

abbrev status : ℕ → ℕ → ℕ → Bytes
status count ds ts = be16 count ++ (ds ∷ ts ∷ [])

parse-flat :
    (dst src : MacAddr) (id count ds ts : ℕ) (body : Bytes)
    → csdu_min ≤ length body
    → IsU16 id
    → IsU16 count
    → parse (Header.write (header_of dst src) ++ (be16 id ++ (body ++ status count ds ts)))
      ≡ ok (
        header_of dst src,
        record {
          frame_id = id;
          csdu = body;
          cycle_counter = count;
          data_status = ds;
          transfer_status = ts;
        },
      )
unfolding parse Header.write
parse-flat dst src id count ds ts body hb hi hc =
    let front : Bytes = Header.write (header_of dst src) ++ be16 id in
    let cut : length (front ++ (body ++ status count ds ts)) - 4 ≡ length (front ++ body) =
      omega (arith, length-append body (status count ds ts)) in
    let enough : ltb (length (front ++ (body ++ status count ds ts))) 64 ≡ false =
      ground (arith, length-append body (status count ds ts)) in
    let less : length (front ++ body) - 20 ≡ length body = omega arith in
    rw (parse-write_tagged dst src tci_rt ethertype_profinet _ (omega arith) (omega arith)) (
      rw enough (
        rw cut (
          rw (
            less,
            take-length-append body,
            drop-length-append body,
            be16_lem id hi,
            be16_lem count hc,
          ))))

parse-wire :
    (f : RtFrame) (dst src : MacAddr)
    → IsFrame f
    → parse (wire f dst src) ≡ ok (header_of dst src, record f { csdu = padded f.csdu })
parse-wire f dst src h =
    parse-flat dst src f.frame_id f.cycle_counter f.data_status f.transfer_status (padded f.csdu)
      (omega (arith, length-padded f.csdu)) h.id_fits h.counter_fits

copied :
    (f : RtFrame) (out : Bytes) (dst src : MacAddr)
    → copy_all out 0 (write_chunks f dst src)
      ≡ wire f dst src ++ drop (frame_len (length f.csdu)) out
copied f out dst src =
    copy_all_lem (write_chunks f dst src) out
    ∙ ap (λ (t : Bytes). t ++ drop (length t) out) (concat_chunks f dst src)
    ∙ ap (λ (n : ℕ). wire f dst src ++ drop n out) (length-wire f dst src)

-- On a buffer that holds the frame `write` succeeds; the frame goes to the front of the
-- buffer and the rest of it stays.
write_lem :
    (f : RtFrame) (out : Bytes) (dst src : MacAddr)
    → frame_len (length f.csdu) ≤ length out
    → write f out dst src
      ≡ ok (frame_len (length f.csdu), wire f dst src ++ drop (frame_len (length f.csdu)) out)
unfolding write
write_lem f out dst src h =
    rw (le→ltb (length out) (frame_len (length f.csdu)) h)
      (ap (λ (t : Bytes). ok (frame_len (length f.csdu), t)) (copied f out dst src))

-- A frame written to a buffer that holds it keeps the buffer's length, and the bytes that `write`
-- reports parse as that frame, with the C-SDU padded to 40 bytes.
pub rt_parse-write :
    (f : RtFrame) (out : Bytes) (dst src : MacAddr)
    → IsFrame f
    → frame_len (length f.csdu) ≤ length out
    → (buf : Bytes) × (write f out dst src ≡ ok (frame_len (length f.csdu), buf))
      × (length buf ≡ length out)
      × (parse (take (frame_len (length f.csdu)) buf)
          ≡ ok (header_of dst src, record f { csdu = padded f.csdu }))
rt_parse-write f out dst src h fits =
    let n = frame_len (length f.csdu) in
    let front : take n (wire f dst src ++ drop n out) ≡ wire f dst src =
      rw (← length-wire f dst src) (take-length-append (wire f dst src) _) in
    (
      wire f dst src ++ drop n out,
      write_lem f out dst src fits,
      omega (
        arith,
        length-append (wire f dst src) (drop n out),
        length-wire f dst src,
        length-drop n out,
      ),
      rw front (parse-wire f dst src h),
    )

-- What is parsed is a PROFINET frame of at least 60 bytes, and its C-SDU, with the header, the
-- frame id and the status behind it, makes up the whole frame; so it has at least 40 bytes.
pub rt_parse_bounds :
    (frame : Bytes) (eth : EthHeader) (f : RtFrame)
    → parse frame ≡ ok (eth, f)
    → (eth.ethertype ≡ ethertype_profinet)
      × (length f.csdu + header_len eth.vlan + 6 ≡ length frame)
      × (csdu_min ≤ length f.csdu)
unfolding parse
rt_parse_bounds frame eth f e =
    let (p, parsed, rest) = >>=-eq-ok (map_err _ (Header.parse frame)) _ e in
    let (off_eq, off_le) =
      Eth.RoundTrip.eth_parse_bounds frame p.0 p.1 (map_err-eq-ok _ (Header.parse frame) parsed) in
    ground (
      arith,
      length-take (length frame - 4 - (p.1 + 2)) (drop (p.1 + 2) frame),
      length-drop (p.1 + 2) frame,
    )
