-- ===== src/Rt/Engine/Produce.antt =====
-- The frame of a tick.
use pnio_rs.Prelude.{
  ℕ, zero, suc, ◌/◌, ◌+◌, ◌-◌, ◌*◌, ◌%◌, ◌≤◌, ◌≡◌, arith, refl, ◌∙◌, Bool, if◌then◌else◌, List, [],
  ◌∷◌, length, length-take, length-drop, take, drop, slice, All, Bytes, ok,
}
use pnio_rs.Rt.Layout.{IoObject, CsObject}
use pnio_rs.Rt.Frame.{RtFrame, frame_len, run_primary_valid_ok, run_primary_valid_problem}
use pnio_rs.Rt.Frame
use pnio_rs.Rt.Frame.RoundTrip.{rt_parse-write, padded, header_of, IsFrame}
use pnio_rs.Rt.Engine.{
  RtEngine, on_tick, fill_objects, fill_iocs, next_counter, frame_of, range, ioxs_good, add_to,
}
use pnio_rs.Rt.Engine.Invariant.{IsEngine, InCsdu, CsInCsdu, put_lem}

range_lem :
    (b : Bytes) (off len : ℕ)
    → off + len ≤ length b
    → (bytes : Bytes) × (range b off len ≡ ok bytes) × (length bytes ≡ len)
range_lem b off len h = (
  slice b off (off + len),
  ground arith,
  omega (arith, length-take (off + len - off) (drop off b), length-drop off b),
)

-- The objects of a layout are filled without a panic, and the C-SDU keeps its length.
fill_objects_lem :
    (objs : List IoObject) (inputs csdu : Bytes)
    → All (InCsdu (length csdu)) objs
    → length csdu ≤ length inputs
    → (csdu' : Bytes) × (fill_objects objs inputs csdu ≡ ok csdu') × (length csdu' ≡ length csdu)
unfolding fill_objects
fill_objects_lem [] inputs csdu h enough = (csdu, refl, refl)
fill_objects_lem (obj ∷ objs) inputs csdu (h, hs) enough =
    let (bytes, e1, l1) = range_lem inputs obj.data_off obj.data_len (omega arith) in
    let (csdu1, e2, l2) = put_lem csdu obj.data_off bytes (omega arith) in
    let (csdu2, e3, l3) = put_lem csdu1 obj.iops_off (ioxs_good ∷ []) (omega arith) in
    let same : length csdu2 ≡ length csdu = omega arith in
    let (csdu', e4, l4) = fill_objects_lem objs inputs csdu2 (rw same hs) (omega arith) in
    (csdu', rw e1 (rw e2 (rw e3 e4)), omega arith)

fill_iocs_lem :
    (css : List CsObject) (csdu : Bytes)
    → All (CsInCsdu (length csdu)) css
    → (csdu' : Bytes) × (fill_iocs css csdu ≡ ok csdu') × (length csdu' ≡ length csdu)
unfolding fill_iocs
fill_iocs_lem [] csdu h = (csdu, refl, refl)
fill_iocs_lem (cs ∷ css) csdu (h, hs) =
    let (csdu1, e1, l1) = put_lem csdu cs.iocs_off (ioxs_good ∷ []) (omega arith) in
    let (csdu', e2, l2) = fill_iocs_lem css csdu1 (rw l1 hs) in (csdu', rw e1 e2, omega arith)

frame_of-IsFrame :
    (e : RtEngine) (csdu : Bytes) (expirations : ℕ) (problem : Bool)
    → IsEngine e
    → IsFrame (frame_of e csdu (next_counter e expirations) problem)
frame_of-IsFrame e csdu expirations problem h = record {
  id_fits = h.input_fits.id_fits;
  counter_fits = omega arith;
  status_fits = ground arith;
  transfer_fits = omega arith;
}

-- The engine behind a tick.
abbrev pub ticked : RtEngine → Bytes → ℕ → Bytes → ℕ → RtEngine
ticked e csdu counter tx expirations =
    let stats = e.stats in
    record e {
      tx_csdu = csdu;
      cycle_counter = counter;
      tx = tx;
      stats = record stats {
        tx = add_to stats.tx 1;
        missed_ticks = add_to stats.missed_ticks (expirations - 1);
      };
    }

-- A multiple of a number and of its low word differ by whole words.
scaled : (s x : ℕ) → (k : ℕ) × (s * x ≡ s * (x % 65536) + k * 65536)
scaled zero x = (0, omega arith)
scaled (suc s) x = let (k, same) = scaled s x in (k + x / 65536, omega (arith, same))

counter_lem :
    (e : RtEngine) (expirations : ℕ)
    → next_counter e expirations
      ≡ (e.cycle_counter + e.layout.input_cr.cycle_step * expirations) % 65536
counter_lem e expirations =
    let (k, same) = scaled e.layout.input_cr.cycle_step expirations in omega (arith, same)

-- A tick gives the engine with the C-SDU that was filled, the next counter and the built frame, which
-- is what is sent.
pub on_tick_succ :
    (e : RtEngine) (expirations : ℕ) (inputs : Bytes) (problem : Bool)
    → IsEngine e
    → e.layout.input_cr.data_length ≤ length inputs
    → (csdu : Bytes) × (buf : Bytes) × (frame : Bytes) × (on_tick e expirations inputs problem
        ≡ ok (ticked e csdu (next_counter e expirations) buf expirations, frame))
      × IsEngine (ticked e csdu (next_counter e expirations) buf expirations)
      × (Frame.parse frame
          ≡ ok (
            header_of e.cpu_mac e.our_mac,
            record {
              frame_id = e.layout.input_cr.frame_id;
              csdu = padded csdu;
              cycle_counter = next_counter e expirations;
              data_status = if problem then run_primary_valid_problem else run_primary_valid_ok;
              transfer_status = 0;
            },
          ))
unfolding on_tick
on_tick_succ e expirations inputs problem h enough =
    let cr = e.layout.input_cr in
    let (csdu1, e1, l1) =
      fill_objects_lem cr.objects inputs e.tx_csdu (rw h.tx_csdu_length h.input_fits.objects_fit)
        (omega (arith, h.tx_csdu_length)) in
    let size : length csdu1 ≡ cr.data_length = l1 ∙ h.tx_csdu_length in
    let (csdu, e2, l2) = fill_iocs_lem cr.iocs csdu1 (rw size h.input_fits.iocs_fit) in
    let size' : length csdu ≡ cr.data_length = l2 ∙ size in
    let f : RtFrame = frame_of e csdu (next_counter e expirations) problem in
    let (buf, e3, l3, p) =
      rt_parse-write f e.tx e.cpu_mac e.our_mac (frame_of-IsFrame e csdu expirations problem h)
        (omega (arith, h.tx_length)) in
    (
      csdu,
      buf,
      take (frame_len (length csdu)) buf,
      rw e1 (rw e2 (rw e3 refl)),
      record {
        input_fits = h.input_fits;
        output_fits = h.output_fits;
        tx_length = l3 ∙ h.tx_length;
        tx_csdu_length = size';
        rx_csdu_length = h.rx_csdu_length;
        iops_length = h.iops_length;
        iocs_length = h.iocs_length;
        counter_fits = omega arith;
      },
      p,
    )

-- On an engine whose buffers fit its layout a tick never panics, with any number of expirations, and
-- the buffers still fit; the frame that it sends is read by the other side as the Input CR's, from
-- this device, with the C-SDU that was filled, the counter moved on by a step for each expiration,
-- modulo 2^16, and the status for the problem indicator.
pub on_tick_lem :
    (e : RtEngine) (expirations : ℕ) (inputs : Bytes) (problem : Bool)
    → IsEngine e
    → e.layout.input_cr.data_length ≤ length inputs
    → (e' : RtEngine) × (frame : Bytes) × (on_tick e expirations inputs problem ≡ ok (e', frame))
      × IsEngine e'
      × (e'.cycle_counter ≡ (e.cycle_counter + e.layout.input_cr.cycle_step * expirations) % 65536)
      × (Frame.parse frame
          ≡ ok (
            header_of e.cpu_mac e.our_mac,
            record {
              frame_id = e.layout.input_cr.frame_id;
              csdu = padded e'.tx_csdu;
              cycle_counter = e'.cycle_counter;
              data_status = if problem then run_primary_valid_problem else run_primary_valid_ok;
              transfer_status = 0;
            },
          ))
on_tick_lem e expirations inputs problem h enough =
    let (csdu, buf, frame, sent, kept, read) = on_tick_succ e expirations inputs problem h enough in
    (
      ticked e csdu (next_counter e expirations) buf expirations,
      frame,
      sent,
      kept,
      counter_lem e expirations,
      read,
    )
