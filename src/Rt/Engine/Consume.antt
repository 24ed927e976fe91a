-- ===== src/Rt/Engine/Consume.antt =====
-- What a received frame does to the engine.
use pnio_rs.Prelude.{
  ℕ, suc, ◌+◌, ◌≤◌, ◌<◌, ◌≡◌, arith, refl, true, false, Bool, some, List, [], ◌∷◌, length,
  length-take, map, take, All, Bytes, Result, ok, err, ltb, not, ◌||◌, ◌==◌, test_bit, byte_at,
  copy_at-all, if◌then◌else◌, ap, sym, ◌∙◌, ◌-◌,
}
use pnio_rs.Eth.Header.{EthHeader, mac_eq}
use pnio_rs.Rt.Layout.{IoObject, CsObject}
use pnio_rs.Rt.Frame.{RtFrame, FrameError, data_valid, provider_run, primary}
use pnio_rs.Rt.Frame
use pnio_rs.Rt.Engine.{
  RtEngine, RxVerdict, accepted, ignored, dropped, fine, Panic, on_frame, consume, accept, taken,
  take_data, refresh, put, range, verdict_of, add_to, skip_data, RtStats, count_dropped, malformed,
}
use pnio_rs.Rt.Engine.Invariant.{IsEngine, InCsdu, CsInCsdu}

-- A refresh reads bytes of the C-SDU only, and keeps the number of bits.
refresh_lem :
    (os : List ℕ) (csdu : Bytes) (good : List Bool)
    → All (λ o. o < length csdu) os
    → length good ≡ length os
    → (good' : List Bool) × (refresh os csdu good ≡ ok good') × (length good' ≡ length os)
unfolding refresh
refresh_lem [] csdu good h e = (good, refl, e)
refresh_lem (o ∷ os) csdu [] h e = absurd (omega arith)
refresh_lem (o ∷ os) csdu (g ∷ gs) (h, hs) e =
    let (gs', er, el) = refresh_lem os csdu gs hs (omega arith) in
    (test_bit (byte_at csdu o) 7 ∷ gs', ground arith, omega arith)

iops_in :
    (objs : List IoObject) (n : ℕ)
    → All (InCsdu n) objs
    → All (λ o. o < n) (map (λ (o : IoObject). o.iops_off) objs)
iops_in [] n h = tt
iops_in (o ∷ os) n (h, hs) = (h.1, iops_in os n hs)

iocs_in :
    (css : List CsObject) (n : ℕ)
    → All (CsInCsdu n) css
    → All (λ o. o < n) (map (λ (c : CsObject). c.iocs_off) css)
iocs_in [] n h = tt
iocs_in (c ∷ cs) n (h, hs) = (h, iocs_in cs n hs)

length-map : {A : Type 0} (f : A → ℕ) (xs : List A) → length (map f xs) ≡ length xs
length-map f [] = refl
length-map f (x ∷ xs) = ap suc (length-map f xs)

put_all : (out src : Bytes) → length src ≡ length out → put out 0 src ≡ ok src
put_all out src h = ground (arith, copy_at-all out src h)

range_front : (b : Bytes) (n : ℕ) → n ≤ length b → range b 0 n ≡ ok (take n b)
range_front b n h =
    let e : 0 + n - 0 ≡ n = omega arith in ground (arith, ap (λ (k : ℕ). take k b) e)

-- What `take_data` makes of an engine, once the C-SDU and the status bits are read.
abbrev filled : RtEngine → Bytes → List Bool → List Bool → RtEngine
filled e csdu iops iocs =
    let stats = e.stats in
    record e {
      rx_csdu = csdu;
      rx_iops_good = iops;
      rx_iocs_good = iocs;
      stats = record stats { rx_accepted = add_to stats.rx_accepted 1 };
    }

filled_lem :
    (e : RtEngine) (rt : RtFrame) (csdu : Bytes) (iops iocs : List Bool)
    → range rt.csdu 0 e.layout.output_cr.data_length ≡ ok csdu
    → put e.rx_csdu 0 csdu ≡ ok csdu
    → refresh (map (λ o. o.iops_off) e.layout.output_cr.objects) csdu e.rx_iops_good ≡ ok iops
    → refresh (map (λ c. c.iocs_off) e.layout.output_cr.iocs) csdu e.rx_iocs_good ≡ ok iocs
    → take_data e rt ≡ ok (filled e csdu iops iocs, verdict_of rt)
filled_lem e rt csdu iops iocs r p o c = rw r (rw p (rw o (rw c)))

-- What `take_data` does to an engine whose buffers fit.
take_data_lem :
    (e : RtEngine) (rt : RtFrame)
    → IsEngine e
    → e.layout.output_cr.data_length ≤ length rt.csdu
    → (e' : RtEngine) × (take_data e rt ≡ ok (e', verdict_of rt))
      × IsEngine e'
      × (e'.last_rx ≡ e.last_rx)
      × (e'.watchdog_state ≡ e.watchdog_state)
      × (e'.rx_csdu ≡ take e.layout.output_cr.data_length rt.csdu)
take_data_lem e rt h enough =
    let cr = e.layout.output_cr in
    let csdu : Bytes = take cr.data_length rt.csdu in
    let size : length csdu ≡ cr.data_length = omega (arith, length-take cr.data_length rt.csdu) in
    let offs : List ℕ = map (λ o. o.iops_off) cr.objects in
    let cs_offs : List ℕ = map (λ c. c.iocs_off) cr.iocs in
    let (iops, iops_ok, iops_len) =
      refresh_lem offs csdu e.rx_iops_good
        (rw size (iops_in cr.objects cr.data_length h.output_fits.objects_fit))
        (h.iops_length ∙ sym (length-map (λ o. o.iops_off) cr.objects)) in
    let (iocs, iocs_ok, iocs_len) =
      refresh_lem cs_offs csdu e.rx_iocs_good
        (rw size (iocs_in cr.iocs cr.data_length h.output_fits.iocs_fit))
        (h.iocs_length ∙ sym (length-map (λ c. c.iocs_off) cr.iocs)) in
    (
      filled e csdu iops iocs,
      filled_lem e rt csdu iops iocs (range_front rt.csdu cr.data_length enough)
          (put_all e.rx_csdu csdu (size ∙ sym h.rx_csdu_length)) iops_ok iocs_ok,
      record {
        input_fits = h.input_fits;
        output_fits = h.output_fits;
        tx_length = h.tx_length;
        tx_csdu_length = h.tx_csdu_length;
        rx_csdu_length = size;
        iops_length = iops_len ∙ length-map (λ o. o.iops_off) cr.objects;
        iocs_length = iocs_len ∙ length-map (λ c. c.iocs_off) cr.iocs;
        counter_fits = h.counter_fits;
      },
      refl,
      refl,
      refl,
    )

abbrev pub Untouched : RtEngine → RtEngine → Type 0
Untouched e e' =
    (e'.last_rx ≡ e.last_rx)
    × (e'.watchdog_state ≡ e.watchdog_state)
    × (e'.rx_csdu ≡ e.rx_csdu)
    × (e'.rx_iops_good ≡ e.rx_iops_good)

-- What a frame leads to: the engine behind it and the verdict. An accepted frame is the
-- controller's, for the Output CR, and long enough; it feeds the watchdog, and its data is taken when
-- it is marked valid. Any other frame leaves the data and the watchdog alone.
abbrev pub Effect : RtEngine → Bytes → ℕ → RtEngine → RxVerdict → Type 0
Effect e frame now e' (accepted run_state primary_state valid) =
    (eth : EthHeader) × (rt : RtFrame) × (Frame.parse frame ≡ ok (eth, rt))
    × (mac_eq eth.src e.cpu_mac ≡ true)
    × (rt.frame_id ≡ e.layout.output_cr.frame_id)
    × (rt.transfer_status ≡ 0)
    × (e.layout.output_cr.data_length ≤ length rt.csdu)
    × (e'.last_rx ≡ some now)
    × (e'.watchdog_state ≡ fine)
    × (e'.rx_csdu ≡ (if valid then take e.layout.output_cr.data_length rt.csdu else e.rx_csdu))
Effect e frame now e' ignored = Untouched e e'
Effect e frame now e' (dropped reason) = Untouched e e'

abbrev Handled : RtEngine → Bytes → ℕ → Result Panic (RtEngine × RxVerdict) → Type 0
Handled e frame now r =
    (e' : RtEngine) × (v : RxVerdict) × (r ≡ ok (e', v)) × IsEngine e' × Effect e frame now e' v

taken-IsEngine : (e : RtEngine) (rt : RtFrame) (now : ℕ) → IsEngine e → IsEngine (taken e rt now)
taken-IsEngine e rt now h = record {
  input_fits = h.input_fits;
  output_fits = h.output_fits;
  tx_length = h.tx_length;
  tx_csdu_length = h.tx_csdu_length;
  rx_csdu_length = h.rx_csdu_length;
  iops_length = h.iops_length;
  iocs_length = h.iocs_length;
  counter_fits = h.counter_fits;
}

-- The engine with other counters.
with_stats-IsEngine : (e : RtEngine) (s : RtStats) → IsEngine e → IsEngine (record e { stats = s })
with_stats-IsEngine e s h = record {
  input_fits = h.input_fits;
  output_fits = h.output_fits;
  tx_length = h.tx_length;
  tx_csdu_length = h.tx_csdu_length;
  rx_csdu_length = h.rx_csdu_length;
  iops_length = h.iops_length;
  iocs_length = h.iocs_length;
  counter_fits = h.counter_fits;
}

module _ (e : RtEngine) (frame : Bytes) (now : ℕ) (eth : EthHeader) (rt : RtFrame) (h : IsEngine e)
    (parsed : Frame.parse frame ≡ ok (eth, rt)) (ours : mac_eq eth.src e.cpu_mac ≡ true)
    (id : rt.frame_id ≡ e.layout.output_cr.frame_id) (clear : rt.transfer_status ≡ 0)
    (enough : e.layout.output_cr.data_length ≤ length rt.csdu) where
  either :
      {A : Type 0} (x y : A) {b : Bool}
      → data_valid rt.data_status ≡ b
      → (if data_valid rt.data_status then x else y) ≡ (if b then x else y)
  either x y valid = ap (λ (b : Bool). if b then x else y) valid

  accept_lem : (b : Bool) → data_valid rt.data_status ≡ b → Handled e frame now (accept e rt now)
  accept_lem true valid =
      let (e', done, good, seen, watch, csdu) =
        take_data_lem (taken e rt now) rt (taken-IsEngine e rt now h) enough in
      (
        e',
        verdict_of rt,
        either (take_data (taken e rt now) rt) (ok (skip_data (taken e rt now) rt)) valid ∙ done,
        good,
        (
          eth,
          rt,
          parsed,
          ours,
          id,
          clear,
          enough,
          seen,
          watch,
          csdu ∙ sym (either (take e.layout.output_cr.data_length rt.csdu) e.rx_csdu valid),
        ),
      )
  accept_lem false invalid = (
    (skip_data (taken e rt now) rt).0,
    verdict_of rt,
    either (take_data (taken e rt now) rt) (ok (skip_data (taken e rt now) rt)) invalid,
    with_stats-IsEngine (taken e rt now) _ (taken-IsEngine e rt now h),
    (
      eth,
      rt,
      parsed,
      ours,
      id,
      clear,
      enough,
      refl,
      refl,
      sym (either (take e.layout.output_cr.data_length rt.csdu) e.rx_csdu invalid),
    ),
  )

-- A test decides between two results that are both handled.
tested :
    (e : RtEngine) (frame : Bytes) (now : ℕ) (b : Bool) {x y : Result Panic (RtEngine × RxVerdict)}
    → (b ≡ true → Handled e frame now x)
    → (b ≡ false → Handled e frame now y)
    → Handled e frame now (if b then x else y)
tested e frame now true h k = h refl
tested e frame now false h k = k refl

module _ (e : RtEngine) (frame : Bytes) (now : ℕ) (h : IsEngine e) where
  counted :
      (s : RtStats) (v : RxVerdict)
      → Effect e frame now (record e { stats = s }) v
      → Handled e frame now (ok (record e { stats = s }, v))
  counted s v effect = (record e { stats = s }, v, refl, with_stats-IsEngine e s h, effect)

  consume_lem :
      (eth : EthHeader) (rt : RtFrame)
      → Frame.parse frame ≡ ok (eth, rt)
      → Handled e frame now (consume e eth rt now)
  unfolding consume
  consume_lem eth rt parsed =
      tested e frame now
        (not (mac_eq eth.src e.cpu_mac) || not (rt.frame_id == e.layout.output_cr.frame_id))
        (λ other. counted _ ignored (refl, refl, refl, refl))
        (λ ours.
          tested e frame now (not (rt.transfer_status == 0))
            (λ bad. counted _ (dropped _) (refl, refl, refl, refl))
            (λ clear.
              tested e frame now (ltb (length rt.csdu) e.layout.output_cr.data_length)
                (λ short. counted _ (dropped _) (refl, refl, refl, refl))
                (λ enough.
                  accept_lem e frame now eth rt h parsed (ground arith) (ground arith)
                    (ground arith) (ground arith) (data_valid rt.data_status) refl)))

  parsed_lem :
      (r : Result FrameError (EthHeader × RtFrame))
      → Frame.parse frame ≡ r
      → Handled e frame now (elim r [
        | ok (eth, rt) ↦ consume e eth rt now
        | err reason ↦ ok (count_dropped e, dropped malformed)
      ])
  parsed_lem (ok (eth, rt)) parsed = consume_lem eth rt parsed
  parsed_lem (err reason) parsed = counted _ (dropped malformed) (refl, refl, refl, refl)

  -- On an engine whose buffers fit its layout every frame, whatever its bytes, is handled without a
  -- panic, the buffers still fit, and the frame has the effect that its verdict promises.
  pub on_frame_lem :
      (e' : RtEngine) × (v : RxVerdict) × (on_frame e frame now ≡ ok (e', v))
      × IsEngine e'
      × Effect e frame now e' v
  unfolding on_frame
  on_frame_lem = parsed_lem (Frame.parse frame) refl
