-- ===== src/Rt/Runner/Waiting.antt =====
-- The ticks while a publish waits, before the watchdog's time is over.
use pnio_rs.Prelude.{
  ℕ, ◌+◌, ◌-◌, ◌≤◌, ◌≡◌, arith, refl, sym, subst, ◌∙◌, Bool, true, false, Option, none, some, List,
  [], ◌∷◌, ◌++◌, All, Bytes, length, leb, Result, ok, ◌>>=◌,
}
use pnio_rs.Rt.Engine.{RtEngine, fine, Panic, check_watchdog, next_counter}
use pnio_rs.Rt.Engine.Invariant.{IsEngine}
use pnio_rs.Rt.Engine.Produce.{ticked, on_tick_succ}
use pnio_rs.Rt.Image.{IoImage, rt_publish, rt_set_validity, set_validity, rt_snapshot_inputs}
use pnio_rs.Rt.Image.Steps.{length-copy_min}
use pnio_rs.Rt.Runner.{
  Runner, Locks, Pending, with_data, state_only, retry_pending, on_read, watch, prepare, tick,
  with_snapshot, engine_expirations,
}

-- A timer read: the locks of its tick, its time, its expirations and the problem indicator.
pub record Turn : Type 0 where
  pub locks : Locks
  pub at : ℕ
  pub expirations : ℕ
  pub problem : Bool

unfoldable pub run_ticks : List Turn → Runner → Result Panic Runner
run_ticks [] r = ok r
run_ticks (t ∷ ts) r =
    tick r t.locks t.at t.expirations t.problem >>= λ (q : Runner × Bytes). run_ticks ts q.0

-- The tick comes within the watchdog's time after the frame that came at `first`.
abbrev pub InTime : ℕ → ℕ → Turn → Type 0
InTime watchdog first t = t.at ≤ first + watchdog

-- The image once what is pending is published.
abbrev pub flush : IoImage → Option Pending → Bytes → IoImage
flush img none csdu = img
flush img (some (with_data v)) csdu = (rt_publish true img csdu v).0
flush img (some (state_only v)) csdu = (rt_set_validity true img v).0

-- The runner behind a frame at `first`: its buffers fit, no time has expired, and the image is
-- `img` once what is pending is published.
pub record Holds (r : Runner) (watchdog first : ℕ) (img : IoImage) : Type 0 where
  pub engine_fits : IsEngine r.engine
  pub same_watchdog : r.engine.layout.output_cr.watchdog ≡ watchdog
  pub fed : r.engine.last_rx ≡ some first
  pub snapshot_fits : r.engine.layout.input_cr.data_length ≤ length r.snapshot
  pub flushed : flush r.image r.pending r.engine.rx_csdu ≡ img

-- What a retry does: the engine, the snapshot and the grid stay, the flushed image is the same, and
-- with the lock it is the image itself, with nothing pending.
record Retried (free : Bool) (r q : Runner) : Type 0 where
  same_engine : q.engine ≡ r.engine
  same_snapshot : q.snapshot ≡ r.snapshot
  same_flush : flush q.image q.pending q.engine.rx_csdu ≡ flush r.image r.pending r.engine.rx_csdu
  nothing_left : free ≡ true → q.pending ≡ none

retry-Retried :
    (free : Bool) (r : Runner) (p : Option Pending)
    → r.pending ≡ p
    → Retried free r (retry_pending free r)
unfolding retry_pending rt_publish rt_set_validity set_validity
retry-Retried free r none e = rw e (record {
  same_engine = refl;
  same_snapshot = refl;
  same_flush = refl;
  nothing_left = λ f. refl;
})
retry-Retried true r (some (with_data v)) e = rw e (record {
  same_engine = refl;
  same_snapshot = refl;
  same_flush = refl;
  nothing_left = λ f. refl;
})
retry-Retried false r (some (with_data v)) e = rw e (record {
  same_engine = refl;
  same_snapshot = refl;
  same_flush = refl;
  nothing_left = λ f. absurd (ground arith);
})
retry-Retried true r (some (state_only v)) e = rw e (record {
  same_engine = refl;
  same_snapshot = refl;
  same_flush = refl;
  nothing_left = λ f. refl;
})
retry-Retried false r (some (state_only v)) e = rw e (record {
  same_engine = refl;
  same_snapshot = refl;
  same_flush = refl;
  nothing_left = λ f. absurd (ground arith);
})

-- In time, the watchdog's check does not touch what is pending.
watch_in_time :
    (free : Bool) (r : Runner) (now first : ℕ)
    → r.engine.last_rx ≡ some first
    → now ≤ first + r.engine.layout.output_cr.watchdog
    → watch free r now
      ≡ (let e = r.engine in record r { engine = record e { watchdog_state = fine } })
unfolding watch check_watchdog
watch_in_time free r now first fed early =
    let in_time : leb (now - first) r.engine.layout.output_cr.watchdog ≡ true = ground arith in
    rw (fed, in_time) refl

snapshot-Holds :
    (free : Bool) (r : Runner) (watchdog first : ℕ) (img : IoImage)
    → Holds r watchdog first img
    → Holds (with_snapshot r (rt_snapshot_inputs free r.image r.snapshot)) watchdog first img
      × ((with_snapshot r (rt_snapshot_inputs free r.image r.snapshot)).pending ≡ r.pending)
unfolding rt_snapshot_inputs
snapshot-Holds true r watchdog first img h = (
  record {
    engine_fits = h.engine_fits;
    same_watchdog = h.same_watchdog;
    fed = h.fed;
    snapshot_fits = omega (arith, h.snapshot_fits, length-copy_min r.snapshot r.image.inputs);
    flushed = h.flushed;
  },
  refl,
)
snapshot-Holds false r watchdog first img h = (
  record {
    engine_fits = h.engine_fits;
    same_watchdog = h.same_watchdog;
    fed = h.fed;
    snapshot_fits = h.snapshot_fits;
    flushed = h.flushed;
  },
  refl,
)

retry-Holds :
    (free : Bool) (r q : Runner) (watchdog first : ℕ) (img : IoImage)
    → Retried free r q
    → Holds r watchdog first img
    → Holds q watchdog first img
retry-Holds free r q watchdog first img m h =
    let e = sym m.same_engine in
    record {
      engine_fits = subst IsEngine e h.engine_fits;
      same_watchdog =
          subst (λ (e : RtEngine). e.layout.output_cr.watchdog ≡ watchdog) e h.same_watchdog;
      fed = subst (λ (e : RtEngine). e.last_rx ≡ some first) e h.fed;
      snapshot_fits = rw m.same_snapshot (
          subst (λ (e : RtEngine). e.layout.input_cr.data_length ≤ length r.snapshot) e
            h.snapshot_fits);
      flushed = m.same_flush ∙ h.flushed;
    }

checked-Holds :
    (free : Bool) (r : Runner) (now watchdog first : ℕ) (img : IoImage)
    → Holds r watchdog first img
    → now ≤ first + watchdog
    → Holds (watch free r now) watchdog first img × ((watch free r now).pending ≡ r.pending)
checked-Holds free r now watchdog first img h early =
    let in_time = watch_in_time free r now first h.fed (rw h.same_watchdog early) in
    rw in_time (
      record {
        engine_fits = record {
          input_fits = h.engine_fits.input_fits;
          output_fits = h.engine_fits.output_fits;
          tx_length = h.engine_fits.tx_length;
          tx_csdu_length = h.engine_fits.tx_csdu_length;
          rx_csdu_length = h.engine_fits.rx_csdu_length;
          iops_length = h.engine_fits.iops_length;
          iocs_length = h.engine_fits.iocs_length;
          counter_fits = h.engine_fits.counter_fits;
        };
        same_watchdog = h.same_watchdog;
        fed = h.fed;
        snapshot_fits = h.snapshot_fits;
        flushed = h.flushed;
      },
      refl,
    )

-- A runner behind the retry and the check of a tick in time.
prepared :
    (r : Runner) (watchdog first : ℕ) (img : IoImage) (t : Turn)
    → Holds r watchdog first img
    → InTime watchdog first t
    → Holds (prepare r t.locks t.at t.expirations) watchdog first img
      × (t.locks.retry ≡ true → (prepare r t.locks t.at t.expirations).pending ≡ none)
unfolding prepare
prepared r watchdog first img t h early =
    let read : Runner = record r { grid = (on_read r.grid t.at t.expirations).0 } in
    let retried : Runner = retry_pending t.locks.retry read in
    let m : Retried t.locks.retry read retried = retry-Retried t.locks.retry read r.pending refl in
    let at_read : Holds read watchdog first img = record {
      engine_fits = h.engine_fits;
      same_watchdog = h.same_watchdog;
      fed = h.fed;
      snapshot_fits = h.snapshot_fits;
      flushed = h.flushed;
    } in
    let (kept, same) =
      checked-Holds t.locks.state retried t.at watchdog first img
        (retry-Holds t.locks.retry read retried watchdog first img m at_read) early in
    let (last, same2) =
      snapshot-Holds t.locks.inputs (watch t.locks.state retried t.at) watchdog first img kept in
    (last, λ free. same2 ∙ same ∙ m.nothing_left free)

ticked-Holds :
    (r : Runner) (watchdog first : ℕ) (img : IoImage) (t : Turn)
    → Holds r watchdog first img
    → InTime watchdog first t
    → (q : Runner) × (frame : Bytes) × (tick r t.locks t.at t.expirations t.problem ≡ ok (q, frame))
      × Holds q watchdog first img
      × (t.locks.retry ≡ true → q.pending ≡ none)
unfolding tick
ticked-Holds r watchdog first img t h early =
    let ready : Runner = prepare r t.locks t.at t.expirations in
    let (i, done) = prepared r watchdog first img t h early in
    let n = engine_expirations r.grid t.expirations in
    let (csdu, buf, frame, sent, fits, read) =
      on_tick_succ ready.engine n ready.snapshot t.problem i.engine_fits i.snapshot_fits in
    (
      record ready { engine = ticked ready.engine csdu (next_counter ready.engine n) buf n },
      frame,
      rw sent refl,
      record {
        engine_fits = fits;
        same_watchdog = i.same_watchdog;
        fed = i.fed;
        snapshot_fits = i.snapshot_fits;
        flushed = i.flushed;
      },
      done,
    )

pub run_ticks-Holds :
    (before : List Turn) (last : Turn) (r : Runner) (watchdog first : ℕ) (img : IoImage)
    → Holds r watchdog first img
    → All (InTime watchdog first) before
    → InTime watchdog first last
    → last.locks.retry ≡ true
    → (q : Runner) × (run_ticks (before ++ (last ∷ [])) r ≡ ok q)
      × (q.image ≡ img)
      × (q.pending ≡ none)
unfolding run_ticks
run_ticks-Holds [] last r watchdog first img h ts t free =
    let (q, frame, e, i, done) = ticked-Holds r watchdog first img last h t in
    let empty : q.pending ≡ none = done free in
    let same : flush q.image none q.engine.rx_csdu ≡ img =
      subst (λ p. flush q.image p q.engine.rx_csdu ≡ img) empty i.flushed in
    (q, rw e refl, same, empty)
run_ticks-Holds (turn ∷ before) last r watchdog first img h (t0, ts) t free =
    let (q, frame, e, i, done) = ticked-Holds r watchdog first img turn h t0 in
    let (q2, e2, same, empty) = run_ticks-Holds before last q watchdog first img i ts t free in
    (q2, rw e e2, same, empty)
