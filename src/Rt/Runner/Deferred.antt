-- ===== src/Rt/Runner/Deferred.antt =====
-- What becomes of a publish that the image could not take.
use pnio_rs.Prelude.{
  ℕ, ◌≤◌, ◌≡◌, arith, refl, subst, Bool, true, false, none, some, List, [], ◌∷◌, ◌++◌, All, Bytes,
  length, ok,
}
use pnio_rs.Rt.Engine.{
  RtEngine, RxVerdict, accepted, ignored, dropped, expired, on_frame, check_watchdog,
}
use pnio_rs.Rt.Engine.Invariant.{IsEngine}
use pnio_rs.Rt.Engine.Consume.{Effect, on_frame_lem}
use pnio_rs.Rt.Image.{
  IoImage, Validity, expired as state_expired, rt_publish, rt_set_validity, set_validity,
}
use pnio_rs.Rt.Runner.Waiting.{Turn, InTime, Holds, run_ticks, run_ticks-Holds}
use pnio_rs.Rt.Runner.{
  Runner, with_data, retry_pending, receive, on_received, fresh_validity, watch,
}

-- What an accepted frame publishes reaches the image whether or not the image is free when the frame
-- comes: after any ticks that come within the watchdog's time, with whatever locks, a tick in time
-- whose retry gets the lock leaves the image as publishing at once does, with nothing pending; and no
-- tick panics. The engine's buffers fit its layout, the RT thread receives no other frame, and the
-- application does not change the image meanwhile.
pub receive-deferred :
    (free : Bool) (r : Runner) (frame : Bytes) (now : ℕ) (e : RtEngine) (run primary valid : Bool)
    (before : List Turn) (last : Turn)
    → IsEngine r.engine
    → on_frame r.engine frame now ≡ ok (e, accepted run primary valid)
    → e.layout.input_cr.data_length ≤ length r.snapshot
    → All (InTime e.layout.output_cr.watchdog now) before
    → InTime e.layout.output_cr.watchdog now last
    → last.locks.retry ≡ true
    → (b : Runner) × (after : Runner) × (receive free r frame now ≡ ok b)
      × (run_ticks (before ++ (last ∷ [])) b ≡ ok after)
      × (after.image ≡ (rt_publish true r.image e.rx_csdu (fresh_validity e r.grid.ticks)).0)
      × (after.pending ≡ none)
unfolding receive rt_publish
receive-deferred free r frame now e run primary valid before last fits h room ts t got =
    let r2 : Runner = record r { engine = e } in
    let b : Runner = on_received free r2 (accepted run primary valid) in
    let img : IoImage = (rt_publish true r.image e.rx_csdu (fresh_validity e r.grid.ticks)).0 in
    let (e2, v, h2, fits2, effect) = on_frame_lem r.engine frame now fits in
    let (same_fits, same_fed) = accepted_lem e2 v h2 fits2 effect in
    let (after, ran, same, empty) =
      run_ticks-Holds before last b e.layout.output_cr.watchdog now img
        (held free same_fits same_fed) ts t got in
    (b, after, rw h refl, ran, same, empty)
  where
    accepted_lem :
        (e2 : RtEngine) (v : RxVerdict)
        → on_frame r.engine frame now ≡ ok (e2, v)
        → IsEngine e2
        → Effect r.engine frame now e2 v
        → IsEngine e × (e.last_rx ≡ some now)
    accepted_lem e2 (accepted x y z) h2 fits2
          (eth, rt, parsed, source, id, status, enough, fed, state, taken) =
        let same : e2 ≡ e = ground arith in
        subst (λ (e : RtEngine). IsEngine e × (e.last_rx ≡ some now)) same (fits2, fed)
    accepted_lem e2 ignored h2 fits2 effect = absurd (ground arith)
    accepted_lem e2 (dropped reason) h2 fits2 effect = absurd (ground arith)

    held :
        (free : Bool)
        → IsEngine e
        → e.last_rx ≡ some now
        → Holds
            (on_received free (record r { engine = e }) (accepted run primary valid))
            e.layout.output_cr.watchdog
            now
            (rt_publish true r.image e.rx_csdu (fresh_validity e r.grid.ticks)).0
    held true f l = record {
      engine_fits = f;
      same_watchdog = refl;
      fed = l;
      snapshot_fits = room;
      flushed = refl;
    }
    held false f l = record {
      engine_fits = f;
      same_watchdog = refl;
      fed = l;
      snapshot_fits = room;
      flushed = refl;
    }

-- A tick that cannot retry the publish of a frame's data, and then stores that the watchdog
-- expired, leaves the old publish pending: the image says `Expired`, until a retry gets the lock
-- and puts back the validity of the frame.
pub expiry-overwritten :
    (r : Runner) (now : ℕ) (v : Validity) (e : RtEngine)
    → r.pending ≡ some (with_data v)
    → check_watchdog r.engine now ≡ (e, expired)
    → ((watch true (retry_pending false r) now).image.outputs.validity.watchdog ≡ state_expired)
      × ((retry_pending true (watch true (retry_pending false r) now)).image.outputs.validity ≡ v)
unfolding retry_pending rt_publish rt_set_validity set_validity watch
expiry-overwritten r now v e p c = rw p (rw c (refl, refl))
