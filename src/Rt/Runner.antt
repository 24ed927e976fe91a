-- ===== src/Rt/Runner.antt =====
-- crates/pnio/src/rt/runner.rs: what the RT thread does in one tick and with one received frame,
-- between its system calls. The clock, the timer, the socket and the success of each `try_lock` are
-- arguments; the histograms are left out. `Result` is an error where the engine would panic.
pub mod Grid
pub mod Waiting
pub mod Deferred
use pnio_rs.Prelude.{
  ℕ, ◌+◌, ◌-◌, ◌*◌, ◌^◌, min, Bool, true, false, ◌==◌, Option, none, some, List, [], ◌∷◌, ◌++◌,
  Bytes, Result, ok, err, ◌>>=◌, if◌then◌else◌, u64,
}
use pnio_rs.Rt.Engine.{
  RtEngine, RxVerdict, accepted, ignored, dropped, WatchdogVerdict, within, expired, stopped,
  not_armed, Panic, on_tick, on_frame, check_watchdog, mark_outputs_stale, add_to,
}
use pnio_rs.Rt.Image.{
  IoImage, Validity, rt_publish, rt_set_validity, rt_snapshot_inputs, within as state_ok,
  expired as state_expired,
}

pub data RtEvent : Type 0 where
  watchdog_expired : RtEvent
  socket_error : Bytes → RtEvent
  sched_warning : Bytes → RtEvent
  exited : RtEvent

-- `Data` and `Validity`
pub data Pending : Type 0 where
  with_data : Validity → Pending
  state_only : Validity → Pending

pub record TickGrid : Type 0 where
  pub period : ℕ
  pub start : Option ℕ
  pub ticks : ℕ

abbrev pub new_grid : ℕ → TickGrid
new_grid period = record { period = period; start = none; ticks = 0 }

-- `saturating_add` and `saturating_mul` on a `u64`
abbrev pub saturate : ℕ → ℕ
saturate n = min n (2 ^ 64 - 1)

abbrev pub late : ℕ → ℕ → ℕ → ℕ → ℕ
late now start period ticks = u64 (now - (start + saturate (u64 period * (ticks - 1))))

-- The grid, and the lateness of this read. An `Instant` has no upper bound here, so `checked_add`
-- succeeds.
unfoldable pub on_read : TickGrid → ℕ → ℕ → TickGrid × ℕ
on_read grid now expirations = elim grid.start [
  | none ↦ (record grid { start = some now; ticks = 1 }, 0)
  | some start ↦
      let ticks = saturate (grid.ticks + expirations) in
      (record grid { ticks = ticks }, late now start grid.period ticks)
]

-- What the loop keeps from one turn to the next, with two of the counters.
pub record Runner : Type 0 where
  pub engine : RtEngine
  pub image : IoImage
  pub grid : TickGrid
  pub pending : Option Pending
  pub snapshot : Bytes
  pub events : List RtEvent
  pub output_publish_deferred : ℕ
  pub input_snapshot_reused : ℕ

-- `pending` after an attempt that was made with `p`
abbrev pub settled : Runner → Pending → IoImage × Bool → Runner
settled r p (image, true) = record r { image = image }
settled r p (image, false) = record r {
  image = image;
  pending = some p;
  output_publish_deferred = add_to r.output_publish_deferred 1;
}

abbrev pub attempt : Bool → Runner → Pending → IoImage × Bool
attempt free r (with_data v) = rt_publish free r.image r.engine.rx_csdu v
attempt free r (state_only v) = rt_set_validity free r.image v

abbrev pub retry : Bool → Runner → Option Pending → Runner
retry free r none = r
retry free r (some p) = settled (record r { pending = none }) p (attempt free r p)

-- `pending.take()` and `retry_pending`
unfoldable pub retry_pending : Bool → Runner → Runner
retry_pending free r = retry free r r.pending

abbrev age_of : ℕ → Option ℕ → Option ℕ
age_of now none = none
age_of now (some t) = some (now - t)

abbrev pub expired_validity : RtEngine → ℕ → ℕ → Validity
expired_validity e now ticks = record {
  provider_run = e.provider_run;
  primary = e.primary;
  watchdog = state_expired;
  last_rx_age = age_of now e.last_rx;
  cycle = ticks;
}

abbrev pub report_expiry : Bool → Runner → ℕ → Runner
report_expiry free r now =
    let e = mark_outputs_stale r.engine in
    let v = expired_validity e now r.grid.ticks in
    let r2 = record r { engine = e; events = r.events ++ (watchdog_expired ∷ []) } in
    settled r2 (state_only v) (rt_set_validity free r.image v)

abbrev pub on_verdict : Bool → Runner → ℕ → WatchdogVerdict → Runner
on_verdict free r now expired = report_expiry free r now
on_verdict free r now within = r
on_verdict free r now stopped = r
on_verdict free r now not_armed = r

unfoldable pub watch : Bool → Runner → ℕ → Runner
watch free r now =
    let (e, verdict) = check_watchdog r.engine now in
    on_verdict free (record r { engine = e }) now verdict

abbrev pub with_snapshot : Runner → Bytes × Bool → Runner
with_snapshot r (bytes, true) = record r { snapshot = bytes }
with_snapshot r (bytes, false) = record r {
  snapshot = bytes;
  input_snapshot_reused = add_to r.input_snapshot_reused 1;
}

-- `u32::try_from(expirations).unwrap_or(u32::MAX)`, and 1 for the first read
abbrev pub engine_expirations : TickGrid → ℕ → ℕ
engine_expirations grid expirations = if grid.ticks == 0 then 1 else min expirations (2 ^ 32 - 1)

-- The success of the three `try_lock`s of a tick, in their order.
pub record Locks : Type 0 where
  pub retry : Bool
  pub state : Bool
  pub inputs : Bool

-- The part of a tick before the frame is built.
unfoldable pub prepare : Runner → Locks → ℕ → ℕ → Runner
prepare r locks now expirations =
    let read = record r { grid = (on_read r.grid now expirations).0 } in
    let watched = watch locks.state (retry_pending locks.retry read) now in
    with_snapshot watched (rt_snapshot_inputs locks.inputs watched.image watched.snapshot)

-- A timer read of one expiration or more: the runner, and the frame that is sent.
unfoldable pub tick : Runner → Locks → ℕ → ℕ → Bool → Result Panic (Runner × Bytes)
tick r locks now expirations problem = do
  let ready = prepare r locks now expirations
  (engine, frame) ←
      on_tick ready.engine (engine_expirations r.grid expirations) ready.snapshot problem
  ok (record ready { engine = engine }, frame)

abbrev pub fresh_validity : RtEngine → ℕ → Validity
fresh_validity e ticks = record {
  provider_run = e.provider_run;
  primary = e.primary;
  watchdog = state_ok;
  last_rx_age = some 0;
  cycle = ticks;
}

abbrev pub published_or : Runner → Validity → IoImage × Bool → Runner
published_or r v (image, true) = record r { image = image; pending = none }
published_or r v (image, false) = record r {
  image = image;
  pending = some (with_data v);
  output_publish_deferred = add_to r.output_publish_deferred 1;
}

abbrev pub on_received : Bool → Runner → RxVerdict → Runner
on_received free r (accepted run primary valid) =
    let v = fresh_validity r.engine r.grid.ticks in
    published_or r v (rt_publish free r.image r.engine.rx_csdu v)
on_received free r ignored = r
on_received free r (dropped reason) = r

-- A received frame.
unfoldable pub receive : Bool → Runner → Bytes → ℕ → Result Panic Runner
receive free r frame now = do
  (engine, verdict) ← on_frame r.engine frame now
  ok (on_received free (record r { engine = engine }) verdict)

unfoldable pub drain_should_continue : Bool → Bool → Bool → Bool
drain_should_continue has_fd readable got_frame = if has_fd then readable else got_frame
