-- ===== src/Examples/Runner.antt =====
-- The RT thread of the small device.
use pnio_rs.Prelude.{
  ◌+◌, ◌-◌, ◌*◌, ◌≡◌, arith, copy_at, refl, true, false, some, none, [], ◌∷◌, replicate, ok,
}
use pnio_rs.Eth.Header.{mac_eq}
use pnio_rs.Eth.Header
use pnio_rs.Rt.Frame
use pnio_rs.Rt.Engine.{
  RtEngine, accepted, expired, fine, overdue, on_frame, consume, refresh, check_watchdog,
}
use pnio_rs.Rt.Image.{Validity, within as state_ok, expired as state_expired, new, rt_publish}
use pnio_rs.Rt.Runner.{
  Runner, with_data, new_grid, on_read, fresh_validity, receive, retry_pending, watch,
}
use pnio_rs.Rt.Runner.Grid.{read_all, on_read-late}
use pnio_rs.Rt.Runner.Waiting.{Turn, run_ticks}
use pnio_rs.Rt.Layout.Bounds.{new-from_ar}
use pnio_rs.Rt.Engine.Invariant.{IsEngine}
use pnio_rs.Prelude.{◌++◌}
use pnio_rs.Examples.Values.{request, device, params, request_accepted, device_mac, controller_mac}
use pnio_rs.Rt.Runner.Deferred.{receive-deferred, expiry-overwritten}
use pnio_rs.Examples.Cyclic.{layout, layout_built, stats, engine, frame, fed}

on_read-late_example :
    (on_read
      (read_all (new_grid 1000000) ((500, 9) ∷ (1000700, 1) ∷ (3000500, 2) ∷ []))
      4000900
      1).1
    ≡ 4000900 - (500 + 1000000 * 4)
on_read-late_example =
    on_read-late 1000000 500 9 ((1000700, 1) ∷ (3000500, 2) ∷ []) 4000900 1 (omega arith)
      (omega arith) (omega arith) (omega arith)

abbrev runner : Runner
runner = record {
  engine = engine;
  image = new layout;
  grid = record { period = 1000000; start = some 0; ticks = 3 };
  pending = none;
  snapshot = replicate 40 0;
  events = [];
  output_publish_deferred = 0;
  input_snapshot_reused = 0;
}

abbrev received : RtEngine
received = record engine {
  stats = record stats { rx_accepted = 1 };
  rx_csdu = replicate 40 0x85;
  rx_iops_good = true ∷ [];
  rx_iocs_good = true ∷ [];
  last_rx = some 5;
  last_rx_cycle_counter = some 77;
  watchdog_state = fine;
  provider_run = true;
  primary = true;
}

frame_accepted : on_frame engine frame 5 ≡ ok (received, accepted true true true)
unfolding on_frame consume refresh Frame.parse Header.parse mac_eq copy_at
frame_accepted = refl

engine-IsEngine : IsEngine engine
engine-IsEngine =
    new-from_ar request device params layout device_mac controller_mac stats request_accepted
      layout_built

-- A tick that finds the image busy, and one that finds it free.
abbrev busy_turn : Turn
busy_turn = record {
  locks = record { retry = false; state = false; inputs = false };
  at = 1000;
  expirations = 1;
  problem = false;
}

abbrev free_turn : Turn
free_turn = record {
  locks = record { retry = true; state = true; inputs = true };
  at = 2000000;
  expirations = 2;
  problem = false;
}

receive-deferred_example :
    (b : Runner) × (after : Runner) × (receive false runner frame 5 ≡ ok b)
    × (run_ticks ((busy_turn ∷ busy_turn ∷ []) ++ (free_turn ∷ [])) b ≡ ok after)
    × (after.image ≡ (rt_publish true runner.image received.rx_csdu (fresh_validity received 3)).0)
    × (after.pending ≡ none)
receive-deferred_example =
    receive-deferred false runner frame 5 received true true true (busy_turn ∷ busy_turn ∷ [])
      free_turn engine-IsEngine frame_accepted (omega arith) (omega arith) (omega arith) refl

abbrev live : Validity
live = record {
  provider_run = true;
  primary = true;
  watchdog = state_ok;
  last_rx_age = some 0;
  cycle = 3;
}

-- The frame at 1 ms was deferred, and its data still waits at 4.000001 ms.
abbrev waiting : Runner
waiting = record runner { engine = fed; pending = some (with_data live) }

fed_expired : check_watchdog fed 4000001 ≡ (
  record fed { watchdog_state = overdue; stats = record stats { watchdog_expirations = 1 } },
  expired,
)
unfolding check_watchdog
fed_expired = refl

expiry-overwritten_example :
    ((watch true (retry_pending false waiting) 4000001).image.outputs.validity.watchdog
      ≡ state_expired)
    × ((retry_pending true
          (watch true (retry_pending false waiting) 4000001)).image.outputs.validity
        ≡ live)
expiry-overwritten_example =
    expiry-overwritten waiting 4000001 live
      (record fed { watchdog_state = overdue; stats = record stats { watchdog_expirations = 1 } })
      refl fed_expired
