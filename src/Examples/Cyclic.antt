-- ===== src/Examples/Cyclic.antt =====
-- The cyclic exchange of the small device.
use pnio_rs.Prelude.{
  ◌+◌, ◌*◌, ◌%◌, ◌≡◌, arith, refl, true, some, [], ◌∷◌, ◌++◌, replicate, Bytes, ok, if◌then◌else◌,
}
use pnio_rs.Cm.Model.{find_submodule, find_slot}
use pnio_rs.Cm.Connect.Validate.{from_req}
use pnio_rs.Rt.Frame.{run_primary_valid_ok, run_primary_valid_problem}
use pnio_rs.Rt.Frame
use pnio_rs.Rt.Frame.RoundTrip.{header_of, padded}
use pnio_rs.Rt.Layout.{Layout}
use pnio_rs.Rt.Layout.Build.{
  input, from_ar, build_cr, place_objects, place_object, place_cs, mark, mark_bits,
}
use pnio_rs.Rt.Layout.Disjoint.{AllApart, build_cr-AllApart}
use pnio_rs.Rt.Layout.Bounds.{new-from_ar}
use pnio_rs.Rt.Engine.{
  RtEngine, RtStats, RxVerdict, within, expired, stopped, fine, on_tick, on_frame, new,
}
use pnio_rs.Rt.Engine.Invariant.{IsEngine}
use pnio_rs.Rt.Engine.Consume.{Effect, on_frame_lem}
use pnio_rs.Rt.Engine.Produce.{on_tick_lem}
use pnio_rs.Rt.Engine.Watchdog.{verdicts, verdicts_lem}
use pnio_rs.Examples.Values.{device, request, params, request_accepted, device_mac, controller_mac}

abbrev pub layout : Layout
layout = record {
  input_cr = record {
    frame_id = 0x8001;
    data_length = 40;
    cycle_step = 32;
    watchdog = 3000000;
    objects = record { slot = 1; subslot = 1; data_off = 0; data_len = 2; iops_off = 2 } ∷ [];
    iocs = record { slot = 1; subslot = 1; iocs_off = 3 } ∷ [];
  };
  output_cr = record {
    frame_id = 0x8002;
    data_length = 40;
    cycle_step = 32;
    watchdog = 3000000;
    objects = record { slot = 1; subslot = 1; data_off = 0; data_len = 1; iops_off = 1 } ∷ [];
    iocs = record { slot = 1; subslot = 1; iocs_off = 3 } ∷ [];
  };
  cells =
      record {
        slot = 1;
        subslot = 1;
        input_len = 2;
        output_len = 1;
        input_off = some 0;
        output_off = some 0;
      }
      ∷ [];
}

pub layout_built : from_ar params device ≡ ok layout
unfolding from_ar build_cr place_objects place_object place_cs mark mark_bits find_submodule
    find_slot from_req
layout_built = refl

abbrev pub stats : RtStats
stats = record {
  tx = 0;
  rx_accepted = 0;
  rx_ignored = 0;
  rx_dropped = 0;
  rx_invalid = 0;
  reordered = 0;
  watchdog_expirations = 0;
  missed_ticks = 0;
}

abbrev pub engine : RtEngine
engine = new layout device_mac controller_mac stats

new-from_ar_example : IsEngine engine
new-from_ar_example =
    new-from_ar request device params layout device_mac controller_mac stats request_accepted
      layout_built

engine-IsEngine : IsEngine engine
engine-IsEngine =
    new-from_ar request device params layout device_mac controller_mac stats request_accepted
      layout_built

-- A frame of the controller for the Output CR, with valid data.
abbrev pub frame : Bytes
frame =
    2
    ∷ 0
    ∷ 0
    ∷ 0
    ∷ 0
    ∷ 1
    ∷ 2
    ∷ 0
    ∷ 0
    ∷ 0
    ∷ 0
    ∷ 2
    ∷ 0x88
    ∷ 0x92
    ∷ 0x80
    ∷ 0x02
    ∷ (replicate 40 0x85 ++ (0 ∷ 77 ∷ 0x35 ∷ 0 ∷ []))

on_frame_lem_example :
    (e' : RtEngine) × (v : RxVerdict) × (on_frame engine frame 5 ≡ ok (e', v))
    × IsEngine e'
    × Effect engine frame 5 e' v
on_frame_lem_example = on_frame_lem engine frame 5 engine-IsEngine

on_tick_lem_example :
    (e' : RtEngine) × (sent : Bytes) × (on_tick engine 2 (replicate 40 7) true ≡ ok (e', sent))
    × IsEngine e'
    × (e'.cycle_counter ≡ (0 + 32 * 2) % 65536)
    × (Frame.parse sent
        ≡ ok (
          header_of controller_mac device_mac,
          record {
            frame_id = 0x8001;
            csdu = padded e'.tx_csdu;
            cycle_counter = e'.cycle_counter;
            data_status = if true then run_primary_valid_problem else run_primary_valid_ok;
            transfer_status = 0;
          },
        ))
on_tick_lem_example = on_tick_lem engine 2 (replicate 40 7) true engine-IsEngine (omega arith)

-- The engine behind a frame at 1 ms.
abbrev pub fed : RtEngine
fed = record engine { last_rx = some 1000000; watchdog_state = fine }

verdicts_example :
    verdicts fed (2000000 ∷ 4000000 ∷ 4000001 ∷ 5000000 ∷ [])
    ≡ within ∷ within ∷ expired ∷ stopped ∷ []
verdicts_example =
    verdicts_lem (2000000 ∷ 4000000 ∷ []) 4000001 (5000000 ∷ []) fed 1000000 refl refl
      (omega arith, (omega arith, tt)) (omega arith) (omega arith, tt)

built_input : build_cr params.input_cr device input ≡ ok layout.input_cr
unfolding build_cr place_objects place_object place_cs mark mark_bits find_submodule find_slot
    from_req
built_input = refl

build_cr-AllApart_example : AllApart layout.input_cr.objects
build_cr-AllApart_example =
    build_cr-AllApart params.input_cr device input layout.input_cr built_input
