-- ===== src/Examples/Relationship.antt =====
-- The relationship of the small device.
use pnio_rs.Prelude.{◌≡◌, refl, arith, none, some, [], ◌∷◌, ◌++◌, replicate}
use pnio_rs.Rpc.Uuid.{uuid_eq, bytes_eq}
use pnio_rs.Cm.Status.{status_ok}
use pnio_rs.Cm.Connect.Respond.{build_connect_res}
use pnio_rs.Cm.Connect.Accepted.{IsAccepted, validate-ok}
use pnio_rs.Cm.Write.{build_write_res}
use pnio_rs.Cm.Ar.Types.{
  Ar, ArContext, connect_req, write_req, prm_end_req, app_ready_rsp, respond, notify, connected,
  in_data, new,
}
use pnio_rs.Cm.Ar.Ops.{
  on, handle_write, exceeds_record_cap, established, ready_call, prm_end_answer, abort_action,
}
use pnio_rs.Cm.Ar.Invariant.{IsAr, Keeps, on-IsAr}
use pnio_rs.Cm.Ar.Timers.{run_deadlines, run_deadlines_lem, waiting}
use pnio_rs.Cm.Ar.Answers.{run, handshake, connect_again, context_of, established-IsAr}
use pnio_rs.Cm.Abort.{app_ready_failed}
use pnio_rs.Examples.Values.{
  device, request, params, request_accepted, prm_end, parameters, parameter,
}

abbrev pub connected_device : Ar
connected_device = established (new device) params 0

device-IsAr : IsAr connected_device
device-IsAr = established-IsAr device request params 0 request_accepted

on-IsAr_example : Keeps (on connected_device (write_req parameters) 50)
on-IsAr_example = on-IsAr connected_device (write_req parameters) 50 device-IsAr

validate-ok_example : IsAccepted request device params
validate-ok_example = validate-ok request device params request_accepted

run_deadlines_example :
    run_deadlines 3 (waiting device (context_of device params 0) 1 1000000000)
    ≡ some (
      new device,
      replicate 2 (ready_call (context_of device params 0)) ++ (abort_action app_ready_failed ∷ []),
    )
run_deadlines_example =
    run_deadlines_lem device (context_of device params 0) 2 1 1000000000 (omega arith)

handshake_example :
    run
      (new device)
      ((connect_req request, 0) ∷ (prm_end_req prm_end, 10) ∷ (app_ready_rsp status_ok, 20) ∷ [])
    ≡ some (
      record {
        model = device;
        state = in_data;
        ctx = some (context_of device params 0);
        app_ready_attempts = 0;
        app_ready_deadline = none;
        activity_deadline = none;
      },
      respond status_ok (build_connect_res params device)
          ∷ notify connected none
          ∷ prm_end_answer prm_end
          ∷ ready_call (context_of device params 0)
          ∷ notify in_data none
          ∷ [],
    )
handshake_example = handshake device request params prm_end 0 10 20 request_accepted refl

-- The device with one stored record.
abbrev written_context : ArContext
written_context = record {
  params = params;
  records = parameter ∷ [];
  connected_at = 0;
  connect_res = build_connect_res params device;
}

abbrev written_device : Ar
written_device = record {
  model = device;
  state = connected;
  ctx = some written_context;
  app_ready_attempts = 0;
  app_ready_deadline = none;
  activity_deadline = some 60000000050;
}

run_write :
    run connected_device ((write_req parameters, 50) ∷ [])
    ≡ some (written_device, respond status_ok (build_write_res parameters) ∷ [])
unfolding run on handle_write exceeds_record_cap uuid_eq bytes_eq
run_write = refl

connect_again_example :
    on written_device (connect_req request) 70
    ≡ some (written_device, respond status_ok (build_connect_res params device) ∷ [])
connect_again_example =
    connect_again device request params 0 70 ((write_req parameters, 50) ∷ []) written_device
      (respond status_ok (build_write_res parameters) ∷ []) request_accepted run_write refl
