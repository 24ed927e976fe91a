-- ===== src/Cm/Ar/Ops.antt =====
-- crates/pnio/src/cm/ar.rs: the handlers and the dispatch of an event. A handler returns the AR
-- behind it and the actions, or `none` where `.expect` panics.
use pnio_rs.Prelude.{ℕ, ◌+◌, ◌*◌, Bool, true, false, not, ◌&&◌, ◌||◌, Option, none, some, min}
use pnio_rs.Prelude.{List, [], ◌∷◌, ◌++◌, length, any, ltb, leb, if◌then◌else◌, ◌==◌}
use pnio_rs.Prelude.{Result, ok, err}
use pnio_rs.Rpc.Uuid.{uuid_eq}
use pnio_rs.Cm.Status.{
  PnioStatus, status_ok, is_ok, control_wrong_state, connect_ar_already_exists, write_wrong_ar,
  write_resource_unavailable,
}
use pnio_rs.Cm.Abort.{
  AbortReason, controller_release, app_ready_failed, app_ready_rejected, activity_timeout,
  controller_reconnect,
}
use pnio_rs.Cm.Control.{ControlBlock, prm_end_done, app_ready_req, release_done}
use pnio_rs.Cm.Control
use pnio_rs.Cm.Connect.{ConnectReq, ArParams}
use pnio_rs.Cm.Connect.Validate.{validate}
use pnio_rs.Cm.Connect.Respond.{build_connect_res}
use pnio_rs.Cm.Write.{Record, WriteReq, build_write_res}
use pnio_rs.Cm.Ar.Types.{
  ArState, idle, connected, app_ready_sent, in_data, Event, connect_req, write_req, prm_end_req,
  release_req, app_ready_rsp, tick, abort_req, Action, respond, call_controller, notify, ArContext,
  Ar, app_ready_timeout, app_ready_max_attempts, activity_timeout_unit, max_records,
  max_record_bytes,
}

-- The AR behind a handler and the handler's actions.
abbrev pub Outcome : Type 0
Outcome = Option (Ar × List Action)

abbrev pub reject : PnioStatus → Action
reject status = respond status []

abbrev pub wrong_state : Action
wrong_state = reject control_wrong_state

abbrev pub is_idle : ArState → Bool
is_idle idle = true
is_idle connected = false
is_idle app_ready_sent = false
is_idle in_data = false

-- `abort`: the AR behind it, and the action it reports.
abbrev pub aborted : Ar → Ar
aborted ar = record ar {
  ctx = none;
  app_ready_deadline = none;
  activity_deadline = none;
  app_ready_attempts = 0;
  state = idle;
}

abbrev pub abort_action : AbortReason → Action
abort_action reason = notify idle (some reason)

unfoldable pub next_deadline : Ar → Option ℕ
next_deadline ar = elim ar.activity_deadline [
  | none ↦ ar.app_ready_deadline
  | some a ↦ elim ar.app_ready_deadline [ none ↦ some a | some b ↦ some (min a b) ]
]

abbrev pub activity_from : ℕ → ArParams → ℕ
activity_from now params = now + activity_timeout_unit * params.activity_timeout_factor

abbrev pub established : Ar → ArParams → ℕ → Ar
established ar params now = record ar {
  ctx = some (record {
    params = params;
    records = [];
    connected_at = now;
    connect_res = build_connect_res params ar.model;
  });
  state = connected;
  activity_deadline = some (activity_from now params);
}

abbrev pub answer_connect : Ar → Result PnioStatus ArParams → ℕ → Ar × List Action
answer_connect ar (ok params) now = (
  established ar params now,
  respond status_ok (build_connect_res params ar.model) ∷ notify connected none ∷ [],
)
answer_connect ar (err status) now = (ar, respond status [] ∷ [])

-- The arm of `handle_connect` for `Idle`.
unfoldable pub connect_idle : Ar → ConnectReq → ℕ → Ar × List Action
connect_idle ar req now = answer_connect ar (validate req ar.model) now

-- The other arm. The recursive call finds the AR in `Idle`.
abbrev pub reconnect : Ar → ConnectReq → ℕ → Ar × List Action
reconnect ar req now =
    let (ar', actions) = connect_idle (aborted ar) req now in
    (ar', abort_action controller_reconnect ∷ actions)

abbrev pub connect_in : Ar → ArContext → ConnectReq → ℕ → Ar × List Action
connect_in ar c req now =
    if uuid_eq req.ar.ar_uuid c.params.ar_uuid && req.ar.session_key == c.params.session_key
    then (ar, respond status_ok c.connect_res ∷ [])
    else if uuid_eq req.ar.ar_uuid c.params.ar_uuid
        || uuid_eq req.ar.initiator_object_uuid c.params.initiator_object_uuid
    then reconnect ar req now
    else (ar, respond connect_ar_already_exists [] ∷ [])

-- `self.ctx.as_ref().expect(..)`, and what follows.
abbrev pub with_ctx : Ar → (ArContext → Ar × List Action) → Outcome
with_ctx ar k = elim ar.ctx [ none ↦ none | some c ↦ some (k c) ]

unfoldable pub handle_connect : Ar → ConnectReq → ℕ → Outcome
handle_connect ar req now = elim ar.state [
  | idle ↦ some (connect_idle ar req now)
  | connected ↦ with_ctx ar (λ c. connect_in ar c req now)
  | app_ready_sent ↦ with_ctx ar (λ c. connect_in ar c req now)
  | in_data ↦ with_ctx ar (λ c. connect_in ar c req now)
]

abbrev pub data_bytes : List Record → ℕ
data_bytes [] = 0
data_bytes (r ∷ rs) = length r.payload + data_bytes rs

unfoldable pub exceeds_record_cap : ArContext → List Record → Bool
exceeds_record_cap c incoming =
    ltb max_records (length c.records + length incoming)
    || ltb max_record_bytes (data_bytes (c.records ++ incoming))

abbrev pub is_foreign : ArContext → Record → Bool
is_foreign c r = not (uuid_eq r.ar_uuid c.params.ar_uuid)

abbrev pub stored : Ar → ArContext → List Record → Ar
stored ar c incoming = record ar { ctx = some (record c { records = c.records ++ incoming }) }

abbrev pub rearmed : ArState → Ar → ℕ → Ar
rearmed connected ar deadline = record ar { activity_deadline = some deadline }
rearmed idle ar deadline = ar
rearmed app_ready_sent ar deadline = ar
rearmed in_data ar deadline = ar

abbrev pub write_in : Ar → ArContext → WriteReq → ℕ → Ar × List Action
write_in ar c req now =
    if any (is_foreign c) req.records
    then (ar, reject write_wrong_ar ∷ [])
    else if exceeds_record_cap c req.records
    then (ar, reject write_resource_unavailable ∷ [])
    else (
      rearmed ar.state (stored ar c req.records) (activity_from now c.params),
      respond status_ok (build_write_res req) ∷ [],
    )

unfoldable pub handle_write : Ar → WriteReq → ℕ → Outcome
handle_write ar req now = elim ar.state [
  | idle ↦ some (ar, wrong_state ∷ [])
  | connected ↦ with_ctx ar (λ c. write_in ar c req now)
  | app_ready_sent ↦ with_ctx ar (λ c. write_in ar c req now)
  | in_data ↦ with_ctx ar (λ c. write_in ar c req now)
]

-- The ApplicationReady call, built from the AR's own context.
abbrev pub ready_call : ArContext → Action
ready_call c = call_controller (Control.write (app_ready_req c.params.ar_uuid c.params.session_key))

abbrev pub parameterized : Ar → ℕ → Ar
parameterized ar now = record ar {
  state = app_ready_sent;
  app_ready_attempts = 1;
  app_ready_deadline = some (now + app_ready_timeout);
  activity_deadline = none;
}

abbrev pub prm_end_answer : ControlBlock → Action
prm_end_answer req = respond status_ok (Control.write (prm_end_done req))

abbrev pub prm_end_connected : Ar → ArContext → ControlBlock → ℕ → Ar × List Action
prm_end_connected ar c req now =
    if not (uuid_eq req.ar_uuid c.params.ar_uuid)
    then (ar, wrong_state ∷ [])
    else (parameterized ar now, prm_end_answer req ∷ ready_call c ∷ [])

abbrev pub prm_end_again : Ar → ArContext → ControlBlock → Ar × List Action
prm_end_again ar c req =
    if not (uuid_eq req.ar_uuid c.params.ar_uuid)
    then (ar, wrong_state ∷ [])
    else (ar, prm_end_answer req ∷ [])

unfoldable pub handle_prm_end : Ar → ControlBlock → ℕ → Outcome
handle_prm_end ar req now = elim ar.state [
  | idle ↦ some (ar, wrong_state ∷ [])
  | connected ↦ with_ctx ar (λ c. prm_end_connected ar c req now)
  | app_ready_sent ↦ with_ctx ar (λ c. prm_end_again ar c req)
  | in_data ↦ with_ctx ar (λ c. prm_end_again ar c req)
]

abbrev pub release_answer : ControlBlock → Action
release_answer req = respond status_ok (Control.write (release_done req))

abbrev pub release_in : Ar → ArContext → ControlBlock → Ar × List Action
release_in ar c req =
    if not (uuid_eq req.ar_uuid c.params.ar_uuid)
    then (ar, wrong_state ∷ [])
    else (aborted ar, release_answer req ∷ abort_action controller_release ∷ [])

unfoldable pub handle_release : Ar → ControlBlock → Outcome
handle_release ar req =
    if is_idle ar.state
    then some (ar, release_answer req ∷ [])
    else with_ctx ar (λ c. release_in ar c req)

abbrev pub in_data_now : Ar → Ar
in_data_now ar = record ar {
  state = in_data;
  app_ready_deadline = none;
  activity_deadline = none;
  app_ready_attempts = 0;
}

unfoldable pub handle_app_ready_rsp : Ar → PnioStatus → Ar × List Action
handle_app_ready_rsp ar status = elim ar.state [
  | idle ↦ (ar, [])
  | connected ↦ (ar, [])
  | in_data ↦ (ar, [])
  | app_ready_sent ↦
      if is_ok status
      then (in_data_now ar, notify in_data none ∷ [])
      else (aborted ar, abort_action (app_ready_rejected status) ∷ [])
]

-- `Some(deadline) if now >= deadline`
abbrev pub due : Option ℕ → ℕ → Bool
due none now = false
due (some deadline) now = leb deadline now

abbrev pub tick_connected : Ar → ℕ → Ar × List Action
tick_connected ar now =
    if due ar.activity_deadline now
    then (aborted ar, abort_action activity_timeout ∷ [])
    else (ar, [])

abbrev pub called_again : Ar → ℕ → Ar
called_again ar now = record ar {
  app_ready_attempts = ar.app_ready_attempts + 1;
  app_ready_deadline = some (now + app_ready_timeout);
}

abbrev pub tick_app_ready : Ar → ℕ → Outcome
tick_app_ready ar now =
    if due ar.app_ready_deadline now
    then (if ltb ar.app_ready_attempts app_ready_max_attempts
        then with_ctx ar (λ c. (called_again ar now, ready_call c ∷ []))
        else some (aborted ar, abort_action app_ready_failed ∷ []))
    else some (ar, [])

unfoldable pub handle_tick : Ar → ℕ → Outcome
handle_tick ar now = elim ar.state [
  | idle ↦ some (ar, [])
  | connected ↦ some (tick_connected ar now)
  | app_ready_sent ↦ tick_app_ready ar now
  | in_data ↦ some (ar, [])
]

unfoldable pub handle_abort : Ar → AbortReason → Ar × List Action
handle_abort ar reason =
    if is_idle ar.state then (ar, []) else (aborted ar, abort_action reason ∷ [])

unfoldable pub on : Ar → Event → ℕ → Outcome
on ar (connect_req req) now = handle_connect ar req now
on ar (write_req req) now = handle_write ar req now
on ar (prm_end_req req) now = handle_prm_end ar req now
on ar (release_req req) now = handle_release ar req
on ar (app_ready_rsp status) now = some (handle_app_ready_rsp ar status)
on ar tick now = handle_tick ar now
on ar (abort_req reason) now = some (handle_abort ar reason)
