-- ===== src/Cm/Ar/Invariant.antt =====
-- The AR's invariant, which every event keeps without a panic.
use pnio_rs.Prelude.{ℕ, ◌+◌, ◌≤◌, ◌≡◌, arith, refl, false, none, some}
use pnio_rs.Prelude.{
  List, [], ◌∷◌, ◌++◌, length, length-append, All, All-append, any, Result, ok, err,
}
use pnio_rs.Rpc.Uuid.{uuid_eq_sound}
use pnio_rs.Cm.Status.{PnioStatus}
use pnio_rs.Cm.Abort.{AbortReason}
use pnio_rs.Cm.Model.{DeviceModel}
use pnio_rs.Cm.Connect.{ConnectReq, ArParams}
use pnio_rs.Cm.Connect.Validate.{validate}
use pnio_rs.Cm.Connect.Respond.{build_connect_res}
use pnio_rs.Cm.Control.{ControlBlock}
use pnio_rs.Cm.Write.{Record, WriteReq}
use pnio_rs.Cm.Ar.Types.{
  connected, app_ready_sent, in_data, Event, connect_req, write_req, prm_end_req, release_req,
  app_ready_rsp, tick, abort_req, ArContext, Ar, new, max_records, max_record_bytes,
  app_ready_timeout,
}
use pnio_rs.Cm.Ar.Ops.{
  Outcome, on, handle_connect, handle_write, handle_prm_end, handle_release, handle_app_ready_rsp,
  handle_tick, handle_abort, answer_connect, connect_idle, connect_in, data_bytes,
  exceeds_record_cap, is_foreign, write_in, rearmed, stored, activity_from,
}

-- The context comes from a Connect request that the model accepts, the cached response is the one
-- built for it, the records keep to both limits and all belong to this AR.
pub record IsContext (model : DeviceModel) (c : ArContext) : Type 0 where
  pub request : ConnectReq
  pub accepted : validate request model ≡ ok c.params
  pub cached : c.connect_res ≡ build_connect_res c.params model
  pub record_count : length c.records ≤ max_records
  pub record_bytes : data_bytes c.records ≤ max_record_bytes
  pub own_records : All (λ (r : Record). r.ar_uuid ≡ c.params.ar_uuid) c.records

-- What each state holds: no context and no deadline when idle, the activity deadline when
-- connected, one to three attempts and their deadline when ApplicationReady was sent, and no
-- deadline with cyclic data.
pub data IsAr : Ar → Type 0 where
  is_idle : (model : DeviceModel) → IsAr (new model)
  is_connected :
      (model : DeviceModel) (c : ArContext) (deadline : ℕ)
      → IsContext model c
      → IsAr (record {
        model = model;
        state = connected;
        ctx = some c;
        app_ready_attempts = 0;
        app_ready_deadline = none;
        activity_deadline = some deadline;
      })
  is_sent :
      (model : DeviceModel) (c : ArContext) (attempts deadline : ℕ)
      → IsContext model c
      → 1 ≤ attempts
      → attempts ≤ 3
      → IsAr (record {
        model = model;
        state = app_ready_sent;
        ctx = some c;
        app_ready_attempts = attempts;
        app_ready_deadline = some deadline;
        activity_deadline = none;
      })
  is_data :
      (model : DeviceModel) (c : ArContext)
      → IsContext model c
      → IsAr (record {
        model = model;
        state = in_data;
        ctx = some c;
        app_ready_attempts = 0;
        app_ready_deadline = none;
        activity_deadline = none;
      })

-- The handler does not panic, and the AR behind it keeps the invariant.
abbrev pub Keeps : Outcome → Type 0
Keeps none = ⊥
Keeps (some r) = IsAr r.0

answer-IsAr :
    (model : DeviceModel) (req : ConnectReq) (now : ℕ) (v : Result PnioStatus ArParams)
    → validate req model ≡ v
    → IsAr (answer_connect (new model) v now).0
answer-IsAr model req now (err status) e = is_idle model
answer-IsAr model req now (ok params) e = is_connected model _ _ (record {
  request = req;
  accepted = e;
  cached = refl;
  record_count = omega arith;
  record_bytes = omega arith;
  own_records = tt;
})

connect_idle-IsAr :
    (model : DeviceModel) (req : ConnectReq) (now : ℕ) → IsAr (connect_idle (new model) req now).0
unfolding connect_idle
connect_idle-IsAr model req now = answer-IsAr model req now (validate req model) refl

connect_in-IsAr :
    (ar : Ar) (c : ArContext)
    → IsAr ar
    → (req : ConnectReq) (now : ℕ) → IsAr (connect_in ar c req now).0
connect_in-IsAr ar c h req now = ground (arith, connect_idle-IsAr ar.model req now)

handle_connect-IsAr :
    (ar : Ar) → IsAr ar → (req : ConnectReq) (now : ℕ) → Keeps (handle_connect ar req now)
unfolding handle_connect
handle_connect-IsAr _ (is_idle model) req now = connect_idle-IsAr model req now
handle_connect-IsAr _ (is_connected model c d hc) req now =
    connect_in-IsAr _ c (is_connected model c d hc) req now
handle_connect-IsAr _ (is_sent model c a d hc h1 h3) req now =
    connect_in-IsAr _ c (is_sent model c a d hc h1 h3) req now
handle_connect-IsAr _ (is_data model c hc) req now =
    connect_in-IsAr _ c (is_data model c hc) req now

own_lem :
    (c : ArContext) (rs : List Record)
    → any (is_foreign c) rs ≡ false
    → All (λ (r : Record). r.ar_uuid ≡ c.params.ar_uuid) rs
own_lem c [] h = tt
own_lem c (r ∷ rs) h =
    (uuid_eq_sound r.ar_uuid c.params.ar_uuid (ground arith), own_lem c rs (ground arith))

stored-IsContext :
    (model : DeviceModel) (c : ArContext) (rs : List Record)
    → IsContext model c
    → any (is_foreign c) rs ≡ false
    → exceeds_record_cap c rs ≡ false
    → IsContext model (record c { records = c.records ++ rs })
unfolding exceeds_record_cap
stored-IsContext model c rs h f e = record {
  request = h.request;
  accepted = h.accepted;
  cached = h.cached;
  record_count = ground (arith, length-append c.records rs);
  record_bytes = ground arith;
  own_records = All-append _ c.records rs h.own_records (own_lem c rs f);
}

-- The AR behind an accepted write, in each state.
write_in-IsAr :
    (ar : Ar) (c : ArContext) (req : WriteReq) (now : ℕ)
    → IsAr ar
    → (any (is_foreign c) req.records ≡ false
        → exceeds_record_cap c req.records ≡ false
        → IsAr (rearmed ar.state (stored ar c req.records) (activity_from now c.params)))
    → IsAr (write_in ar c req now).0
write_in-IsAr ar c req now h k = ground arith

handle_write-IsAr :
    (ar : Ar) → IsAr ar → (req : WriteReq) (now : ℕ) → Keeps (handle_write ar req now)
unfolding handle_write
handle_write-IsAr _ (is_idle model) req now = is_idle model
handle_write-IsAr _ (is_connected model c d hc) req now =
    write_in-IsAr _ c req now (is_connected model c d hc)
      (λ f e. is_connected model _ _ (stored-IsContext model c req.records hc f e))
handle_write-IsAr _ (is_sent model c a d hc h1 h3) req now =
    write_in-IsAr _ c req now (is_sent model c a d hc h1 h3)
      (λ f e. is_sent model _ a d (stored-IsContext model c req.records hc f e) h1 h3)
handle_write-IsAr _ (is_data model c hc) req now =
    write_in-IsAr _ c req now (is_data model c hc)
      (λ f e. is_data model _ (stored-IsContext model c req.records hc f e))

handle_prm_end-IsAr :
    (ar : Ar) → IsAr ar → (req : ControlBlock) (now : ℕ) → Keeps (handle_prm_end ar req now)
unfolding handle_prm_end
handle_prm_end-IsAr _ (is_idle model) req now = is_idle model
handle_prm_end-IsAr _ (is_connected model c d hc) req now = ground (
  arith,
  is_connected model c d hc,
  is_sent model c 1 (now + app_ready_timeout) hc (omega arith) (omega arith),
)
handle_prm_end-IsAr _ (is_sent model c a d hc h1 h3) req now =
    ground (arith, is_sent model c a d hc h1 h3)
handle_prm_end-IsAr _ (is_data model c hc) req now = ground (arith, is_data model c hc)

handle_release-IsAr : (ar : Ar) → IsAr ar → (req : ControlBlock) → Keeps (handle_release ar req)
unfolding handle_release
handle_release-IsAr _ (is_idle model) req = is_idle model
handle_release-IsAr _ (is_connected model c d hc) req =
    ground (arith, is_connected model c d hc, is_idle model)
handle_release-IsAr _ (is_sent model c a d hc h1 h3) req =
    ground (arith, is_sent model c a d hc h1 h3, is_idle model)
handle_release-IsAr _ (is_data model c hc) req = ground (arith, is_data model c hc, is_idle model)

handle_app_ready_rsp-IsAr :
    (ar : Ar) → IsAr ar → (status : PnioStatus) → IsAr (handle_app_ready_rsp ar status).0
unfolding handle_app_ready_rsp
handle_app_ready_rsp-IsAr _ (is_idle model) status = is_idle model
handle_app_ready_rsp-IsAr _ (is_connected model c d hc) status = is_connected model c d hc
handle_app_ready_rsp-IsAr _ (is_sent model c a d hc h1 h3) status =
    ground (arith, is_data model c hc, is_idle model)
handle_app_ready_rsp-IsAr _ (is_data model c hc) status = is_data model c hc

handle_tick-IsAr : (ar : Ar) → IsAr ar → (now : ℕ) → Keeps (handle_tick ar now)
unfolding handle_tick
handle_tick-IsAr _ (is_idle model) now = is_idle model
handle_tick-IsAr _ (is_connected model c d hc) now =
    ground (arith, is_idle model, is_connected model c d hc)
handle_tick-IsAr _ (is_sent model c a d hc h1 h3) now = ground (
  arith,
  is_idle model,
  is_sent model c a d hc h1 h3,
  is_sent model c (a + 1) (now + app_ready_timeout) hc,
)
handle_tick-IsAr _ (is_data model c hc) now = is_data model c hc

handle_abort-IsAr : (ar : Ar) → IsAr ar → (reason : AbortReason) → IsAr (handle_abort ar reason).0
unfolding handle_abort
handle_abort-IsAr _ (is_idle model) reason = is_idle model
handle_abort-IsAr _ (is_connected model c d hc) reason = is_idle model
handle_abort-IsAr _ (is_sent model c a d hc h1 h3) reason = is_idle model
handle_abort-IsAr _ (is_data model c hc) reason = is_idle model

-- Every event, in every state that keeps the invariant, is handled without a panic, and the AR
-- behind it keeps the invariant.
pub on-IsAr : (ar : Ar) (ev : Event) (now : ℕ) → IsAr ar → Keeps (on ar ev now)
unfolding on
on-IsAr ar (connect_req req) now h = handle_connect-IsAr ar h req now
on-IsAr ar (write_req req) now h = handle_write-IsAr ar h req now
on-IsAr ar (prm_end_req req) now h = handle_prm_end-IsAr ar h req now
on-IsAr ar (release_req req) now h = handle_release-IsAr ar h req
on-IsAr ar (app_ready_rsp status) now h = handle_app_ready_rsp-IsAr ar h status
on-IsAr ar tick now h = handle_tick-IsAr ar h now
on-IsAr ar (abort_req reason) now h = handle_abort-IsAr ar h reason
