-- ===== src/Cm/Ar/Types.antt =====
-- crates/pnio/src/cm/ar.rs: the AR's state, its events and its actions. Instants and durations are
-- numbers of nanoseconds on one clock.
use pnio_rs.Prelude.{ℕ, Option, none, List, Bytes}
use pnio_rs.Cm.Status.{PnioStatus}
use pnio_rs.Cm.Abort.{AbortReason}
use pnio_rs.Cm.Model.{DeviceModel}
use pnio_rs.Cm.Connect.{ConnectReq, ArParams}
use pnio_rs.Cm.Control.{ControlBlock}
use pnio_rs.Cm.Write.{Record, WriteReq}

-- `Duration::from_secs(1)`
abbrev pub app_ready_timeout : ℕ
app_ready_timeout = 1000000000

abbrev pub app_ready_max_attempts : ℕ
app_ready_max_attempts = 3

-- `Duration::from_millis(100)`
abbrev pub activity_timeout_unit : ℕ
activity_timeout_unit = 100000000

abbrev pub max_records : ℕ
max_records = 64

abbrev pub max_record_bytes : ℕ
max_record_bytes = 65536

pub data ArState : Type 0 where
  idle connected app_ready_sent in_data : ArState

pub data Event : Type 0 where
  connect_req : ConnectReq → Event
  write_req : WriteReq → Event
  prm_end_req release_req : ControlBlock → Event
  app_ready_rsp : PnioStatus → Event
  tick : Event
  abort_req : AbortReason → Event

pub data Action : Type 0 where
  respond : PnioStatus → Bytes → Action
  call_controller : Bytes → Action
  notify : ArState → Option AbortReason → Action

pub record ArContext : Type 0 where
  pub params : ArParams
  pub records : List Record
  pub connected_at : ℕ
  pub connect_res : Bytes

pub record Ar : Type 0 where
  pub model : DeviceModel
  pub state : ArState
  pub ctx : Option ArContext
  pub app_ready_attempts : ℕ
  pub app_ready_deadline : Option ℕ
  pub activity_deadline : Option ℕ

abbrev pub new : DeviceModel → Ar
new model = record {
  model = model;
  state = idle;
  ctx = none;
  app_ready_attempts = 0;
  app_ready_deadline = none;
  activity_deadline = none;
}
