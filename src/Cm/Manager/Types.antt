-- ===== src/Cm/Manager/Types.antt =====
-- crates/pnio/src/cm/mod.rs: the state of the context manager and its output.
use pnio_rs.Prelude.{ℕ, Option, none, List, [], Bytes}
use pnio_rs.Rpc.Uuid.{Uuid}
use pnio_rs.Im.{Im0, ImStore, default_im0}
use pnio_rs.Im
use pnio_rs.Cm.Abort.{AbortReason}
use pnio_rs.Cm.Model.{DeviceModel}
use pnio_rs.Cm.Ar.Types.{Ar, ArState}
use pnio_rs.Cm.Ar.Types as ArTypes

abbrev pub rpc_args_max : ℕ
rpc_args_max = 1340

abbrev pub cache_capacity : ℕ
cache_capacity = 4

-- crates/pnio/src/rpc/mod.rs: `PNIO_UDP_PORT`
abbrev pub pnio_udp_port : ℕ
pnio_udp_port = 34964

-- `std::net::SocketAddr`; an IP address is a number.
pub record SocketAddr : Type 0 where
  pub ip : ℕ
  pub port : ℕ

pub record Outgoing : Type 0 where
  pub bytes : Bytes
  pub to : SocketAddr

pub record CmOutput : Type 0 where
  pub send : List Outgoing
  pub notices : List (ArState × Option AbortReason)

-- `CmOutput::default()`
abbrev pub no_output : CmOutput
no_output = record { send = []; notices = [] }

pub record RespondCtx : Type 0 where
  pub object : Uuid
  pub interface_id : Uuid
  pub activity : Uuid
  pub seq_num : ℕ
  pub opnum : ℕ
  pub args_max : ℕ
  pub from : SocketAddr

-- The cache's key: activity and sequence number.
abbrev pub Key : Type 0
Key = Uuid × ℕ

pub record Cm : Type 0 where
  pub ar : Ar
  pub model : DeviceModel
  pub im0 : Im0
  pub im : ImStore
  pub activity_seed : Uuid
  pub call_seq : ℕ
  pub current_call_seq : Option ℕ
  pub controller_addr : Option SocketAddr
  pub cache : List (Key × Bytes)

abbrev pub new : DeviceModel → Uuid → Cm
new model activity_seed = record {
  ar = ArTypes.new model;
  model = model;
  im0 = default_im0;
  im = Im.new;
  activity_seed = activity_seed;
  call_seq = 0;
  current_call_seq = none;
  controller_addr = none;
  cache = [];
}

abbrev pub set_im : Cm → Im0 → ImStore → Cm
set_im cm im0 store = record cm { im0 = im0; im = store }
