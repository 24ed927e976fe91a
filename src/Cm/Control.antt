-- ===== src/Cm/Control.antt =====
-- crates/pnio/src/cm/control.rs: PrmEnd, ApplicationReady and Release.
pub mod RoundTrip
use pnio_rs.Prelude.{ℕ, Bool, ◌||◌, not, ◌==◌, Bytes, length, List, [], ◌++◌, be16}
use pnio_rs.Prelude.{Result, ok, err, ◌>>=◌, ◌>>◌, fail_if, map_err}
use pnio_rs.Rpc.Drep.{big}
use pnio_rs.Rpc.Uuid.{Uuid}
use pnio_rs.Rpc.Uuid
use pnio_rs.Cm.Status.{PnioStatus}
use pnio_rs.Cm.Block.{BlockError, unexpected_type, malformed}
use pnio_rs.Cm.Block
use pnio_rs.Cm.Control.Body.{ControlFields, parse_fields}
pub mod Body

-- crates/pnio/src/cm/mod.rs: `CmError`
pub data CmError : Type 0 where
  block_error : BlockError → CmError
  reject : PnioStatus → CmError

abbrev pub iod_control_req_prm_end : ℕ
iod_control_req_prm_end = 0x0110

abbrev pub iox_block_req_app_ready : ℕ
iox_block_req_app_ready = 0x0112

abbrev pub release_block_req : ℕ
release_block_req = 0x0114

abbrev pub iod_control_res_prm_end : ℕ
iod_control_res_prm_end = 0x8110

abbrev pub iox_block_res_app_ready : ℕ
iox_block_res_app_ready = 0x8112

abbrev pub release_block_res : ℕ
release_block_res = 0x8114

-- `cmd::PRM_END`, `cmd::APPLICATION_READY` and `cmd::DONE`
abbrev pub prm_end : ℕ
prm_end = 0x0001

abbrev pub application_ready : ℕ
application_ready = 0x0002

abbrev pub done : ℕ
done = 0x0008

abbrev pub body_len : ℕ
body_len = 26

pub record ControlBlock : Type 0 where
  pub block_type : ℕ
  pub ar_uuid : Uuid
  pub session_key : ℕ
  pub command : ℕ
  pub properties : ℕ

unfoldable pub is_control_type : ℕ → Bool
is_control_type t =
    t == iod_control_req_prm_end
    || (t == iod_control_res_prm_end
        || (t == iox_block_req_app_ready
            || (t == iox_block_res_app_ready
                || (t == release_block_req || t == release_block_res))))

abbrev with_type : ℕ → ControlFields → ControlBlock
with_type t f = record {
  block_type = t;
  ar_uuid = f.ar_uuid;
  session_key = f.session_key;
  command = f.command;
  properties = f.properties;
}

unfoldable pub parse : Bytes → Result CmError ControlBlock
parse blocks = do
  (header, body) ← map_err block_error (Block.parse blocks)
  fail_if (not (is_control_type header.block_type))
      (block_error (unexpected_type iod_control_req_prm_end header.block_type))
  fail_if (not (length body == body_len)) (block_error (malformed "control block body length"))
  fields ← map_err block_error (parse_fields body)
  ok (with_type header.block_type fields)

unfoldable pub write : ControlBlock → Bytes
write b =
    Block.write b.block_type body_len
    ++ (be16 0
        ++ (Uuid.write b.ar_uuid big
            ++ (be16 b.session_key ++ (be16 0 ++ (be16 b.command ++ be16 b.properties)))))

unfoldable pub prm_end_done : ControlBlock → ControlBlock
prm_end_done req = record {
  block_type = iod_control_res_prm_end;
  ar_uuid = req.ar_uuid;
  session_key = req.session_key;
  command = done;
  properties = 0;
}

unfoldable pub app_ready_req : Uuid → ℕ → ControlBlock
app_ready_req ar_uuid session_key = record {
  block_type = iox_block_req_app_ready;
  ar_uuid = ar_uuid;
  session_key = session_key;
  command = application_ready;
  properties = 0;
}

unfoldable pub release_done : ControlBlock → ControlBlock
release_done req = record {
  block_type = release_block_res;
  ar_uuid = req.ar_uuid;
  session_key = req.session_key;
  command = done;
  properties = 0;
}
