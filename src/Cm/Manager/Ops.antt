-- ===== src/Cm/Manager/Ops.antt =====
-- crates/pnio/src/cm/mod.rs: the handling of a datagram and of a tick. An operation returns the
-- manager behind it and its output; `panic` is an `expect` that fails.
use pnio_rs.Prelude.{ℕ, ◌+◌, Bool, true, false, not, ◌&&◌, Option, none, some, List, []}
use pnio_rs.Prelude.{◌∷◌, ◌++◌, Bytes, length, drop, any, find, leb, ◌==◌, if◌then◌else◌, u32}
use pnio_rs.Prelude.{Result, ok, err, ◌>>=◌, ◌>>◌, fail_if}
use pnio_rs.Rpc.Uuid.{Uuid, uuid_eq, pnio_device_interface}
use pnio_rs.Rpc.Errors.{RpcError, bad_interface, unwrap}
use pnio_rs.Rpc.Header.{
  RpcHeader, PacketType, request, ping, response, fault, working, nocall, reject, ack, cl_cancel,
  fack, cancel_ack, Opnum, connect, release, read, write_op, control, read_implicit, opnum_of,
  header_len,
}
use pnio_rs.Rpc.Header
use pnio_rs.Rpc.Ndr.{parse_request, parse_response}
use pnio_rs.Im.{ImStore, index_im1, index_im3}
use pnio_rs.Cm.Status.{
  PnioStatus, status_ok, is_ok, connect_reject, ar_block, write_index_unsupported,
  control_wrong_state, service_unsupported, read_index_unsupported, read_wrong_ar,
}
use pnio_rs.Cm.Abort.{AbortReason}
use pnio_rs.Cm.Model.{DeviceModel}
use pnio_rs.Cm.Control.{CmError, block_error, ControlBlock, prm_end}
use pnio_rs.Cm.Control.{CmError}
use pnio_rs.Cm.Control
use pnio_rs.Cm.Connect.{ConnectReq}
use pnio_rs.Cm.Connect.Parse as ConnectParse
use pnio_rs.Cm.Write.{Record, WriteReq}
use pnio_rs.Cm.Write
use pnio_rs.Cm.Records.Fields.{ReadReq}
use pnio_rs.Cm.Records.{RecordCtx, read_record, build_read_res, write_im_record}
use pnio_rs.Cm.Records
use pnio_rs.Cm.Ar.Types.{
  Ar, ArState, idle, connected, app_ready_sent, in_data, Event, connect_req, write_req, prm_end_req,
  release_req, app_ready_rsp, tick, abort_req, Action, respond, call_controller, notify,
}
use pnio_rs.Cm.Ar.Ops.{on}
use pnio_rs.Cm.Manager.Types.{
  Cm, CmOutput, no_output, SocketAddr, RespondCtx, Key, cache_capacity, pnio_udp_port,
}
use pnio_rs.Cm.Manager.Pdu.{build_response_pdu, call_pdu}

-- The manager behind a step, with the AR's actions, and with the output of a call.
abbrev pub Acted : Type 0
Acted = Result RpcError (Cm × List Action)

abbrev pub Turn : Type 0
Turn = Result RpcError (Cm × CmOutput)

abbrev pub error_status : CmError → PnioStatus → PnioStatus
error_status (CmError.reject status) default_status = status
error_status (CmError.block_error e) default_status = default_status

abbrev pub refuse : PnioStatus → List Action
refuse status = respond status [] ∷ []

abbrev pub respond_ok : Bytes → List Action
respond_ok blocks = respond status_ok blocks ∷ []

abbrev pub key_eq : Key → Key → Bool
key_eq a b = uuid_eq a.0 b.0 && a.1 == b.1

abbrev second : Option (Key × Bytes) → Option Bytes
second none = none
second (some entry) = some entry.1

unfoldable pub cache_lookup : List (Key × Bytes) → Key → Option Bytes
cache_lookup cache key = second (find (λ entry. key_eq entry.0 key) cache)

-- `pop_front` at the capacity, then `push_back`.
unfoldable pub cache_insert : List (Key × Bytes) → Key → Bytes → List (Key × Bytes)
cache_insert cache key pdu =
    (if leb cache_capacity (length cache) then drop 1 cache else cache) ++ ((key, pdu) ∷ [])

-- The object that a call goes to: the initiator of the AR.
abbrev call_object : Cm → Result RpcError Uuid
call_object cm = unwrap cm.ar.ctx >>= λ c. ok c.params.initiator_object_uuid

-- The sequence number of a call, and the manager that has taken it. `call_seq` is a `u32`.
abbrev take_seq : Cm → Bool → Result RpcError (ℕ × Cm)
take_seq cm true = ok (
  cm.call_seq,
  record cm { call_seq = u32 (cm.call_seq + 1); current_call_seq = some cm.call_seq },
)
take_seq cm false = unwrap cm.current_call_seq >>= λ seq_num. ok (seq_num, cm)

unfoldable pub build_call_pdu : Cm → Bytes → Bool → Result RpcError (Bytes × Cm)
build_call_pdu cm blocks is_new = do
  object ← call_object cm
  (seq_num, cm') ← take_seq cm is_new
  ok (call_pdu object cm.activity_seed seq_num blocks, cm')

abbrev pub pushed : CmOutput → Bytes → SocketAddr → CmOutput
pushed out bytes to = record out { send = out.send ++ (record { bytes = bytes; to = to } ∷ []) }

abbrev answer : Cm → PnioStatus → Bytes → Option (RespondCtx × Key) → CmOutput → Cm × CmOutput
answer cm status blocks none out = (cm, out)
answer cm status blocks (some (ctx, key)) out =
    let pdu = build_response_pdu ctx status blocks in
    (record cm { cache = cache_insert cm.cache key pdu }, pushed out pdu ctx.from)

-- The body of the loop over the actions.
unfoldable pub apply_one : Cm → Action → Option (RespondCtx × Key) → Bool → CmOutput → Turn
apply_one cm (respond status blocks) ctx is_new out = ok (answer cm status blocks ctx out)
apply_one cm (call_controller blocks) ctx is_new out = do
  to ← unwrap cm.controller_addr
  (pdu, cm') ← build_call_pdu cm blocks is_new
  ok (cm', pushed out pdu to)
apply_one cm (notify state reason) ctx is_new out =
    ok (cm, record out { notices = out.notices ++ ((state, reason) ∷ []) })

unfoldable pub apply : Cm → List Action → Option (RespondCtx × Key) → Bool → CmOutput → Turn
apply cm [] ctx is_new out = ok (cm, out)
apply cm (action ∷ actions) ctx is_new out =
    apply_one cm action ctx is_new out >>= λ (turn : Cm × CmOutput).
    apply turn.0 actions ctx is_new turn.1

-- An event for the AR.
unfoldable pub feed : Cm → Event → ℕ → Acted
feed cm ev now =
    unwrap (on cm.ar ev now) >>= λ (r : Ar × List Action). ok (record cm { ar = r.0 }, r.1)

abbrev is_connected : ArState → Bool
is_connected connected = true
is_connected idle = false
is_connected app_ready_sent = false
is_connected in_data = false

-- `Action::Notify { state: Connected, .. }`
abbrev pub opens : Action → Bool
opens (notify state reason) = is_connected state
opens (respond status blocks) = false
opens (call_controller blocks) = false

abbrev pub opened : SocketAddr → Cm × List Action → Cm × List Action
opened from r =
    if any opens r.1
    then (
      record r.0 {
        controller_addr = some (record { ip = from.ip; port = pnio_udp_port });
        current_call_seq = none;
      },
      r.1,
    )
    else r

abbrev pub connect_parsed : Cm → Result CmError ConnectReq → ℕ → Acted
connect_parsed cm (ok req) now = feed cm (connect_req req) now
connect_parsed cm (err e) now = ok (cm, refuse (error_status e (connect_reject ar_block 0xfe)))

unfoldable pub on_connect : Cm → Bytes → SocketAddr → ℕ → Acted
on_connect cm blocks from now =
    connect_parsed cm (ConnectParse.parse blocks) now >>= λ (r : Cm × List Action).
    ok (opened from r)

-- `Action::Respond { status, .. } if status.is_ok()`
abbrev pub accepts : Action → Bool
accepts (respond status blocks) = is_ok status
accepts (notify state reason) = false
accepts (call_controller blocks) = false

abbrev is_im_index : ℕ → Bool
is_im_index index = leb index_im1 index && leb index index_im3

unfoldable pub store_records : DeviceModel → List Record → ImStore → ImStore
store_records model [] im = im
store_records model (r ∷ rs) im =
    store_records model rs (if is_im_index r.index then (write_im_record r model im).0 else im)

abbrev pub stored : List Record → Cm × List Action → Cm × List Action
stored records r =
    if any accepts r.1 then (record r.0 { im = store_records r.0.model records r.0.im }, r.1) else r

abbrev pub write_parsed : Cm → Result CmError WriteReq → ℕ → Acted
write_parsed cm (ok req) now =
    feed cm (write_req req) now >>= λ (r : Cm × List Action). ok (stored req.records r)
write_parsed cm (err e) now = ok (cm, refuse (error_status e write_index_unsupported))

unfoldable pub on_write : Cm → Bytes → ℕ → Acted
on_write cm blocks now = write_parsed cm (Write.parse blocks) now

abbrev pub control_parsed : Cm → Result CmError ControlBlock → ℕ → Acted
control_parsed cm (ok cb) now =
    if cb.command == prm_end
    then feed cm (prm_end_req cb) now
    else ok (cm, refuse control_wrong_state)
control_parsed cm (err e) now = ok (cm, refuse (error_status e control_wrong_state))

unfoldable pub on_control : Cm → Bytes → ℕ → Acted
on_control cm blocks now = control_parsed cm (Control.parse blocks) now

abbrev pub release_parsed : Cm → Result CmError ControlBlock → ℕ → Acted
release_parsed cm (ok cb) now = feed cm (release_req cb) now
release_parsed cm (err e) now = ok (cm, refuse (error_status e control_wrong_state))

unfoldable pub on_release : Cm → Bytes → ℕ → Acted
on_release cm blocks now = release_parsed cm (Control.parse blocks) now

abbrev matches_ar : Cm → ReadReq → Bool
matches_ar cm req = elim cm.ar.ctx [ none ↦ false | some c ↦ uuid_eq c.params.ar_uuid req.ar_uuid ]

abbrev record_answer : ReadReq → Option Bytes → List Action
record_answer req none = refuse read_index_unsupported
record_answer req (some content) = respond_ok (build_read_res req content)

unfoldable pub handle_read : Cm → ReadReq → Bool → List Action
handle_read cm req check_ar =
    if check_ar && not (matches_ar cm req)
    then refuse read_wrong_ar
    else record_answer req (read_record req (record { model = cm.model; im0 = cm.im0; im = cm.im }))

-- A read changes nothing.
abbrev pub read_parsed : Cm → Result CmError ReadReq → Bool → List Action
read_parsed cm (ok req) check_ar = handle_read cm req check_ar
read_parsed cm (err e) check_ar = refuse (error_status e read_index_unsupported)

unfoldable pub on_read : Cm → Bytes → Bool → Acted
on_read cm blocks check_ar = ok (cm, read_parsed cm (Records.parse blocks) check_ar)

unfoldable pub dispatch : Cm → Option Opnum → Bytes → SocketAddr → ℕ → Acted
dispatch cm (some connect) blocks from now = on_connect cm blocks from now
dispatch cm (some write_op) blocks from now = on_write cm blocks now
dispatch cm (some control) blocks from now = on_control cm blocks now
dispatch cm (some release) blocks from now = on_release cm blocks now
dispatch cm (some read) blocks from now = on_read cm blocks true
dispatch cm (some read_implicit) blocks from now = on_read cm blocks false
dispatch cm none blocks from now = ok (cm, refuse service_unsupported)

abbrev pub key_of : RpcHeader → Key
key_of h = (h.activity, h.seq_num)

abbrev pub respond_ctx : RpcHeader → ℕ → SocketAddr → RespondCtx
respond_ctx h args_max from = record {
  object = h.object;
  interface_id = h.interface_id;
  activity = h.activity;
  seq_num = h.seq_num;
  opnum = h.opnum;
  args_max = args_max;
  from = from;
}

-- A request that is not in the cache.
unfoldable pub on_new_request : Cm → RpcHeader → Bytes → SocketAddr → ℕ → Turn
on_new_request cm h body from now = do
  (req, blocks) ← parse_request body h.drep
  (cm', actions) ← dispatch cm (opnum_of h.opnum) blocks from now
  apply cm' actions (some (respond_ctx h req.args_max from, key_of h)) true no_output

abbrev pub from_cache : Cm → RpcHeader → Bytes → SocketAddr → ℕ → Option Bytes → Turn
from_cache cm h body from now (some bytes) = ok (cm, pushed no_output bytes from)
from_cache cm h body from now none = on_new_request cm h body from now

unfoldable pub on_request : Cm → RpcHeader → Bytes → SocketAddr → ℕ → Turn
on_request cm h body from now = do
  fail_if (not (uuid_eq h.interface_id pnio_device_interface)) (bad_interface h.interface_id)
  from_cache cm h body from now (cache_lookup cm.cache (key_of h))

-- The controller's answer to ApplicationReady.
unfoldable pub on_response : Cm → RpcHeader → Bytes → ℕ → Turn
on_response cm h body now = do
  (n, blocks) ← parse_response body h.drep
  (cm', actions) ← feed cm (app_ready_rsp (record { value = n.status })) now
  apply cm' actions none false no_output

abbrev pub by_type : Cm → RpcHeader → PacketType → Bytes → SocketAddr → ℕ → Turn
by_type cm h response body from now = on_response cm h body now
by_type cm h request body from now = on_request cm h body from now
by_type cm h ping body from now = ok (cm, no_output)
by_type cm h fault body from now = ok (cm, no_output)
by_type cm h working body from now = ok (cm, no_output)
by_type cm h nocall body from now = ok (cm, no_output)
by_type cm h reject body from now = ok (cm, no_output)
by_type cm h ack body from now = ok (cm, no_output)
by_type cm h cl_cancel body from now = ok (cm, no_output)
by_type cm h fack body from now = ok (cm, no_output)
by_type cm h cancel_ack body from now = ok (cm, no_output)

unfoldable pub handle_datagram : Cm → Bytes → SocketAddr → ℕ → Turn
handle_datagram cm buf from now = do
  h ← Header.parse buf
  by_type cm h h.ptype (drop header_len buf) from now

-- `tick` and `abort`
unfoldable pub drive : Cm → Event → ℕ → Turn
drive cm ev now = do (cm', actions) ← feed cm ev now; apply cm' actions none false no_output

unfoldable pub on_tick : Cm → ℕ → Turn
on_tick cm now = drive cm tick now

unfoldable pub on_abort : Cm → AbortReason → ℕ → Turn
on_abort cm reason now = drive cm (abort_req reason) now
