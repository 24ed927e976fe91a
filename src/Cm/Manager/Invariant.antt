-- ===== src/Cm/Manager/Invariant.antt =====
-- The manager's invariant, which every datagram, tick and abort keeps without a panic.
use pnio_rs.Prelude.{ℕ, arith, true, false, Option, none, some}
use pnio_rs.Prelude.{Bytes, drop, Result, ok, err, ◌>>=◌}
use pnio_rs.Rpc.Errors.{RpcError, NoPanic}
use pnio_rs.Cm.Ar.Types.{app_ready_rsp, tick, abort_req}
use pnio_rs.Cm.Ar.Ops.{on, handle_app_ready_rsp, handle_abort}
use pnio_rs.Rpc.Header.{
  RpcHeader, PacketType, request, ping, response, fault, working, nocall, reject, ack, cl_cancel,
  fack, cancel_ack, opnum_of, header_len,
}
use pnio_rs.Rpc.Ndr.{parse_request, parse_response}
use pnio_rs.Cm.Abort.{AbortReason}
use pnio_rs.Cm.Manager.Types.{Cm, SocketAddr, no_output}
use pnio_rs.Cm.Manager.Ops.{
  Turn, dispatch, on_new_request, on_request, on_response, from_cache, by_type, handle_datagram,
  drive, on_tick, on_abort, cache_lookup, key_of, respond_ctx, feed,
}
use pnio_rs.Cm.Manager.Calls.{app_ready_rsp-Silent, abort-Silent, tick-AppliesTo, Silent-AppliesTo}
use pnio_rs.Cm.Manager.Ready.{IsCm, Fine, then-Fine}
use pnio_rs.Cm.Manager.Dispatch.{dispatch-Ready, feed-StepsReady}
use pnio_rs.Rpc.Header
use pnio_rs.Rpc.Header.RoundTrip.{parse-NoPanic}
use pnio_rs.Rpc.Ndr.Laws.{parse_request-NoPanic, parse_response-NoPanic}

-- A chain that starts with a reader that does not panic.
read-Fine :
    {A : Type 0} (m : Result RpcError A) (next : A → Turn)
    → NoPanic m
    → ((a : A) → Fine (next a))
    → Fine (m >>= next)
read-Fine (ok a) next h k = k a
read-Fine (err e) next h k = h

on_new_request-Fine :
    (cm : Cm) (hd : RpcHeader) (body : Bytes) (from : SocketAddr) (now : ℕ)
    → IsCm cm
    → Fine (on_new_request cm hd body from now)
unfolding on_new_request
on_new_request-Fine cm hd body from now h =
    read-Fine (parse_request body hd.drep) _ (parse_request-NoPanic body hd.drep) (λ r.
      then-Fine true (dispatch cm (opnum_of hd.opnum) r.1 from now)
        (some (respond_ctx hd r.0.args_max from, key_of hd)) no_output
        (dispatch-Ready cm (opnum_of hd.opnum) r.1 from now h))

from_cache-Fine :
    (cm : Cm) (hd : RpcHeader) (body : Bytes) (from : SocketAddr) (now : ℕ) (found : Option Bytes)
    → IsCm cm
    → Fine (from_cache cm hd body from now found)
from_cache-Fine cm hd body from now (some bytes) h = h
from_cache-Fine cm hd body from now none h = on_new_request-Fine cm hd body from now h

on_request-Fine :
    (cm : Cm) (hd : RpcHeader) (body : Bytes) (from : SocketAddr) (now : ℕ)
    → IsCm cm
    → Fine (on_request cm hd body from now)
unfolding on_request
on_request-Fine cm hd body from now h =
    let found : Fine (from_cache cm hd body from now (cache_lookup cm.cache (key_of hd))) =
      from_cache-Fine cm hd body from now (cache_lookup cm.cache (key_of hd)) h in
    ground (arith, found)

on_response-Fine :
    (cm : Cm) (hd : RpcHeader) (body : Bytes) (now : ℕ)
    → IsCm cm
    → Fine (on_response cm hd body now)
unfolding on_response on
on_response-Fine cm hd body now h =
    read-Fine (parse_response body hd.drep) _ (parse_response-NoPanic body hd.drep) (λ r.
      then-Fine false (feed cm (app_ready_rsp (record { value = r.0.status })) now) none no_output (
        feed-StepsReady cm false (app_ready_rsp (record { value = r.0.status })) now h (
          Silent-AppliesTo false cm.controller_addr cm.current_call_seq
            (some (handle_app_ready_rsp cm.ar (record { value = r.0.status })))
            (app_ready_rsp-Silent cm.controller_addr cm.current_call_seq cm.ar
              (record { value = r.0.status }) h.base.ar_fits h.known))))

by_type-Fine :
    (cm : Cm) (hd : RpcHeader) (t : PacketType) (body : Bytes) (from : SocketAddr) (now : ℕ)
    → IsCm cm
    → Fine (by_type cm hd t body from now)
by_type-Fine cm hd response body from now h = on_response-Fine cm hd body now h
by_type-Fine cm hd request body from now h = on_request-Fine cm hd body from now h
by_type-Fine cm hd ping body from now h = h
by_type-Fine cm hd fault body from now h = h
by_type-Fine cm hd working body from now h = h
by_type-Fine cm hd nocall body from now h = h
by_type-Fine cm hd reject body from now h = h
by_type-Fine cm hd ack body from now h = h
by_type-Fine cm hd cl_cancel body from now h = h
by_type-Fine cm hd fack body from now h = h
by_type-Fine cm hd cancel_ack body from now h = h

-- Every datagram, whatever its bytes, its sender and the time, is handled without a panic, and a
-- manager that keeps the invariant keeps it: the AR, the I&M records and the cache stay well
-- formed, the controller's address is known while there is an AR, and the number of the
-- ApplicationReady call while its answer is awaited.
pub handle_datagram-Fine :
    (cm : Cm) (buf : Bytes) (from : SocketAddr) (now : ℕ)
    → IsCm cm
    → Fine (handle_datagram cm buf from now)
unfolding handle_datagram
handle_datagram-Fine cm buf from now h =
    read-Fine (Header.parse buf) _ (parse-NoPanic buf)
      (λ hd. by_type-Fine cm hd hd.ptype (drop header_len buf) from now h)

-- A tick, whenever it comes, is handled without a panic and keeps the manager's invariant.
pub on_tick-Fine : (cm : Cm) (now : ℕ) → IsCm cm → Fine (on_tick cm now)
unfolding on_tick drive
on_tick-Fine cm now h = then-Fine false (feed cm tick now) none no_output (
    feed-StepsReady cm false tick now h (
      unfold on in
      tick-AppliesTo cm.controller_addr cm.current_call_seq cm.ar now h.base.ar_fits h.known))

-- So is an abort.
pub on_abort-Fine :
    (cm : Cm) (reason : AbortReason) (now : ℕ) → IsCm cm → Fine (on_abort cm reason now)
unfolding on_abort drive on
on_abort-Fine cm reason now h = then-Fine false (feed cm (abort_req reason) now) none no_output (
    feed-StepsReady cm false (abort_req reason) now h (
      Silent-AppliesTo false cm.controller_addr cm.current_call_seq
        (some (handle_abort cm.ar reason))
        (abort-Silent cm.controller_addr cm.current_call_seq cm.ar reason h.base.ar_fits h.known)))
