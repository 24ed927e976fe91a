-- ===== src/Cm/Manager/Twice.antt =====
-- A request that arrives again is answered from the cache.
use pnio_rs.Prelude.{ℕ, ◌≡◌, arith, refl, sym, ap, subst, ◌∙◌, true, Option, none}
use pnio_rs.Prelude.{some, List, [], ◌∷◌, Bytes, drop, Result, ok, ◌>>=◌, fail_if, not}
use pnio_rs.Prelude.{>>=-eq-ok}
use pnio_rs.Rpc.Uuid.{uuid_eq, pnio_device_interface}
use pnio_rs.Rpc.Errors.{RpcError, bad_interface}
use pnio_rs.Rpc.Header.{
  RpcHeader, PacketType, request, opnum_of, header_len, Opnum, connect, release, read, write_op,
  control, read_implicit,
}
use pnio_rs.Rpc.Header
use pnio_rs.Rpc.Ndr.{parse_request}
use pnio_rs.Cm.Ar.Types.{Action}
use pnio_rs.Cm.Manager.Types.{Cm, CmOutput, no_output, Outgoing, SocketAddr, Key}
use pnio_rs.Cm.Manager.Ops.{
  Acted, key_of, respond_ctx, cache_lookup, pushed, dispatch, on_new_request, from_cache,
  on_request, by_type, handle_datagram,
}
use pnio_rs.Cm.Manager.Answered.{Answered}
use pnio_rs.Cm.Manager.Ready.{IsCm}
use pnio_rs.Cm.Manager.Cached.{Cached, apply-Answered}
use pnio_rs.Cm.Manager.Once.{AnsweredBy, dispatch-AnsweredBy}

of_ok :
    (cm : Cm) (m : Acted) (r : Cm × List Action)
    → m ≡ ok r
    → AnsweredBy cm m
    → Answered r.1 × (r.0.cache ≡ cm.cache)
of_ok cm m r e a = subst (AnsweredBy cm) e a

new_request-Cached :
    (cm cm' : Cm) (hd : RpcHeader) (body : Bytes) (from : SocketAddr) (now : ℕ) (out : CmOutput)
    → IsCm cm
    → cache_lookup cm.cache (key_of hd) ≡ none
    → on_new_request cm hd body from now ≡ ok (cm', out)
    → Cached cm' (key_of hd) from no_output out
unfolding on_new_request
new_request-Cached cm cm' hd body from now out h c e =
    let (req, er, hr) = >>=-eq-ok (parse_request body hd.drep) _ e in
    let (r, ed, ha) = >>=-eq-ok (dispatch cm (opnum_of hd.opnum) req.1 from now) _ hr in
    let (a, same) =
      of_ok cm (dispatch cm (opnum_of hd.opnum) req.1 from now) r ed
        (dispatch-AnsweredBy cm (opnum_of hd.opnum) req.1 from now h) in
    apply-Answered r.1 r.0 cm' (respond_ctx hd req.0.args_max from) (key_of hd) true no_output out a
      (ap (λ (cache : List (Key × Bytes)). cache_lookup cache (key_of hd)) same ∙ c) ha

from_cache-Cached :
    (cm cm' : Cm) (hd : RpcHeader) (body : Bytes) (from : SocketAddr) (now : ℕ) (out : CmOutput)
    (found : Option Bytes)
    → IsCm cm
    → cache_lookup cm.cache (key_of hd) ≡ found
    → from_cache cm hd body from now found ≡ ok (cm', out)
    → Cached cm' (key_of hd) from no_output out
from_cache-Cached cm cm' hd body from now out none h c e =
    new_request-Cached cm cm' hd body from now out h c e
from_cache-Cached cm cm' hd body from now out (some bytes) h c e = record {
  bytes = bytes;
  others = [];
  found = ground (arith, c);
  first = ground arith;
}

-- A datagram that is a request.
request_lem :
    (cm : Cm) (buf : Bytes) (hd : RpcHeader) (from : SocketAddr) (now : ℕ)
    → Header.parse buf ≡ ok hd
    → hd.ptype ≡ request
    → handle_datagram cm buf from now ≡ on_request cm hd (drop header_len buf) from now
unfolding handle_datagram
request_lem cm buf hd from now p t =
    ap
      (λ (m : Result RpcError RpcHeader).
        m >>= λ (h : RpcHeader). by_type cm h h.ptype (drop header_len buf) from now)
      p
    ∙ ap (λ (ty : PacketType). by_type cm hd ty (drop header_len buf) from now) t

again_lem :
    (cm : Cm) (hd : RpcHeader) (body : Bytes) (from : SocketAddr) (now : ℕ) (bytes : Bytes)
    → fail_if (not (uuid_eq hd.interface_id pnio_device_interface)) (bad_interface hd.interface_id)
      ≡ ok tt
    → cache_lookup cm.cache (key_of hd) ≡ some bytes
    → on_request cm hd body from now ≡ ok (cm, pushed no_output bytes from)
unfolding on_request
again_lem cm hd body from now bytes passed found = ground arith

passed_lem :
    (cm : Cm) (hd : RpcHeader) (body : Bytes) (from : SocketAddr) (now : ℕ) (r : Cm × CmOutput)
    → on_request cm hd body from now ≡ ok r
    → (fail_if (not (uuid_eq hd.interface_id pnio_device_interface)) (bad_interface hd.interface_id)
        ≡ ok tt)
      × (from_cache cm hd body from now (cache_lookup cm.cache (key_of hd)) ≡ ok r)
unfolding on_request
passed_lem cm hd body from now r h =
    let (passed, went, rest) =
      >>=-eq-ok
        (fail_if (not (uuid_eq hd.interface_id pnio_device_interface))
          (bad_interface hd.interface_id))
        _ h in
    (went, rest)

-- A request that was handled is answered with one packet, and the same bytes that arrive again,
-- from wherever and whenever, are answered with exactly that packet, and nothing else happens:
-- the AR does not see the request a second time.
pub handle_datagram_twice :
    (cm cm' : Cm) (buf : Bytes) (hd : RpcHeader) (from : SocketAddr) (now : ℕ) (out : CmOutput)
    → IsCm cm
    → Header.parse buf ≡ ok hd
    → hd.ptype ≡ request
    → handle_datagram cm buf from now ≡ ok (cm', out)
    → (bytes : Bytes) × (others : List Outgoing) × (out.send
        ≡ record { bytes = bytes; to = from } ∷ others)
      × ((from' : SocketAddr) (now' : ℕ)
          → handle_datagram cm' buf from' now' ≡ ok (cm', pushed no_output bytes from'))
handle_datagram_twice cm cm' buf hd from now out h p t e =
    let body = drop header_len buf in
    let handled : on_request cm hd body from now ≡ ok (cm', out) =
      sym (request_lem cm buf hd from now p t) ∙ e in
    let (went, rest) = passed_lem cm hd body from now (cm', out) handled in
    let cached =
      from_cache-Cached cm cm' hd body from now out (cache_lookup cm.cache (key_of hd)) h refl
        rest in
    (
      cached.bytes,
      cached.others,
      cached.first,
      λ from' now'.
          request_lem cm' buf hd from' now' p t
          ∙ again_lem cm' hd body from' now' cached.bytes went cached.found,
    )
