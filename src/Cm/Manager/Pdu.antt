-- ===== src/Cm/Manager/Pdu.antt =====
-- crates/pnio/src/cm/mod.rs: the packets that the context manager builds.
use pnio_rs.Prelude.{ℕ, ◌+◌, [], ◌++◌, Bytes, length, if◌then◌else◌, u16, u32}
use pnio_rs.Rpc.Drep.{big}
use pnio_rs.Rpc.Uuid.{Uuid, pnio_controller_interface}
use pnio_rs.Rpc.Header.{
  RpcHeader, request, response, control, opnum_code, flag1_idempotent, flag1_no_fack,
}
use pnio_rs.Rpc.Header
use pnio_rs.Rpc.Ndr.{
  NdrResponse, ndr_len, for_blocks, write_request, ok_response, error_response, write_response,
}
use pnio_rs.Cm.Status.{PnioStatus, is_ok, to_u32}
use pnio_rs.Cm.Manager.Types.{RespondCtx, rpc_args_max}

abbrev pub response_header : RespondCtx → ℕ → RpcHeader
response_header ctx len = record {
  ptype = response;
  flags1 = flag1_idempotent + flag1_no_fack;
  flags2 = 0;
  drep = big;
  serial_hi = 0;
  object = ctx.object;
  interface_id = ctx.interface_id;
  activity = ctx.activity;
  server_boot = 0;
  if_version = 1;
  seq_num = ctx.seq_num;
  opnum = ctx.opnum;
  ihint = 0xffff;
  ahint = 0xffff;
  frag_len = u16 (ndr_len + len);
  frag_num = 0;
  auth_proto = 0;
  serial_lo = 0;
}

abbrev out_blocks : PnioStatus → Bytes → Bytes
out_blocks status blocks = if is_ok status then blocks else []

-- `len as u32` of the blocks.
abbrev response_ndr : RespondCtx → PnioStatus → Bytes → NdrResponse
response_ndr ctx status blocks =
    if is_ok status
    then ok_response ctx.args_max (u32 (length blocks))
    else error_response (to_u32 status) ctx.args_max

unfoldable pub build_response_pdu : RespondCtx → PnioStatus → Bytes → Bytes
build_response_pdu ctx status blocks =
    let out = out_blocks status blocks in
    Header.write (response_header ctx (length out))
    ++ (write_response (response_ndr ctx status out) big ++ out)

abbrev pub call_header : Uuid → Uuid → ℕ → ℕ → RpcHeader
call_header object activity seq_num len = record {
  ptype = request;
  flags1 = flag1_idempotent;
  flags2 = 0;
  drep = big;
  serial_hi = 0;
  object = object;
  interface_id = pnio_controller_interface;
  activity = activity;
  server_boot = 0;
  if_version = 1;
  seq_num = seq_num;
  opnum = opnum_code control;
  ihint = 0xffff;
  ahint = 0xffff;
  frag_len = u16 (ndr_len + len);
  frag_num = 0;
  auth_proto = 0;
  serial_lo = 0;
}

-- The packet of `build_call_pdu`, for the sequence number that it takes.
unfoldable pub call_pdu : Uuid → Uuid → ℕ → Bytes → Bytes
call_pdu object activity seq_num blocks =
    Header.write (call_header object activity seq_num (length blocks))
    ++ (write_request (for_blocks rpc_args_max (u32 (length blocks))) big ++ blocks)
