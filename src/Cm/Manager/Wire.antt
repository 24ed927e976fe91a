-- ===== src/Cm/Manager/Wire.antt =====
-- What the other side reads in the packets of the manager.
use pnio_rs.Prelude.{ℕ, ◌≡◌, arith, refl, ap, sym, subst, ◌∙◌, Bool-cases, inl, inr}
use pnio_rs.Prelude.{[], ◌++◌, Bytes, length, drop, ok, IsU16, IsU32, u32, if◌then◌else◌}
use pnio_rs.Prelude.{append-nil, drop-length-append}
use pnio_rs.Rpc.Drep.{big, to_bytes, put_u16, put_u32}
use pnio_rs.Rpc.Uuid.{Uuid, IsUuid}
use pnio_rs.Rpc.Uuid
use pnio_rs.Rpc.Header.{RpcHeader, header_len}
use pnio_rs.Rpc.Header
use pnio_rs.Rpc.Header.RoundTrip.{IsHeader, header_parse-write}
use pnio_rs.Rpc.Ndr.{
  NdrRequest, for_blocks, ok_response, error_response, parse_request, parse_response,
  write_response, write_request,
}
use pnio_rs.Rpc.Ndr.Laws.{
  parse_request-for_blocks, parse_response-ok_response, parse_response-error_response,
}
use pnio_rs.Cm.Status.{PnioStatus, is_ok}
use pnio_rs.Cm.Control.{app_ready_req, is_control_type}
use pnio_rs.Cm.Block
use pnio_rs.Cm.Control
use pnio_rs.Cm.Control.RoundTrip.{parse-write_control}
use pnio_rs.Cm.Manager.Types.{RespondCtx, rpc_args_max}
use pnio_rs.Cm.Manager.Pdu.{response_header, build_response_pdu, call_header, call_pdu}

length-write : (h : RpcHeader) → h.drep ≡ big → length (Header.write h) ≡ header_len
unfolding Header.write to_bytes put_u16 put_u32 Uuid.write
length-write h e = ground (arith, e)

-- What stands behind the header.
behind :
    (h : RpcHeader) (rest : Bytes) → h.drep ≡ big → drop header_len (Header.write h ++ rest) ≡ rest
behind h rest e =
    ap (λ (n : ℕ). drop n (Header.write h ++ rest)) (sym (length-write h e))
    ∙ drop-length-append (Header.write h) rest

pub record IsRespondCtx (ctx : RespondCtx) : Type 0 where
  pub object_fits : IsUuid ctx.object
  pub interface_fits : IsUuid ctx.interface_id
  pub activity_fits : IsUuid ctx.activity
  pub seq_num_fits : IsU32 ctx.seq_num
  pub opnum_fits : IsU16 ctx.opnum
  pub args_max_fits : IsU32 ctx.args_max

response_header-IsHeader :
    (ctx : RespondCtx) (len : ℕ) → IsRespondCtx ctx → IsHeader (response_header ctx len)
response_header-IsHeader ctx len i = record {
  whole = refl;
  object_fits = i.object_fits;
  interface_fits = i.interface_fits;
  activity_fits = i.activity_fits;
  server_boot_fits = omega arith;
  if_version_fits = omega arith;
  seq_num_fits = i.seq_num_fits;
  opnum_fits = i.opnum_fits;
  ihint_fits = omega arith;
  ahint_fits = omega arith;
  frag_len_fits = omega arith;
  not_a_fragment = refl;
}

-- The header, the array header and the blocks that are read in a response.
abbrev pub ReadsResponse : Bytes → RpcHeader → ℕ → ℕ → Bytes → Type 0
ReadsResponse pdu h args_max status blocks =
    (Header.parse pdu ≡ ok h)
    × (parse_response (drop header_len pdu) big
        ≡ ok (
          record {
            status = status;
            args_len = length blocks;
            max_count = args_max;
            offset = 0;
            actual_count = length blocks;
          },
          blocks,
        ))

good_response :
    (h : RpcHeader) (args_max : ℕ) (blocks : Bytes)
    → h.drep ≡ big
    → IsHeader h
    → IsU32 args_max
    → IsU32 (length blocks)
    → ReadsResponse
        (Header.write h
          ++ (write_response (ok_response args_max (u32 (length blocks))) big ++ blocks))
        h
        args_max
        0
        blocks
unfolding ok_response
good_response h args_max blocks e i ha hb =
    let len : u32 (length blocks) ≡ length blocks = omega arith in
    let body = write_response (ok_response args_max (length blocks)) big ++ blocks in
    rw len (
      header_parse-write h body i,
      ap (λ (b : Bytes). parse_response b big) (behind h body e)
          ∙ ap
              (λ (b : Bytes).
                parse_response (write_response (ok_response args_max (length blocks)) big ++ b) big)
              (sym (append-nil blocks))
          ∙ parse_response-ok_response big args_max blocks [] ha hb,
    )

bad_response :
    (h : RpcHeader) (args_max status : ℕ)
    → h.drep ≡ big
    → IsHeader h
    → IsU32 args_max
    → IsU32 status
    → ReadsResponse
        (Header.write h ++ (write_response (error_response status args_max) big ++ []))
        h
        args_max
        status
        []
unfolding error_response
bad_response h args_max status e i ha hs =
    let body = write_response (error_response status args_max) big ++ [] in
    (
      header_parse-write h body i,
      ap (λ (b : Bytes). parse_response b big) (behind h body e)
          ∙ parse_response-error_response big status args_max [] hs ha,
    )

-- A response is read with the header of its context, the status, and all blocks for a good status
-- and none for another one.
pub response_read :
    (ctx : RespondCtx) (status : PnioStatus) (blocks : Bytes)
    → IsRespondCtx ctx
    → IsU32 status.value
    → IsU32 (length blocks)
    → let sent = if is_ok status then blocks else [] in
      ReadsResponse
        (build_response_pdu ctx status blocks)
        (response_header ctx (length sent))
        ctx.args_max
        status.value
        sent
unfolding build_response_pdu
response_read ctx status blocks i hs hb = elim (Bool-cases (is_ok status)) [
  | inl good ↦
      let zero_status : status.value ≡ 0 = ground arith in
      rw good (
        rw zero_status (
          good_response (response_header ctx (length blocks)) ctx.args_max blocks refl
            (response_header-IsHeader ctx (length blocks) i) i.args_max_fits hb))
  | inr bad ↦ rw bad (
      bad_response (response_header ctx 0) ctx.args_max status.value refl
        (response_header-IsHeader ctx 0 i) i.args_max_fits hs)
]

abbrev ReadsRequest : Bytes → RpcHeader → NdrRequest → Bytes → Type 0
ReadsRequest pdu h n blocks =
    (Header.parse pdu ≡ ok h) × (parse_request (drop header_len pdu) big ≡ ok (n, blocks))

request_lem :
    (h : RpcHeader) (args_max : ℕ) (blocks : Bytes)
    → h.drep ≡ big
    → IsHeader h
    → IsU32 args_max
    → IsU32 (length blocks)
    → ReadsRequest
        (Header.write h
          ++ (write_request (for_blocks args_max (u32 (length blocks))) big ++ blocks))
        h
        (for_blocks args_max (length blocks))
        blocks
request_lem h args_max blocks e i ha hb =
    let len : u32 (length blocks) ≡ length blocks = omega arith in
    let body = write_request (for_blocks args_max (length blocks)) big ++ blocks in
    rw len (
      header_parse-write h body i,
      ap (λ (b : Bytes). parse_request b big) (behind h body e)
          ∙ ap
              (λ (b : Bytes).
                parse_request (write_request (for_blocks args_max (length blocks)) big ++ b) big)
              (sym (append-nil blocks))
          ∙ parse_request-for_blocks big args_max blocks [] ha hb,
    )

call_header-IsHeader :
    (object activity : Uuid) (seq_num len : ℕ)
    → IsUuid object
    → IsUuid activity
    → IsU32 seq_num
    → IsHeader (call_header object activity seq_num len)
call_header-IsHeader object activity seq_num len ho ha hs = record {
  whole = refl;
  object_fits = ho;
  interface_fits = omega arith;
  activity_fits = ha;
  server_boot_fits = omega arith;
  if_version_fits = omega arith;
  seq_num_fits = hs;
  opnum_fits = omega arith;
  ihint_fits = omega arith;
  ahint_fits = omega arith;
  frag_len_fits = omega arith;
  not_a_fragment = refl;
}

abbrev pub app_ready_blocks : Uuid → ℕ → Bytes
app_ready_blocks ar_uuid session_key = Control.write (app_ready_req ar_uuid session_key)

control_lem :
    (ar_uuid : Uuid) (session_key : ℕ)
    → IsUuid ar_uuid
    → IsU16 session_key
    → Control.parse (app_ready_blocks ar_uuid session_key) ≡ ok (app_ready_req ar_uuid session_key)
unfolding app_ready_req is_control_type
control_lem ar_uuid session_key hu hk =
    ap Control.parse (sym (append-nil (app_ready_blocks ar_uuid session_key)))
    ∙ parse-write_control (app_ready_req ar_uuid session_key) [] (record {
      type_fits = refl;
      uuid_fits = hu;
      key_fits = hk;
      command_fits = omega arith;
      properties_fit = omega arith;
    })

length-app_ready :
    (ar_uuid : Uuid) (session_key : ℕ) → length (app_ready_blocks ar_uuid session_key) ≡ 32
unfolding Control.write Block.write Uuid.write put_u16 put_u32
length-app_ready ar_uuid session_key = refl

-- A call is read with its header, and its blocks as the control block.
pub call_read :
    (object activity ar_uuid : Uuid) (seq_num session_key : ℕ)
    → IsUuid object
    → IsUuid activity
    → IsUuid ar_uuid
    → IsU32 seq_num
    → IsU16 session_key
    → let blocks = app_ready_blocks ar_uuid session_key in
      let pdu = call_pdu object activity seq_num blocks in
      (Header.parse pdu ≡ ok (call_header object activity seq_num 32))
      × (parse_request (drop header_len pdu) big ≡ ok (for_blocks rpc_args_max 32, blocks))
      × (Control.parse blocks ≡ ok (app_ready_req ar_uuid session_key))
unfolding call_pdu
call_read object activity ar_uuid seq_num session_key ho ha hu hs hk =
    let blocks = app_ready_blocks ar_uuid session_key in
    let len = length-app_ready ar_uuid session_key in
    let placed : ReadsRequest (call_pdu object activity seq_num blocks)
        (call_header object activity seq_num (length blocks))
        (for_blocks rpc_args_max (length blocks)) blocks =
      request_lem (call_header object activity seq_num (length blocks)) rpc_args_max blocks refl
        (call_header-IsHeader object activity seq_num (length blocks) ho ha hs) (omega arith)
        (omega (arith, len)) in
    let at_length : ReadsRequest (call_pdu object activity seq_num blocks)
        (call_header object activity seq_num 32) (for_blocks rpc_args_max 32) blocks =
      subst
        (λ (n : ℕ).
          ReadsRequest (call_pdu object activity seq_num blocks)
            (call_header object activity seq_num n) (for_blocks rpc_args_max n) blocks)
        len placed in
    (at_length.0, at_length.1, control_lem ar_uuid session_key hu hk)
