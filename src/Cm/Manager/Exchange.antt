-- ===== src/Cm/Manager/Exchange.antt =====
-- What the controller reads in the packets that the manager sends for the actions of the AR.
use pnio_rs.Prelude.{
  ℕ, ◌+◌, ◌≡◌, refl, some, none, true, false, Option, [], ◌∷◌, ◌++◌, Bytes, length, drop, ok, IsU16,
  IsU32, u16, u32, if◌then◌else◌,
}
use pnio_rs.Rpc.Drep.{big}
use pnio_rs.Rpc.Uuid.{IsUuid, pnio_controller_interface}
use pnio_rs.Rpc.Header.{RpcHeader, header_len, request, response}
use pnio_rs.Rpc.Header
use pnio_rs.Rpc.Ndr.{for_blocks, parse_request}
use pnio_rs.Cm.Status.{PnioStatus, is_ok}
use pnio_rs.Cm.Control.{app_ready_req}
use pnio_rs.Cm.Control
use pnio_rs.Cm.Ar.Types.{ArContext, respond}
use pnio_rs.Cm.Ar.Ops.{ready_call}
use pnio_rs.Cm.Manager.Types.{Cm, CmOutput, RespondCtx, SocketAddr, Key}
use pnio_rs.Cm.Manager.Ops.{apply_one, build_call_pdu, cache_insert, respond_ctx, key_of}
use pnio_rs.Cm.Manager.Pdu.{build_response_pdu, call_pdu}
use pnio_rs.Cm.Manager.Wire.{ReadsResponse, response_read, call_read}

-- The fields of a request that its response repeats fit their words.
pub record IsCall (h : RpcHeader) : Type 0 where
  pub object_fits : IsUuid h.object
  pub interface_fits : IsUuid h.interface_id
  pub activity_fits : IsUuid h.activity
  pub seq_num_fits : IsU32 h.seq_num
  pub opnum_fits : IsU16 h.opnum

-- The response to a request goes to where the request came from, and is stored under the request's
-- activity and number. The controller reads in it a response with the object, the interface, the
-- activity, the sequence number and the operation of the request, the status, the room that the
-- request gave, and all blocks for a good status and none for another one.
pub reads_response :
    (cm : Cm) (h : RpcHeader) (args_max : ℕ) (from : SocketAddr) (status : PnioStatus)
    (blocks : Bytes) (out : CmOutput)
    → IsCall h
    → IsU32 args_max
    → IsU32 status.value
    → IsU32 (length blocks)
    → let sent = if is_ok status then blocks else [] in
      (pdu : Bytes) × (apply_one cm
          (respond status blocks)
          (some (respond_ctx h args_max from, key_of h))
          true
          out
        ≡ ok (
          record cm { cache = cache_insert cm.cache (h.activity, h.seq_num) pdu },
          record out { send = out.send ++ (record { bytes = pdu; to = from } ∷ []) },
        ))
      × ReadsResponse pdu
          (record {
            ptype = response;
            flags1 = 0x28;
            flags2 = 0;
            drep = big;
            serial_hi = 0;
            object = h.object;
            interface_id = h.interface_id;
            activity = h.activity;
            server_boot = 0;
            if_version = 1;
            seq_num = h.seq_num;
            opnum = h.opnum;
            ihint = 0xffff;
            ahint = 0xffff;
            frag_len = u16 (20 + length sent);
            frag_num = 0;
            auth_proto = 0;
            serial_lo = 0;
          })
          args_max
          status.value
          sent
unfolding apply_one
reads_response cm h args_max from status blocks out i ha hs hb = (
  build_response_pdu (respond_ctx h args_max from) status blocks,
  refl,
  response_read (respond_ctx h args_max from) status blocks
      (record {
        object_fits = i.object_fits;
        interface_fits = i.interface_fits;
        activity_fits = i.activity_fits;
        seq_num_fits = i.seq_num_fits;
        opnum_fits = i.opnum_fits;
        args_max_fits = ha;
      })
      hs hb,
)

-- What an ApplicationReady call of an AR names fits its words.
pub record IsCaller (cm : Cm) (c : ArContext) : Type 0 where
  pub object_fits : IsUuid c.params.initiator_object_uuid
  pub activity_fits : IsUuid cm.activity_seed
  pub ar_fits : IsUuid c.params.ar_uuid
  pub key_fits : IsU16 c.params.session_key
  pub seq_fits : IsU32 cm.call_seq

-- The ApplicationReady call of an AR goes to the controller's address under the next sequence
-- number, and the call that repeats it is the same packet, with no number taken. The controller
-- reads in it a request for the object that initiated the AR, with the device's activity and that
-- number, and in its blocks the control block of ApplicationReady with the AR and its session.
pub reads_call :
    (cm : Cm) (c : ArContext) (to : SocketAddr) (ctx : Option (RespondCtx × Key))
    (out again : CmOutput)
    → cm.ar.ctx ≡ some c
    → cm.controller_addr ≡ some to
    → IsCaller cm c
    → let behind : Cm = record cm {
      call_seq = u32 (cm.call_seq + 1);
      current_call_seq = some cm.call_seq;
    } in
      (pdu : Bytes) × (blocks : Bytes) × (apply_one cm (ready_call c) ctx true out
        ≡ ok (behind, record out { send = out.send ++ (record { bytes = pdu; to = to } ∷ []) }))
      × (apply_one behind (ready_call c) none false again
          ≡ ok (
            behind,
            record again { send = again.send ++ (record { bytes = pdu; to = to } ∷ []) },
          ))
      × (Header.parse pdu
          ≡ ok (record {
            ptype = request;
            flags1 = 0x20;
            flags2 = 0;
            drep = big;
            serial_hi = 0;
            object = c.params.initiator_object_uuid;
            interface_id = pnio_controller_interface;
            activity = cm.activity_seed;
            server_boot = 0;
            if_version = 1;
            seq_num = cm.call_seq;
            opnum = 4;
            ihint = 0xffff;
            ahint = 0xffff;
            frag_len = 52;
            frag_num = 0;
            auth_proto = 0;
            serial_lo = 0;
          }))
      × (parse_request (drop header_len pdu) big
          ≡ ok (
            record {
              args_max = 1340;
              args_len = 32;
              max_count = 1340;
              offset = 0;
              actual_count = 32;
            },
            blocks,
          ))
      × (Control.parse blocks
          ≡ ok (record {
            block_type = 0x0112;
            ar_uuid = c.params.ar_uuid;
            session_key = c.params.session_key;
            command = 2;
            properties = 0;
          }))
unfolding apply_one build_call_pdu for_blocks app_ready_req
reads_call cm c to ctx out again has_ctx has_addr i =
    let object = c.params.initiator_object_uuid in
    let blocks = Control.write (app_ready_req c.params.ar_uuid c.params.session_key) in
    let (header, body, control) =
      call_read object cm.activity_seed c.params.ar_uuid cm.call_seq c.params.session_key
        i.object_fits i.activity_fits i.ar_fits i.seq_fits i.key_fits in
    (
      call_pdu object cm.activity_seed cm.call_seq blocks,
      blocks,
      rw (has_addr, has_ctx) refl,
      rw (has_addr, has_ctx) refl,
      header,
      body,
      control,
    )
