-- ===== src/Examples/Manager.antt =====
-- The context manager of the small device: a PrmEnd that arrives twice, and the I&M records.
use pnio_rs.Prelude.{
  ℕ, ◌≡◌, refl, arith, ok, some, [], ◌∷◌, ◌++◌, Bytes, List, drop, ◌≢◌, replicate,
}
use pnio_rs.Rpc.Drep.{big, little, to_bytes, from_byte, put_u16, put_u32, u16, u32}
use pnio_rs.Rpc.Uuid.{Uuid, pnio_device_interface, uuid_eq, bytes_eq}
use pnio_rs.Rpc.Uuid
use pnio_rs.Cm.Block
use pnio_rs.Cm.Control.Body.{parse_fields}
use pnio_rs.Rpc.Header.{
  packet_type, packet_code, opnum_of, RpcHeader, header_len, request, flag1_idempotent,
}
use pnio_rs.Rpc.Header
use pnio_rs.Rpc.Header.RoundTrip.{IsHeader, header_parse-write}
use pnio_rs.Rpc.Ndr.{
  for_blocks, write_request, parse_request, ok_response, error_response, write_response,
}
use pnio_rs.Im.{default_im0, index_im2, block_type_im2}
use pnio_rs.Cm.Manager.Wire.{ReadsResponse}
use pnio_rs.Cm.Manager.Exchange.{IsCall, reads_response, reads_call}
use pnio_rs.Prelude.{true, false, none}
use pnio_rs.Rpc.Uuid.{pnio_controller_interface}
use pnio_rs.Rpc.Header.{response}
use pnio_rs.Cm.Ar.Types.{respond}
use pnio_rs.Cm.Ar.Ops.{ready_call}
use pnio_rs.Cm.Ar.Answers.{context_of}
use pnio_rs.Cm.Records.{RecordCtx, read_record, write_im_record}
use pnio_rs.Cm.Records.Fields.{ReadReq}
use pnio_rs.Cm.Records.Laws.{read_record-write_im_record}
use pnio_rs.Cm.Write.{Record}
use pnio_rs.Cm.Model.{SubmoduleModel, find_submodule, find_slot}
use pnio_rs.Im
use pnio_rs.Cm.Control
use pnio_rs.Cm.Ar.Answers.{established-IsAr}
use pnio_rs.Cm.Manager.Types.{Cm, CmOutput, SocketAddr, Outgoing, no_output, new}
use pnio_rs.Cm.Manager.Ops.{
  handle_datagram, on_request, on_new_request, dispatch, on_control, feed, apply, apply_one,
  build_call_pdu, cache_lookup, cache_insert, pushed, key_of, respond_ctx,
}
use pnio_rs.Cm.Manager.Pdu.{build_response_pdu, call_pdu}
use pnio_rs.Cm.Control.{is_control_type, prm_end_done, app_ready_req}
use pnio_rs.Cm.Status.{status_ok, control_wrong_state}
use pnio_rs.Cm.Ar.Ops.{parameterized, on, handle_prm_end}
use pnio_rs.Cm.Manager.Ready.{IsCm, Fine}
use pnio_rs.Cm.Manager.Invariant.{handle_datagram-Fine}
use pnio_rs.Cm.Manager.Twice.{handle_datagram_twice}
use pnio_rs.Examples.Values.{device, request_accepted, params, ar_id, prm_end}
use pnio_rs.Examples.Values
use pnio_rs.Examples.Relationship.{connected_device}

abbrev controller : SocketAddr
controller = record { ip = 10; port = 50000 }

abbrev activity : Uuid
activity = record ar_id { b0 = 99 }

abbrev manager : Cm
manager = record (new device activity) {
  ar = connected_device;
  controller_addr = some (record { ip = 10; port = 34964 });
}

manager-IsCm : IsCm manager
manager-IsCm = record {
  base = record {
    ar_fits = established-IsAr device Values.request params 0 request_accepted;
    im_fits = record { im1_full = refl; im2_full = refl; im3_full = refl };
    cache_bound = omega arith;
  };
  known = tt;
}

abbrev prm_end_header : RpcHeader
prm_end_header = record {
  ptype = request;
  flags1 = flag1_idempotent;
  flags2 = 0;
  drep = little;
  serial_hi = 0;
  object = ar_id;
  interface_id = pnio_device_interface;
  activity = ar_id;
  server_boot = 0;
  if_version = 1;
  seq_num = 3;
  opnum = 4;
  ihint = 0xffff;
  ahint = 0xffff;
  frag_len = 52;
  frag_num = 0;
  auth_proto = 0;
  serial_lo = 0;
}

abbrev prm_end_datagram : Bytes
prm_end_datagram =
    Header.write prm_end_header
    ++ (write_request (for_blocks 1340 32) little ++ Control.write prm_end)

prm_end-IsHeader : IsHeader prm_end_header
prm_end-IsHeader = record {
  whole = refl;
  object_fits = omega arith;
  interface_fits = omega arith;
  activity_fits = omega arith;
  server_boot_fits = omega arith;
  if_version_fits = omega arith;
  seq_num_fits = omega arith;
  opnum_fits = omega arith;
  ihint_fits = omega arith;
  ahint_fits = omega arith;
  frag_len_fits = omega arith;
  not_a_fragment = refl;
}

prm_end_read : Header.parse prm_end_datagram ≡ ok prm_end_header
prm_end_read = header_parse-write prm_end_header _ prm_end-IsHeader

handle_datagram-Fine_example : Fine (handle_datagram manager prm_end_datagram controller 5)
handle_datagram-Fine_example =
    handle_datagram-Fine manager prm_end_datagram controller 5 manager-IsCm

abbrev prm_end_response : Bytes
prm_end_response =
    build_response_pdu (respond_ctx prm_end_header 1340 controller) status_ok
      (Control.write (prm_end_done prm_end))

abbrev first_call : Bytes
first_call = call_pdu ar_id activity 0 (Control.write (app_ready_req ar_id 7))

abbrev manager_after : Cm
manager_after = record manager {
  ar = parameterized connected_device 5;
  call_seq = 1;
  current_call_seq = some 0;
  cache = (key_of prm_end_header, prm_end_response) ∷ [];
}

abbrev sent : CmOutput
sent = record {
  send =
      record { bytes = prm_end_response; to = controller }
      ∷ record { bytes = first_call; to = record { ip = 10; port = 34964 } }
      ∷ [];
  notices = [];
}

handled : handle_datagram manager prm_end_datagram controller 5 ≡ ok (manager_after, sent)
unfolding handle_datagram on_request on_new_request dispatch on_control feed apply apply_one on
    handle_prm_end build_call_pdu cache_lookup cache_insert build_response_pdu call_pdu Header.parse
    Header.write packet_type packet_code opnum_of to_bytes from_byte put_u16 put_u32 u16 u32
    Uuid.read Uuid.write uuid_eq bytes_eq parse_request write_request for_blocks ok_response
    error_response write_response Control.parse Control.write is_control_type parse_fields
    Block.parse Block.write prm_end_done app_ready_req
handled = refl

handle_datagram_twice_example :
    (bytes : Bytes) × (others : List Outgoing) × (sent.send
      ≡ record { bytes = bytes; to = controller } ∷ others)
    × ((from' : SocketAddr) (now' : ℕ)
        → handle_datagram manager_after prm_end_datagram from' now'
          ≡ ok (manager_after, pushed no_output bytes from'))
handle_datagram_twice_example =
    handle_datagram_twice manager manager_after prm_end_datagram prm_end_header controller 5 sent
      manager-IsCm prm_end_read refl handled

prm_end-IsCall : IsCall prm_end_header
prm_end-IsCall = record {
  object_fits = omega arith;
  interface_fits = omega arith;
  activity_fits = omega arith;
  seq_num_fits = omega arith;
  opnum_fits = omega arith;
}

reads_response_example :
    (pdu : Bytes) × (apply_one manager
        (respond control_wrong_state (1 ∷ 2 ∷ []))
        (some (respond_ctx prm_end_header 1340 controller, key_of prm_end_header))
        true
        no_output
      ≡ ok (
        record manager { cache = cache_insert manager.cache (ar_id, 3) pdu },
        record { send = record { bytes = pdu; to = controller } ∷ []; notices = [] },
      ))
    × ReadsResponse pdu
        (record {
          ptype = response;
          flags1 = 0x28;
          flags2 = 0;
          drep = big;
          serial_hi = 0;
          object = ar_id;
          interface_id = pnio_device_interface;
          activity = ar_id;
          server_boot = 0;
          if_version = 1;
          seq_num = 3;
          opnum = 4;
          ihint = 0xffff;
          ahint = 0xffff;
          frag_len = 20;
          frag_num = 0;
          auth_proto = 0;
          serial_lo = 0;
        })
        1340
        control_wrong_state.value
        []
reads_response_example =
    reads_response manager prm_end_header 1340 controller control_wrong_state (1 ∷ 2 ∷ []) no_output
      prm_end-IsCall (omega arith) (omega arith) (omega arith)

-- The manager that has just parameterized its AR.
abbrev caller : Cm
caller = record manager { ar = parameterized connected_device 5 }

abbrev caller_behind : Cm
caller_behind = record caller { call_seq = 1; current_call_seq = some 0 }

abbrev controller_port : SocketAddr
controller_port = record { ip = 10; port = 34964 }

reads_call_example :
    (pdu : Bytes) × (blocks : Bytes) × (apply_one caller
        (ready_call (context_of device params 0))
        none
        true
        no_output
      ≡ ok (
        caller_behind,
        record { send = record { bytes = pdu; to = controller_port } ∷ []; notices = [] },
      ))
    × (apply_one caller_behind (ready_call (context_of device params 0)) none false no_output
        ≡ ok (
          caller_behind,
          record { send = record { bytes = pdu; to = controller_port } ∷ []; notices = [] },
        ))
    × (Header.parse pdu
        ≡ ok (record {
          ptype = request;
          flags1 = 0x20;
          flags2 = 0;
          drep = big;
          serial_hi = 0;
          object = params.initiator_object_uuid;
          interface_id = pnio_controller_interface;
          activity = activity;
          server_boot = 0;
          if_version = 1;
          seq_num = 0;
          opnum = 4;
          ihint = 0xffff;
          ahint = 0xffff;
          frag_len = 52;
          frag_num = 0;
          auth_proto = 0;
          serial_lo = 0;
        }))
    × (parse_request (drop header_len pdu) big
        ≡ ok (
          record {
            args_max = 1340;
            args_len = 32;
            max_count = 1340;
            offset = 0;
            actual_count = 32;
          },
          blocks,
        ))
    × (Control.parse blocks
        ≡ ok (record {
          block_type = 0x0112;
          ar_uuid = params.ar_uuid;
          session_key = params.session_key;
          command = 2;
          properties = 0;
        }))
reads_call_example =
    reads_call caller (context_of device params 0) controller_port none no_output no_output refl
      refl
      (record {
        object_fits = omega arith;
        activity_fits = omega arith;
        ar_fits = omega arith;
        key_fits = omega arith;
        seq_fits = omega arith;
      })

-- An installation date.
abbrev date_record : Record
date_record = record Values.parameter {
  index = index_im2;
  payload = Block.write block_type_im2 16 ++ replicate 16 50;
}

abbrev record_ctx : RecordCtx
record_ctx = record { model = device; im0 = default_im0; im = Im.new }

submodule_found :
    find_submodule device 1 1
    ≡ some (record { subslot = 1; submodule_ident = 0x31; input_len = 2; output_len = 1 })
unfolding find_submodule find_slot
submodule_found = refl

read_record-write_im_record_example :
    ((write_im_record date_record device Im.new).1 ≡ status_ok)
    × ((req : ReadReq) (other : SubmoduleModel)
        → find_submodule device req.slot req.subslot ≡ some other
        → req.index ≡ index_im2
        → read_record req (record record_ctx { im = (write_im_record date_record device Im.new).0 })
          ≡ some date_record.payload)
    × ((req : ReadReq)
        → req.index ≢ index_im2
        → read_record req (record record_ctx { im = (write_im_record date_record device Im.new).0 })
          ≡ read_record req record_ctx)
read_record-write_im_record_example =
    read_record-write_im_record record_ctx date_record block_type_im2 (replicate 16 50)
      (record { subslot = 1; submodule_ident = 0x31; input_len = 2; output_len = 1 }) refl refl
      submodule_found
