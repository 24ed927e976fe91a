-- ===== src/Rpc/Header.antt =====
-- crates/pnio/src/rpc/header.rs: the header of 80 bytes in front of every DCE-RPC packet.
pub mod RoundTrip
use pnio_rs.Prelude.{ℕ, ◌||◌, Option, none, some, not, [], ◌∷◌, ◌++◌, Bytes, length}
use pnio_rs.Prelude.{byte_at, slice, test_bit, ltb, ◌==◌, if◌then◌else◌}
use pnio_rs.Prelude.{Result, ok, err, ◌>>=◌, ◌>>◌, fail_if}
use pnio_rs.Rpc.Drep.{Drep, from_byte, to_bytes, u16, u32, put_u16, put_u32}
use pnio_rs.Rpc.Uuid.{Uuid}
use pnio_rs.Rpc.Uuid
use pnio_rs.Rpc.Errors.{RpcError, too_short, bad_version, unsupported_ptype, fragmented, unwrap}

abbrev pub version : ℕ
version = 4

-- `FLAG1_FRAG`, `FLAG1_NO_FACK` and `FLAG1_IDEMPOTENT`; the first is bit 2.
abbrev pub flag1_frag_bit : ℕ
flag1_frag_bit = 2

abbrev pub flag1_no_fack : ℕ
flag1_no_fack = 0x08

abbrev pub flag1_idempotent : ℕ
flag1_idempotent = 0x20

pub data PacketType : Type 0 where
  request ping response fault working nocall reject ack cl_cancel fack cancel_ack : PacketType

unfoldable pub packet_type : ℕ → Result RpcError PacketType
packet_type b =
    if b == 0
    then ok request
    else if b == 1
    then ok ping
    else if b == 2
    then ok response
    else if b == 3
    then ok fault
    else if b == 4
    then ok working
    else if b == 5
    then ok nocall
    else if b == 6
    then ok reject
    else if b == 7
    then ok ack
    else if b == 8
    then ok cl_cancel
    else if b == 9
    then ok fack
    else if b == 10
    then ok cancel_ack
    else err (unsupported_ptype b)

unfoldable pub packet_code : PacketType → ℕ
packet_code request = 0
packet_code ping = 1
packet_code response = 2
packet_code fault = 3
packet_code working = 4
packet_code nocall = 5
packet_code reject = 6
packet_code ack = 7
packet_code cl_cancel = 8
packet_code fack = 9
packet_code cancel_ack = 10

pub data Opnum : Type 0 where
  connect release read write_op control read_implicit : Opnum

unfoldable pub opnum_of : ℕ → Option Opnum
opnum_of v =
    if v == 0
    then some connect
    else if v == 1
    then some release
    else if v == 2
    then some read
    else if v == 3
    then some write_op
    else if v == 4
    then some control
    else if v == 5
    then some read_implicit
    else none

abbrev pub opnum_code : Opnum → ℕ
opnum_code connect = 0
opnum_code release = 1
opnum_code read = 2
opnum_code write_op = 3
opnum_code control = 4
opnum_code read_implicit = 5

pub record RpcHeader : Type 0 where
  pub ptype : PacketType
  pub flags1 : ℕ
  pub flags2 : ℕ
  pub drep : Drep
  pub serial_hi : ℕ
  pub object : Uuid
  pub interface_id : Uuid
  pub activity : Uuid
  pub server_boot : ℕ
  pub if_version : ℕ
  pub seq_num : ℕ
  pub opnum : ℕ
  pub ihint : ℕ
  pub ahint : ℕ
  pub frag_len : ℕ
  pub frag_num : ℕ
  pub auth_proto : ℕ
  pub serial_lo : ℕ

abbrev pub header_len : ℕ
header_len = 80

unfoldable pub parse : Bytes → Result RpcError RpcHeader
parse buf = do
  fail_if (ltb (length buf) header_len) (too_short header_len (length buf))
  fail_if (not (byte_at buf 0 == version)) (bad_version (byte_at buf 0))
  ptype ← packet_type (byte_at buf 1)
  let drep = from_byte (byte_at buf 4)
  object ← unwrap (Uuid.read (slice buf 8 24) drep)
  interface_id ← unwrap (Uuid.read (slice buf 24 40) drep)
  activity ← unwrap (Uuid.read (slice buf 40 56) drep)
  let flags1 = byte_at buf 2
  let frag_num = u16 drep buf 76
  fail_if (not (frag_num == 0) || test_bit flags1 flag1_frag_bit) (fragmented frag_num flags1)
  ok (record {
    ptype = ptype;
    flags1 = flags1;
    flags2 = byte_at buf 3;
    drep = drep;
    serial_hi = byte_at buf 7;
    object = object;
    interface_id = interface_id;
    activity = activity;
    server_boot = u32 drep buf 56;
    if_version = u32 drep buf 60;
    seq_num = u32 drep buf 64;
    opnum = u16 drep buf 68;
    ihint = u16 drep buf 70;
    ahint = u16 drep buf 72;
    frag_len = u16 drep buf 74;
    frag_num = frag_num;
    auth_proto = byte_at buf 78;
    serial_lo = byte_at buf 79;
  })

-- What `write` appends.
unfoldable pub write : RpcHeader → Bytes
write h =
    (version ∷ packet_code h.ptype ∷ h.flags1 ∷ h.flags2 ∷ [])
    ++ (to_bytes h.drep
        ++ (h.serial_hi
            ∷ (Uuid.write h.object h.drep
                ++ (Uuid.write h.interface_id h.drep
                    ++ (Uuid.write h.activity h.drep
                        ++ (put_u32 h.drep h.server_boot
                            ++ (put_u32 h.drep h.if_version
                                ++ (put_u32 h.drep h.seq_num
                                    ++ (put_u16 h.drep h.opnum
                                        ++ (put_u16 h.drep h.ihint
                                            ++ (put_u16 h.drep h.ahint
                                                ++ (put_u16 h.drep h.frag_len
                                                    ++ (put_u16 h.drep h.frag_num
                                                        ++ (h.auth_proto ∷ h.serial_lo
                                                            ∷ []))))))))))))))
