-- ===== src/Dcp/Frame.antt =====
-- crates/pnio/src/dcp/frame.rs: frame ids and the acyclic header of ten bytes.
pub mod RoundTrip
use pnio_rs.Prelude.{ℕ, ◌+◌, Option, none, some, [], ◌∷◌, ◌++◌, Bytes, length, slice, byte_at}
use pnio_rs.Prelude.{u16_at, u32_at, be16, be32, ltb, ◌==◌, if◌then◌else◌}
use pnio_rs.Prelude.{Result, ok, err, ◌>>=◌, ◌>>◌, fail_if}
use pnio_rs.Dcp.Block.{DcpError, too_short, bad_service_id, bad_service_type}

pub data FrameId : Type 0 where
  identify_request identify_response get_set hello_frame : FrameId

unfoldable pub frame_id_of : ℕ → Option FrameId
frame_id_of v =
    if v == 0xfefe
    then some identify_request
    else if v == 0xfeff
    then some identify_response
    else if v == 0xfefd
    then some get_set
    else if v == 0xfefc
    then some hello_frame
    else none

abbrev pub frame_id_code : FrameId → ℕ
frame_id_code identify_request = 0xfefe
frame_id_code identify_response = 0xfeff
frame_id_code get_set = 0xfefd
frame_id_code hello_frame = 0xfefc

pub data ServiceId : Type 0 where
  get set identify hello : ServiceId

unfoldable pub service_id_of : ℕ → Result DcpError ServiceId
service_id_of v =
    if v == 3
    then ok get
    else if v == 4
    then ok set
    else if v == 5
    then ok identify
    else if v == 6
    then ok hello
    else err (bad_service_id v)

unfoldable pub service_id_code : ServiceId → ℕ
service_id_code get = 3
service_id_code set = 4
service_id_code identify = 5
service_id_code hello = 6

pub data ServiceType : Type 0 where
  request response_success : ServiceType

unfoldable pub service_type_of : ℕ → Result DcpError ServiceType
service_type_of v =
    if v == 0 then ok request else if v == 1 then ok response_success else err (bad_service_type v)

unfoldable pub service_type_code : ServiceType → ℕ
service_type_code request = 0
service_type_code response_success = 1

pub record DcpHeader : Type 0 where
  pub service_id : ServiceId
  pub service_type : ServiceType
  pub xid : ℕ
  pub response_delay : ℕ
  pub data_length : ℕ

-- The header and the bytes of the blocks.
unfoldable pub parse : Bytes → Result DcpError (DcpHeader × Bytes)
parse buf = do
  fail_if (ltb (length buf) 10) (too_short 10 (length buf))
  service_id ← service_id_of (byte_at buf 0)
  service_type ← service_type_of (byte_at buf 1)
  let data_length = u16_at buf 8
  let need = 10 + data_length
  fail_if (ltb (length buf) need) (too_short need (length buf))
  ok (
    record {
      service_id = service_id;
      service_type = service_type;
      xid = u32_at buf 2;
      response_delay = u16_at buf 6;
      data_length = data_length;
    },
    slice buf 10 need,
  )

-- What `write` appends.
unfoldable pub write : DcpHeader → Bytes
write h =
    service_id_code h.service_id
    ∷ service_type_code h.service_type
    ∷ (be32 h.xid ++ (be16 h.response_delay ++ be16 h.data_length))
