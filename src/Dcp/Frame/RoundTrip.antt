-- ===== src/Dcp/Frame/RoundTrip.antt =====
-- Reading back a DCP header.
use pnio_rs.Prelude.{◌≡◌, arith, refl, ◌++◌, Bytes, length, ok, IsU16, IsU32}
use pnio_rs.Prelude.{length-append, take-length-append}
use pnio_rs.Dcp.Frame.{
  ServiceId, get, set, identify, hello, service_id_of, service_id_code, ServiceType, request,
  response_success, service_type_of, service_type_code, DcpHeader, parse, write,
}

service_id_lem : (s : ServiceId) → service_id_of (service_id_code s) ≡ ok s
unfolding service_id_of service_id_code
service_id_lem get = refl
service_id_lem set = refl
service_id_lem identify = refl
service_id_lem hello = refl

service_type_lem : (s : ServiceType) → service_type_of (service_type_code s) ≡ ok s
unfolding service_type_of service_type_code
service_type_lem request = refl
service_type_lem response_success = refl

-- A written header is read back with the bytes of the blocks that it declares.
pub dcp_parse-write :
    (h : DcpHeader) (blocks rest : Bytes)
    → IsU32 h.xid
    → IsU16 h.response_delay
    → IsU16 h.data_length
    → h.data_length ≡ length blocks
    → parse (write h ++ (blocks ++ rest)) ≡ ok (h, blocks)
unfolding parse write
dcp_parse-write h blocks rest hx hr hd same = ground (
  arith,
  service_id_lem h.service_id,
  service_type_lem h.service_type,
  length-append blocks rest,
  take-length-append blocks rest,
)
