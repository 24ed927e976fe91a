-- ===== src/Cm/Write.antt =====
-- crates/pnio/src/cm/write.rs: parameter writes.
pub mod Laws
use pnio_rs.Prelude.{
  ℕ, zero, suc, ◌+◌, ◌*◌, ◌/◌, not, ltb, ◌==◌, if◌then◌else◌, List, [], ◌∷◌, ◌++◌,
}
use pnio_rs.Prelude.{Bytes, length, drop, slice, be16, be32, replicate}
use pnio_rs.Prelude.{Result, ok, err, ◌>>=◌, ◌>>◌, fail_if, map_err}
use pnio_rs.Rpc.Drep.{big}
use pnio_rs.Rpc.Uuid.{Uuid}
use pnio_rs.Rpc.Uuid
use pnio_rs.Cm.Block.{BlockError, unexpected_type, too_short, header_len}
use pnio_rs.Cm.Block
use pnio_rs.Cm.Control.{CmError, block_error}
use pnio_rs.Cm.Write.Fields.{WriteFields, parse_fields}
mod Fields

abbrev pub index_multiple_write : ℕ
index_multiple_write = 0xe040

abbrev pub iod_write_req_header : ℕ
iod_write_req_header = 0x0008

abbrev pub iod_write_res_header : ℕ
iod_write_res_header = 0x8008

pub record Record : Type 0 where
  pub seq : ℕ
  pub ar_uuid : Uuid
  pub api : ℕ
  pub slot : ℕ
  pub subslot : ℕ
  pub index : ℕ
  pub payload : Bytes

pub record WriteReq : Type 0 where
  pub records : List Record

abbrev pub record_of : WriteFields → Bytes → Record
record_of f payload = record {
  seq = f.seq;
  ar_uuid = f.ar_uuid;
  api = f.api;
  slot = f.slot;
  subslot = f.subslot;
  index = f.index;
  payload = payload;
}

-- The record in front and the bytes it takes. A `usize` has 64 bits, so `checked_add` does not
-- overflow.
unfoldable pub parse_one : Bytes → Result BlockError (Record × ℕ)
parse_one buf = do
  (header, body) ← Block.parse buf
  fail_if (not (header.block_type == iod_write_req_header))
      (unexpected_type iod_write_req_header header.block_type)
  f ← parse_fields body
  let data_end = header_len + length body + f.record_data_length
  fail_if (ltb (length buf) data_end) (too_short data_end (length buf))
  ok (record_of f (slice buf (header_len + length body) data_end), data_end)

-- `(n + 3) & !3`
abbrev pub align4 : ℕ → ℕ
align4 n = (n + 3) / 4 * 4

-- The loop over the nested records. A record takes six bytes at least, so the buffer's length is
-- fuel enough.
nested_loop : ℕ → Bytes → ℕ → Result BlockError (List Record)
nested_loop zero payload pos = ok []
nested_loop (suc fuel) payload pos =
    let step = parse_one (drop pos payload) >>= λ (r : Record × ℕ).
    nested_loop fuel payload (align4 (pos + r.1)) >>= λ rest. ok (r.0 ∷ rest) in
    if ltb pos (length payload) then step else ok []

unfoldable pub nested : Bytes → Result BlockError (List Record)
unfolding nested_loop
nested payload = nested_loop (length payload) payload 0

unfoldable pub parse : Bytes → Result CmError WriteReq
parse blocks = do
  (outer, consumed) ← map_err block_error (parse_one blocks)
  if outer.index == index_multiple_write
      then map_err block_error
          (nested outer.payload >>= λ rest. ok (record { records = outer ∷ rest }))
      else ok (record { records = outer ∷ [] })

unfoldable pub response_body : Record → Bytes
response_body r =
    be16 r.seq
    ++ (Uuid.write r.ar_uuid big
        ++ (be32 r.api
            ++ (be16 r.slot
                ++ (be16 r.subslot
                    ++ (be16 0
                        ++ (be16 r.index
                            ++ (be32 0 ++ (be16 0 ++ (be16 0 ++ (be32 0 ++ replicate 16 0))))))))))

write_records : List Record → Bytes
write_records [] = []
write_records (r ∷ rs) =
    Block.write iod_write_res_header 58 ++ (response_body r ++ write_records rs)

unfoldable pub build_write_res : WriteReq → Bytes
unfolding write_records
build_write_res req = write_records req.records
