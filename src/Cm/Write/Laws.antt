-- ===== src/Cm/Write/Laws.antt =====
-- The response's records.
use pnio_rs.Prelude.{ℕ, ◌≡◌, refl, ap, ◌∙◌, arith, List, [], ◌∷◌, ◌++◌, map, All}
use pnio_rs.Prelude.{Bytes, ok}
use pnio_rs.Rpc.Uuid
use pnio_rs.Cm.Block
use pnio_rs.Cm.Block.{read_all}
use pnio_rs.Cm.Block.Laws.{FitsBlock, header_of, headers, write_all, read_all-write_all}
use pnio_rs.Cm.Write.{
  Record, WriteReq, build_write_res, write_records, response_body, iod_write_res_header,
}

abbrev response_block : Record → ℕ × Bytes
response_block r = (iod_write_res_header, response_body r)

write_records_lem : (rs : List Record) → write_records rs ≡ write_all (map response_block rs)
unfolding write_records response_body Uuid.write
write_records_lem [] = refl
write_records_lem (r ∷ rs) =
    ap (λ (b : Bytes). Block.write iod_write_res_header 58 ++ (response_body r ++ b))
      (write_records_lem rs)

fits : (rs : List Record) → All FitsBlock (map response_block rs)
unfolding response_body Uuid.write
fits [] = tt
fits (r ∷ rs) = ((omega arith, omega arith), fits rs)

headers_lem :
    (rs : List Record)
    → headers (map response_block rs)
      ≡ map (λ r. (header_of iod_write_res_header 58, response_body r)) rs
unfolding response_body Uuid.write
headers_lem [] = refl
headers_lem (r ∷ rs) =
    ap (λ hs. (header_of iod_write_res_header 58, response_body r) ∷ hs) (headers_lem rs)

-- The response to a write has one block of 58 bytes for each record, in the request's order.
pub read_all-build_write_res :
    (req : WriteReq)
    → read_all (build_write_res req)
      ≡ ok (map (λ r. (header_of iod_write_res_header 58, response_body r)) req.records)
unfolding build_write_res
read_all-build_write_res req =
    ap read_all (write_records_lem req.records)
    ∙ read_all-write_all (map response_block req.records) (fits req.records)
    ∙ ap ok (headers_lem req.records)
