-- ===== src/Cm/Records.antt =====
-- crates/pnio/src/cm/records.rs: reading records, and the I&M part of a write.
pub mod Laws
use pnio_rs.Prelude.{ℕ, ◌%◌, ◌&&◌, not, Option, none, some, [], ◌∷◌, ◌++◌, Bytes, length, leb, ◌==◌}
use pnio_rs.Prelude.{be16, be32, replicate, if◌then◌else◌, Result, ok, err, ◌>>=◌, ◌>>◌, fail_if}
use pnio_rs.Prelude.{map_err}
use pnio_rs.Rpc.Drep.{big}
use pnio_rs.Rpc.Uuid.{Uuid}
use pnio_rs.Rpc.Uuid
use pnio_rs.Im.{
  Im0, ImStore, ImError, encode_im0, im_supported_dap, index_im0, index_im1, index_im3,
}
use pnio_rs.Im
use pnio_rs.Cm.Status.{PnioStatus, status_ok, write_invalid_parameter}
use pnio_rs.Cm.Model.{DeviceModel, SubmoduleModel, find_submodule}
use pnio_rs.Cm.Block.{BlockError, unexpected_type}
use pnio_rs.Cm.Block
use pnio_rs.Cm.Control.{CmError, block_error}
use pnio_rs.Cm.Write.{Record}
use pnio_rs.Cm.Records.Fields.{ReadReq, parse_fields}
pub mod Fields

abbrev pub iod_read_req_header : ℕ
iod_read_req_header = 0x0009

abbrev pub iod_read_res_header : ℕ
iod_read_res_header = 0x8009

unfoldable pub parse : Bytes → Result CmError ReadReq
parse blocks = do
  (header, body) ← map_err block_error (Block.parse blocks)
  fail_if (not (header.block_type == iod_read_req_header))
      (block_error (unexpected_type iod_read_req_header header.block_type))
  map_err block_error (parse_fields body)

unfoldable pub response_body : ReadReq → ℕ → Bytes
response_body req len =
    be16 req.seq
    ++ (Uuid.write req.ar_uuid big
        ++ (be32 req.api
            ++ (be16 req.slot
                ++ (be16 req.subslot
                    ++ (be16 0
                        ++ (be16 req.index
                            ++ (be32 len ++ (be16 0 ++ (be16 0 ++ replicate 20 0)))))))))

unfoldable pub build_read_res : ReadReq → Bytes → Bytes
build_read_res req content =
    Block.write iod_read_res_header 58 ++ (response_body req (length content) ++ content)

pub record RecordCtx : Type 0 where
  pub model : DeviceModel
  pub im0 : Im0
  pub im : ImStore

abbrev served : ReadReq → RecordCtx → Option Bytes
served req ctx =
    if req.index == index_im0
    then some (encode_im0 ctx.model.vendor_id ctx.im0 im_supported_dap)
    else if leb index_im1 req.index && leb req.index index_im3
    then Im.read ctx.im req.index
    else none

unfoldable pub read_record : ReadReq → RecordCtx → Option Bytes
read_record req ctx = elim (find_submodule ctx.model req.slot req.subslot) [
  | none ↦ none
  | some sm ↦ served req ctx
]

abbrev pub written : ImStore → Result ImError ImStore → ImStore × PnioStatus
written im (ok im') = (im', status_ok)
written im (err e) = (im, write_invalid_parameter)

-- The store behind the write, and the status.
unfoldable pub write_im_record : Record → DeviceModel → ImStore → ImStore × PnioStatus
write_im_record r model im = elim (find_submodule model r.slot r.subslot) [
  | none ↦ (im, write_invalid_parameter)
  | some sm ↦ written im (Im.write im r.index r.payload)
]
