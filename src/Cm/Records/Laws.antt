-- ===== src/Cm/Records/Laws.antt =====
-- What a write to an I&M record does to later reads, and how the response to a read is laid out.
use pnio_rs.Prelude.{
  ℕ, ◌≡◌, ◌≢◌, arith, refl, ap, sym, ◌∙◌, append-nil, some, [], ◌++◌, Bytes, length,
}
use pnio_rs.Prelude.{ok}
use pnio_rs.Im.{ImStore, shape_of, put_body}
use pnio_rs.Im
use pnio_rs.Im.Laws.{im_read-write}
use pnio_rs.Cm.Status.{status_ok}
use pnio_rs.Cm.Model.{SubmoduleModel, find_submodule}
use pnio_rs.Cm.Block
use pnio_rs.Cm.Write.{Record}
use pnio_rs.Cm.Records.Fields.{ReadReq}
use pnio_rs.Cm.Records.{RecordCtx, read_record, write_im_record}

stored_lem :
    (ctx : RecordCtx) (r : Record) (t : ℕ) (body : Bytes) (sm : SubmoduleModel)
    → r.payload ≡ Block.write t (length body) ++ body
    → shape_of r.index ≡ some (t, length body)
    → find_submodule ctx.model r.slot r.subslot ≡ some sm
    → write_im_record r ctx.model ctx.im ≡ (put_body ctx.im r.index body, status_ok)
unfolding write_im_record
stored_lem ctx r t body sm whole shape known =
    let accepted : Im.write ctx.im r.index r.payload ≡ ok (put_body ctx.im r.index body) =
      ap (Im.write ctx.im r.index)
        (whole ∙ ap (λ (b : Bytes). Block.write t (length body) ++ b) (sym (append-nil body)))
      ∙ (im_read-write ctx.im r.index t body [] shape).0 in
    ground (arith, known, accepted)

-- An I&M record that is written to a submodule of the model is what every submodule of the model
-- reads under that index from then on, and no other index reads differently.
pub read_record-write_im_record :
    (ctx : RecordCtx) (r : Record) (t : ℕ) (body : Bytes) (sm : SubmoduleModel)
    → r.payload ≡ Block.write t (length body) ++ body
    → shape_of r.index ≡ some (t, length body)
    → find_submodule ctx.model r.slot r.subslot ≡ some sm
    → ((write_im_record r ctx.model ctx.im).1 ≡ status_ok)
      × ((req : ReadReq) (other : SubmoduleModel)
          → find_submodule ctx.model req.slot req.subslot ≡ some other
          → req.index ≡ r.index
          → read_record req (record ctx { im = (write_im_record r ctx.model ctx.im).0 })
            ≡ some r.payload)
      × ((req : ReadReq)
          → req.index ≢ r.index
          → read_record req (record ctx { im = (write_im_record r ctx.model ctx.im).0 })
            ≡ read_record req ctx)
unfolding read_record
read_record-write_im_record ctx r t body sm whole shape known =
    let (accepted, own, others) = im_read-write ctx.im r.index t body [] shape in
    let stored = stored_lem ctx r t body sm whole shape known in
    rw stored
      (refl, λ req other found same. ground arith, λ req ne. ground (arith, others req.index ne))
