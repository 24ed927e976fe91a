-- ===== src/Cm/Write/Fields.antt =====
-- crates/pnio/src/cm/write.rs: the fields of a write request's block.
use pnio_rs.Prelude.{ℕ, Bytes, Result}
use pnio_rs.Rpc.Uuid.{Uuid}
use pnio_rs.Cm.Block.{BlockError}
use pnio_rs.Cm.Cursor.{Reader, ◌>>=◌, pure, run, u16, u32, bytes, uuid}

pub record WriteFields : Type 0 where
  pub seq : ℕ
  pub ar_uuid : Uuid
  pub api : ℕ
  pub slot : ℕ
  pub subslot : ℕ
  pub index : ℕ
  pub record_data_length : ℕ

read_fields : Reader WriteFields
read_fields = do
  seq ← u16
  ar_uuid ← uuid
  api ← u32
  slot ← u16
  subslot ← u16
  pad ← u16
  index ← u16
  record_data_length ← u32
  padding ← bytes 24
  pure (record {
    seq = seq;
    ar_uuid = ar_uuid;
    api = api;
    slot = slot;
    subslot = subslot;
    index = index;
    record_data_length = record_data_length;
  })

unfoldable pub parse_fields : Bytes → Result BlockError WriteFields
unfolding read_fields
parse_fields body = run read_fields body
