-- ===== src/Cm/Control/Body.antt =====
-- crates/pnio/src/cm/control.rs: the 26-byte body that all six control blocks share.
use pnio_rs.Prelude.{ℕ, Bytes, Result}
use pnio_rs.Rpc.Uuid.{Uuid}
use pnio_rs.Cm.Block.{BlockError}
use pnio_rs.Cm.Cursor.{Reader, ◌>>=◌, pure, run, u16, uuid}

pub record ControlFields : Type 0 where
  pub ar_uuid : Uuid
  pub session_key : ℕ
  pub command : ℕ
  pub properties : ℕ

read_fields : Reader ControlFields
read_fields = do
  reserved_1 ← u16
  ar_uuid ← uuid
  session_key ← u16
  reserved_2 ← u16
  command ← u16
  properties ← u16
  pure (record {
    ar_uuid = ar_uuid;
    session_key = session_key;
    command = command;
    properties = properties;
  })

unfoldable pub parse_fields : Bytes → Result BlockError ControlFields
unfolding read_fields
parse_fields body = run read_fields body
