-- ===== src/Cm/Control/RoundTrip.antt =====
-- Reading back a control block.
use pnio_rs.Prelude.{ℕ, ◌≡◌, arith, ap, ◌∙◌, true, Bytes, ok, IsU16, be16, ◌++◌}
use pnio_rs.Rpc.Uuid.{IsUuid, uuid_bytes, read-bytes, write-big}
use pnio_rs.Cm.Block
use pnio_rs.Cm.Block.Laws.{block_parse-write}
use pnio_rs.Cm.Control.{ControlBlock, is_control_type, parse, write, body_len}
use pnio_rs.Cm.Control.Body.{ControlFields, parse_fields}

pub record IsControl (b : ControlBlock) : Type 0 where
  pub type_fits : is_control_type b.block_type ≡ true
  pub uuid_fits : IsUuid b.ar_uuid
  pub key_fits : IsU16 b.session_key
  pub command_fits : IsU16 b.command
  pub properties_fit : IsU16 b.properties

abbrev body_of : ControlBlock → Bytes
body_of b =
    be16 0
    ++ (uuid_bytes b.ar_uuid
        ++ (be16 b.session_key ++ (be16 0 ++ (be16 b.command ++ be16 b.properties))))

write_lem :
    (b : ControlBlock) (rest : Bytes)
    → IsControl b
    → write b ++ rest ≡ Block.write b.block_type body_len ++ (body_of b ++ rest)
unfolding write Block.write
write_lem b rest h =
    ap
      (λ (u : Bytes).
        (Block.write b.block_type body_len
          ++ (be16 0
              ++ (u ++ (be16 b.session_key ++ (be16 0 ++ (be16 b.command ++ be16 b.properties))))))
        ++ rest)
      (write-big b.ar_uuid h.uuid_fits)

abbrev fields_of : ControlBlock → ControlFields
fields_of b = record {
  ar_uuid = b.ar_uuid;
  session_key = b.session_key;
  command = b.command;
  properties = b.properties;
}

fields_lem : (b : ControlBlock) → IsControl b → parse_fields (body_of b) ≡ ok (fields_of b)
unfolding parse_fields
fields_lem b h = ground (arith, read-bytes b.ar_uuid h.uuid_fits)

type_lem : (t : ℕ) → is_control_type t ≡ true → IsU16 t
unfolding is_control_type
type_lem t h = ground arith

parse_blocks :
    (b : ControlBlock) (rest : Bytes)
    → IsControl b
    → parse (Block.write b.block_type body_len ++ (body_of b ++ rest)) ≡ ok b
unfolding parse
parse_blocks b rest h = ground (
  arith,
  block_parse-write b.block_type (body_of b) rest (type_lem b.block_type h.type_fits) (omega arith),
  fields_lem b h,
)

-- A written control block is read back, whatever follows it.
pub parse-write_control :
    (b : ControlBlock) (rest : Bytes) → IsControl b → parse (write b ++ rest) ≡ ok b
parse-write_control b rest h = ap parse (write_lem b rest h) ∙ parse_blocks b rest h
