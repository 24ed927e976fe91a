-- ===== src/Cm/Status.antt =====
-- crates/pnio/src/cm/status.rs: the PNIO status word.
use pnio_rs.Prelude.{ℕ, ◌/◌, ◌%◌, Bool, ◌==◌, from_be32}

pub data ConnectBlock : Type 0 where
  ar_block iocr_block expected_submodule alarm_cr : ConnectBlock

-- `block as u8`
abbrev pub connect_block_code : ConnectBlock → ℕ
connect_block_code ar_block = 1
connect_block_code iocr_block = 2
connect_block_code expected_submodule = 3
connect_block_code alarm_cr = 4

-- `PnioStatus(pub u32)`
pub record PnioStatus : Type 0 where
  pub value : ℕ

abbrev pub status_ok : PnioStatus
status_ok = record { value = 0 }

abbrev pub new : ℕ → ℕ → ℕ → ℕ → PnioStatus
new code decode code1 code2 = record { value = from_be32 code decode code1 code2 }

abbrev pub code : PnioStatus → ℕ
code s = s.value / 16777216 % 256

abbrev pub decode : PnioStatus → ℕ
decode s = s.value / 65536 % 256

abbrev pub code1 : PnioStatus → ℕ
code1 s = s.value / 256 % 256

abbrev pub code2 : PnioStatus → ℕ
code2 s = s.value % 256

abbrev pub is_ok : PnioStatus → Bool
is_ok s = s.value == 0

abbrev pub to_u32 : PnioStatus → ℕ
to_u32 s = s.value

abbrev pub connect_reject : ConnectBlock → ℕ → PnioStatus
connect_reject block field = new 0xDB 0x81 (connect_block_code block) field

abbrev pub connect_ar_already_exists : PnioStatus
connect_ar_already_exists = new 0xDB 0x81 0x3d 0x0e

abbrev pub write_index_unsupported : PnioStatus
write_index_unsupported = new 0xDF 0x80 0xB0 0x00

abbrev pub write_wrong_ar : PnioStatus
write_wrong_ar = new 0xDF 0x81 0x3d 0x03

abbrev pub write_resource_unavailable : PnioStatus
write_resource_unavailable = new 0xDF 0x80 0xC3 0x00

abbrev pub control_wrong_state : PnioStatus
control_wrong_state = new 0xDD 0x81 0x3d 0x03

abbrev pub service_unsupported : PnioStatus
service_unsupported = new 0x81 0x81 0x05 0x00

abbrev pub read_index_unsupported : PnioStatus
read_index_unsupported = new 0xDE 0x80 0xB0 0x00

abbrev pub read_wrong_ar : PnioStatus
read_wrong_ar = new 0xDE 0x81 0x3d 0x03

abbrev pub write_invalid_parameter : PnioStatus
write_invalid_parameter = new 0xDF 0x81 0xB0 0x02

abbrev pub rta_abort : ℕ → PnioStatus
rta_abort c = new 0xCF 0x81 0xFD c
