-- ===== src/Cm/Connect/Parse.antt =====
-- crates/pnio/src/cm/connect.rs: `ConnectReq::parse`.
use pnio_rs.Prelude.{ℕ, Option, none, some, List, [], ◌∷◌, ◌++◌, ◌==◌, if◌then◌else◌, Bytes}
use pnio_rs.Prelude.{Result, ok, err, ◌>>=◌, map_err}
use pnio_rs.Cm.Status.{ar_block, alarm_cr, connect_reject}
use pnio_rs.Cm.Block.{BlockHeader, read_all}
use pnio_rs.Cm.Control.{CmError, block_error, reject}
use pnio_rs.Cm.Requests.{ArBlockReq, IocrBlockReq, ExpectedSubmoduleBlockReq, AlarmCrBlockReq}
use pnio_rs.Cm.Requests.Parse.{
  parse_ar_block, parse_iocr_block, parse_expected_block, parse_alarm_cr_block,
}
use pnio_rs.Cm.Connect.{ConnectReq}

abbrev pub ar_block_req : ℕ
ar_block_req = 0x0101

abbrev pub iocr_block_req : ℕ
iocr_block_req = 0x0102

abbrev pub alarm_cr_block_req : ℕ
alarm_cr_block_req = 0x0103

abbrev pub expected_submodule_block_req : ℕ
expected_submodule_block_req = 0x0104

-- The loop's four variables.
pub record Groups : Type 0 where
  pub ar : Option ArBlockReq
  pub iocrs : List IocrBlockReq
  pub expected : List ExpectedSubmoduleBlockReq
  pub alarm_cr : Option AlarmCrBlockReq

abbrev pub no_groups : Groups
no_groups = record { ar = none; iocrs = []; expected = []; alarm_cr = none }

abbrev add_ar : Option ArBlockReq → Bytes → Groups → Result CmError Groups
add_ar (some a) body g = err (reject (connect_reject ar_block 0))
add_ar none body g = do a ← map_err block_error (parse_ar_block body); ok (record g { ar = some a })

abbrev add_iocr : Bytes → Groups → Result CmError Groups
add_iocr body g = do
  cr ← map_err block_error (parse_iocr_block body)
  ok (record g { iocrs = g.iocrs ++ (cr ∷ []) })

abbrev add_expected : Bytes → Groups → Result CmError Groups
add_expected body g = do
  e ← map_err block_error (parse_expected_block body)
  ok (record g { expected = g.expected ++ (e ∷ []) })

abbrev add_alarm_cr : Option AlarmCrBlockReq → Bytes → Groups → Result CmError Groups
add_alarm_cr (some a) body g = err (reject (connect_reject alarm_cr 0))
add_alarm_cr none body g = do
  a ← map_err block_error (parse_alarm_cr_block body)
  ok (record g { alarm_cr = some a })

unfoldable pub add_block : BlockHeader → Bytes → Groups → Result CmError Groups
add_block header body g =
    if header.block_type == ar_block_req
    then add_ar g.ar body g
    else if header.block_type == iocr_block_req
    then add_iocr body g
    else if header.block_type == expected_submodule_block_req
    then add_expected body g
    else if header.block_type == alarm_cr_block_req
    then add_alarm_cr g.alarm_cr body g
    else err (reject (connect_reject ar_block 0xff))

unfoldable pub group : List (BlockHeader × Bytes) → Groups → Result CmError Groups
group [] g = ok g
group (b ∷ bs) g = add_block b.0 b.1 g >>= λ g'. group bs g'

abbrev required_ar : Option ArBlockReq → Result CmError ArBlockReq
required_ar (some a) = ok a
required_ar none = err (reject (connect_reject ar_block 0))

abbrev required_alarm_cr : Option AlarmCrBlockReq → Result CmError AlarmCrBlockReq
required_alarm_cr (some a) = ok a
required_alarm_cr none = err (reject (connect_reject alarm_cr 0))

unfoldable pub parse : Bytes → Result CmError ConnectReq
parse blocks = do
  all ← map_err block_error (read_all blocks)
  g ← group all no_groups
  ar ← required_ar g.ar
  acr ← required_alarm_cr g.alarm_cr
  ok (record { ar = ar; iocrs = g.iocrs; expected = g.expected; alarm_cr = acr })
