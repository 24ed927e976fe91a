-- ===== src/Cm/Connect/Respond.antt =====
-- crates/pnio/src/cm/connect.rs: the blocks of the Connect response.
use pnio_rs.Prelude.{ℕ, ◌+◌, ◌-◌, ◌%◌, ◌++◌, Bytes, length, be16, u16, replicate}
use pnio_rs.Eth.Header.{mac_bytes}
use pnio_rs.Rpc.Drep.{big}
use pnio_rs.Rpc.Uuid
use pnio_rs.Cm.Block
use pnio_rs.Cm.Model.{DeviceModel}
use pnio_rs.Cm.Connect.{ArParams, IocrParams}

abbrev pub ar_block_res : ℕ
ar_block_res = 0x8101

abbrev pub iocr_block_res : ℕ
iocr_block_res = 0x8102

abbrev pub alarm_cr_block_res : ℕ
alarm_cr_block_res = 0x8103

abbrev pub ar_server_block_res : ℕ
ar_server_block_res = 0x8106

-- `BlockHeader::write(out, block_type, body.len() as u16)`, then the body.
abbrev with_header : ℕ → Bytes → Bytes
with_header block_type body = Block.write block_type (u16 (length body)) ++ body

unfoldable pub ar_block_body : ArParams → DeviceModel → Bytes
ar_block_body params model =
    be16 1
    ++ (Uuid.write params.ar_uuid big
        ++ (be16 params.session_key ++ (mac_bytes model.mac ++ be16 0x8892)))

unfoldable pub iocr_block_body : ℕ → IocrParams → Bytes
iocr_block_body iocr_type cr = be16 iocr_type ++ (be16 cr.reference ++ be16 cr.frame_id)

unfoldable pub alarm_cr_block_body : ℕ → Bytes
alarm_cr_block_body max_alarm_data_length = be16 1 ++ (be16 0 ++ be16 max_alarm_data_length)

-- The zeros that make the block's length a multiple of four.
unfoldable pub ar_server_block_body : Bytes → Bytes
ar_server_block_body station_name =
    be16 (u16 (length station_name))
    ++ (station_name ++ replicate ((4 - (6 + (2 + length station_name)) % 4) % 4) 0)

unfoldable pub write_ar_block_res : ArParams → DeviceModel → Bytes
write_ar_block_res params model = with_header ar_block_res (ar_block_body params model)

unfoldable pub write_iocr_block_res : ℕ → IocrParams → Bytes
write_iocr_block_res iocr_type cr = with_header iocr_block_res (iocr_block_body iocr_type cr)

unfoldable pub write_alarm_cr_block_res : ℕ → Bytes
write_alarm_cr_block_res max_alarm_data_length =
    with_header alarm_cr_block_res (alarm_cr_block_body max_alarm_data_length)

unfoldable pub write_ar_server_block_res : Bytes → Bytes
write_ar_server_block_res station_name =
    with_header ar_server_block_res (ar_server_block_body station_name)

unfoldable pub build_connect_res : ArParams → DeviceModel → Bytes
build_connect_res params model =
    write_ar_block_res params model
    ++ (write_iocr_block_res 1 params.input_cr
        ++ (write_iocr_block_res 2 params.output_cr
            ++ (write_alarm_cr_block_res model.max_alarm_data_length
                ++ write_ar_server_block_res model.station_name)))
