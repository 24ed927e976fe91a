-- ===== src/Examples/Stations.antt =====
-- A station looks for the small device and sets its address, and the device's diagnoses.
use pnio_rs.Prelude.{◌≡◌, arith, false, none, some, [], ◌∷◌, ok}
use pnio_rs.Dcp.Block.{DcpBlock, parse_blocks, write_blocks}
use pnio_rs.Dcp.Block.Laws.{parse_blocks-write_blocks}
use pnio_rs.Dcp.Block.Reads.{Reads, parse_blocks-Reads}
use pnio_rs.Diag.History.{Change, raised, no_more, run, severity_of, standing}
use pnio_rs.Prelude.{List, Bytes, length}
use pnio_rs.Dcp.Identify.{DeviceProperties}
use pnio_rs.Dcp.Handle.{DcpConfig}
use pnio_rs.Diag.{
  Diagnosis, DiagStore, SubmoduleInfo, line_break, fault_severity, input, input_output, new, replay,
  infos, from_model, key_of,
}
use pnio_rs.Diag.Map.{lookup}
use pnio_rs.Diag.Keys.{IsSorted}
use pnio_rs.Diag.Invariant.{IsStore}
use pnio_rs.Diag.Replay.{Replays, replay-Replays}
use pnio_rs.Examples.Values.{device, device_mac}

abbrev properties : DeviceProperties
properties = record {
  name_of_station = 100 ∷ 101 ∷ 118 ∷ [];
  type_of_station = 112 ∷ 110 ∷ [];
  vendor_id = 1;
  device_id = 2;
  device_role = 1;
  device_instance = 1;
  device_options = 2 ∷ 2 ∷ 2 ∷ 5 ∷ [];
  ip = 192 ∷ 168 ∷ 0 ∷ 2 ∷ [];
  subnet = 255 ∷ 255 ∷ 255 ∷ 0 ∷ [];
  gateway = 192 ∷ 168 ∷ 0 ∷ 1 ∷ [];
  ip_block_info = 1;
}

abbrev dcp : DcpConfig
dcp = record { mac = device_mac; properties = properties }

abbrev name_filter : DcpBlock
name_filter = record { option = 2; suboption = 2; block_info = none; value = 100 ∷ 101 ∷ 118 ∷ [] }

parse_blocks-write_blocks_example :
    parse_blocks (write_blocks (name_filter ∷ name_filter ∷ [])) false
    ≡ ok (name_filter ∷ name_filter ∷ [])
parse_blocks-write_blocks_example =
    parse_blocks-write_blocks false (name_filter ∷ name_filter ∷ []) (omega arith)

-- Another gateway.
abbrev ip_block : DcpBlock
ip_block = record {
  option = 1;
  suboption = 2;
  block_info = some 0;
  value = 192 ∷ 168 ∷ 0 ∷ 2 ∷ 255 ∷ 255 ∷ 255 ∷ 0 ∷ 192 ∷ 168 ∷ 0 ∷ 9 ∷ [];
}

abbrev submodule : SubmoduleInfo
submodule = record {
  slot = 1;
  subslot = 1;
  module_ident = 0x30;
  submodule_ident = 0x31;
  direction = input;
}

abbrev broken_line : Diagnosis
broken_line = record {
  slot = 1;
  channel = 4;
  error = line_break;
  severity = fault_severity;
  direction = input_output;
}

abbrev store : DiagStore
store = new (submodule ∷ [])

store-IsStore : IsStore store
store-IsStore = record { sorted = tt; entries = tt }

abbrev changes : List Change
changes =
    raised broken_line ∷ raised (record broken_line { channel = 5 }) ∷ no_more 1 5 line_break ∷ []

replay-Replays_example :
    let s = run (from_model device) changes in
    Replays (infos device.slots) s.active (replay s)
    × IsSorted s.active
    × (severity_of (lookup (key_of broken_line) s.active)
        ≡ standing (infos device.slots) (key_of broken_line) none changes)
replay-Replays_example = replay-Replays device changes (key_of broken_line)

-- A block of odd length, and the beginning of another one.
abbrev odd_blocks : Bytes
odd_blocks = 2 ∷ 2 ∷ 0 ∷ 1 ∷ 100 ∷ 0 ∷ 2 ∷ 2 ∷ []

parse_blocks-Reads_example :
    Reads false (length odd_blocks) 0 odd_blocks (parse_blocks odd_blocks false)
parse_blocks-Reads_example = parse_blocks-Reads false odd_blocks
