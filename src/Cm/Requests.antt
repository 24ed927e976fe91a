-- ===== src/Cm/Requests.antt =====
-- crates/pnio/src/cm/block.rs: the blocks of a Connect request.
pub mod Parse
use pnio_rs.Prelude.{ℕ, Option, List, Bytes}
use pnio_rs.Eth.Header.{MacAddr}
use pnio_rs.Rpc.Uuid.{Uuid}

pub record ArBlockReq : Type 0 where
  pub ar_type : ℕ
  pub ar_uuid : Uuid
  pub session_key : ℕ
  pub initiator_mac : MacAddr
  pub initiator_object_uuid : Uuid
  pub ar_properties : ℕ
  pub activity_timeout_factor : ℕ
  pub initiator_udp_rt_port : ℕ
  pub station_name : Bytes

pub record IocrObject : Type 0 where
  pub slot : ℕ
  pub subslot : ℕ
  pub frame_offset : ℕ

pub record IocrApi : Type 0 where
  pub api : ℕ
  pub io_data : List IocrObject
  pub iocs : List IocrObject

pub record IocrBlockReq : Type 0 where
  pub iocr_type : ℕ
  pub reference : ℕ
  pub lt : ℕ
  pub properties : ℕ
  pub data_length : ℕ
  pub frame_id : ℕ
  pub send_clock_factor : ℕ
  pub reduction_ratio : ℕ
  pub phase : ℕ
  pub sequence : ℕ
  pub frame_send_offset : ℕ
  pub watchdog_factor : ℕ
  pub data_hold_factor : ℕ
  pub tag_header : ℕ
  pub multicast_mac : MacAddr
  pub apis : List IocrApi

pub record DataDescription : Type 0 where
  pub data_length : ℕ
  pub length_iocs : ℕ
  pub length_iops : ℕ

pub record ExpectedSubmodule : Type 0 where
  pub subslot : ℕ
  pub submodule_ident : ℕ
  pub properties : ℕ
  pub input : Option DataDescription
  pub output : Option DataDescription

pub record ExpectedApi : Type 0 where
  pub api : ℕ
  pub slot : ℕ
  pub module_ident : ℕ
  pub module_properties : ℕ
  pub submodules : List ExpectedSubmodule

pub record ExpectedSubmoduleBlockReq : Type 0 where
  pub apis : List ExpectedApi

pub record AlarmCrBlockReq : Type 0 where
  pub alarm_cr_type : ℕ
  pub lt : ℕ
  pub properties : ℕ
  pub rta_timeout_factor : ℕ
  pub rta_retries : ℕ
  pub local_alarm_reference : ℕ
  pub max_alarm_data_length : ℕ
  pub tag_header_high : ℕ
  pub tag_header_low : ℕ
