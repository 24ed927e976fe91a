-- ===== src/Cm/Connect.antt =====
-- crates/pnio/src/cm/connect.rs: the Connect request's grouped blocks and the parameters of an AR.
pub mod Parse
pub mod Validate
pub mod Respond
pub mod Accepted
use pnio_rs.Prelude.{ℕ, List, Bytes}
use pnio_rs.Eth.Header.{MacAddr}
use pnio_rs.Rpc.Uuid.{Uuid}
use pnio_rs.Cm.Requests.{
  ArBlockReq, IocrObject, IocrBlockReq, ExpectedSubmoduleBlockReq, AlarmCrBlockReq,
}

pub record ConnectReq : Type 0 where
  pub ar : ArBlockReq
  pub iocrs : List IocrBlockReq
  pub expected : List ExpectedSubmoduleBlockReq
  pub alarm_cr : AlarmCrBlockReq

pub record IocrParams : Type 0 where
  pub reference : ℕ
  pub frame_id : ℕ
  pub data_length : ℕ
  pub send_clock_factor : ℕ
  pub reduction_ratio : ℕ
  pub watchdog_factor : ℕ
  pub data_hold_factor : ℕ
  pub io_data : List IocrObject
  pub iocs : List IocrObject

pub record ArParams : Type 0 where
  pub ar_uuid : Uuid
  pub session_key : ℕ
  pub initiator_mac : MacAddr
  pub initiator_object_uuid : Uuid
  pub activity_timeout_factor : ℕ
  pub input_cr : IocrParams
  pub output_cr : IocrParams
  pub alarm_ref_remote : ℕ
  pub max_alarm_data_length : ℕ
  pub max_alarm_data_length_remote : ℕ
  pub rta_timeout_factor : ℕ
  pub rta_retries : ℕ
  pub alarm_ref_local : ℕ
  pub alarm_tag_high : ℕ
  pub alarm_tag_low : ℕ
