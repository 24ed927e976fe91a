-- ===== src/Rt/Layout.antt =====
-- crates/pnio/src/rt/layout.rs: the serialization tables of an AR. Durations are nanoseconds.
pub mod Build
pub mod Bounds
pub mod Disjoint
use pnio_rs.Prelude.{ℕ, Option, List}

pub record IoObject : Type 0 where
  pub slot : ℕ
  pub subslot : ℕ
  pub data_off : ℕ
  pub data_len : ℕ
  pub iops_off : ℕ

pub record CsObject : Type 0 where
  pub slot : ℕ
  pub subslot : ℕ
  pub iocs_off : ℕ

pub record CrLayout : Type 0 where
  pub frame_id : ℕ
  pub data_length : ℕ
  pub cycle_step : ℕ
  pub watchdog : ℕ
  pub objects : List IoObject
  pub iocs : List CsObject

pub record Cell : Type 0 where
  pub slot : ℕ
  pub subslot : ℕ
  pub input_len : ℕ
  pub output_len : ℕ
  pub input_off : Option ℕ
  pub output_off : Option ℕ

pub record Layout : Type 0 where
  pub input_cr : CrLayout
  pub output_cr : CrLayout
  pub cells : List Cell
