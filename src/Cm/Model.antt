-- ===== src/Cm/Model.antt =====
-- crates/pnio/src/cm/model.rs: the device's slots and submodules. Strings are their UTF-8 bytes.
use pnio_rs.Prelude.{ℕ, Option, none, some, List, Bytes, find, ◌==◌}
use pnio_rs.Eth.Header.{MacAddr}
use pnio_rs.Rpc.Uuid.{Uuid, pnio_object}

pub record SubmoduleModel : Type 0 where
  pub subslot : ℕ
  pub submodule_ident : ℕ
  pub input_len : ℕ
  pub output_len : ℕ

pub record SlotModel : Type 0 where
  pub slot : ℕ
  pub module_ident : ℕ
  pub submodules : List SubmoduleModel

pub record DeviceModel : Type 0 where
  pub vendor_id : ℕ
  pub device_id : ℕ
  pub instance_id : ℕ
  pub station_name : Bytes
  pub mac : MacAddr
  pub max_alarm_data_length : ℕ
  pub slots : List SlotModel

unfoldable pub find_slot : DeviceModel → ℕ → Option SlotModel
find_slot model slot = find (λ s. s.slot == slot) model.slots

abbrev pub submodule_in : Option SlotModel → ℕ → Option SubmoduleModel
submodule_in none subslot = none
submodule_in (some s) subslot = find (λ sm. sm.subslot == subslot) s.submodules

-- `DeviceModel::find`
unfoldable pub find_submodule : DeviceModel → ℕ → ℕ → Option SubmoduleModel
find_submodule model slot subslot = submodule_in (find_slot model slot) subslot

unfoldable pub object_uuid : DeviceModel → Uuid
object_uuid model = pnio_object model.instance_id model.device_id model.vendor_id
