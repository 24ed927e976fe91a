-- ===== src/Alarm/Fields.antt =====
-- crates/pnio/src/alarm/rta.rs: the coded fields of an alarm (type, specifier, channel properties).
-- Fields of a word that share no bit are joined by `+` where the code writes `|`.
pub mod Laws
use pnio_rs.Prelude.{ℕ, ◌+◌, ◌*◌, ◌/◌, ◌%◌, ◌≡◌, Bool, true, false, ◌==◌, if◌then◌else◌}
use pnio_rs.Prelude.{test_bit, bit_of, u16, ◌^◌, arith}

pub data AlarmType : Type 0 where
  diagnosis process pull plug status update redundancy : AlarmType
  controlled_by_supervisor released plug_wrong_submodule return_of_submodule : AlarmType
  diagnosis_disappears : AlarmType
  other : ℕ → AlarmType

unfoldable pub type_from_u16 : ℕ → AlarmType
type_from_u16 v =
    if v == 0x0001
    then diagnosis
    else if v == 0x0002
    then process
    else if v == 0x0003
    then pull
    else if v == 0x0004
    then plug
    else if v == 0x0005
    then status
    else if v == 0x0006
    then update
    else if v == 0x0007
    then redundancy
    else if v == 0x0008
    then controlled_by_supervisor
    else if v == 0x0009
    then released
    else if v == 0x000A
    then plug_wrong_submodule
    else if v == 0x000B
    then return_of_submodule
    else if v == 0x000C
    then diagnosis_disappears
    else other v

unfoldable pub type_to_u16 : AlarmType → ℕ
type_to_u16 diagnosis = 0x0001
type_to_u16 process = 0x0002
type_to_u16 pull = 0x0003
type_to_u16 plug = 0x0004
type_to_u16 status = 0x0005
type_to_u16 update = 0x0006
type_to_u16 redundancy = 0x0007
type_to_u16 controlled_by_supervisor = 0x0008
type_to_u16 released = 0x0009
type_to_u16 plug_wrong_submodule = 0x000A
type_to_u16 return_of_submodule = 0x000B
type_to_u16 diagnosis_disappears = 0x000C
type_to_u16 (other v) = v

-- `AlarmType` derives `PartialEq`: the constructors agree, and the numbers of two `other`.
unfoldable pub type_eq : AlarmType → AlarmType → Bool
type_eq diagnosis diagnosis = true
type_eq process process = true
type_eq pull pull = true
type_eq plug plug = true
type_eq status status = true
type_eq update update = true
type_eq redundancy redundancy = true
type_eq controlled_by_supervisor controlled_by_supervisor = true
type_eq released released = true
type_eq plug_wrong_submodule plug_wrong_submodule = true
type_eq return_of_submodule return_of_submodule = true
type_eq diagnosis_disappears diagnosis_disappears = true
type_eq (other v) (other w) = v == w
type_eq _ _ = false

pub record AlarmSpecifier : Type 0 where
  pub sequence : ℕ
  pub channel_diag : Bool
  pub manufacturer_diag : Bool
  pub submodule_diag : Bool
  pub ar_diag : Bool

unfoldable pub specifier_from_u16 : ℕ → AlarmSpecifier
specifier_from_u16 raw = record {
  sequence = raw % 2048;
  channel_diag = test_bit raw 11;
  manufacturer_diag = test_bit raw 12;
  submodule_diag = test_bit raw 13;
  ar_diag = test_bit raw 15;
}

unfoldable pub specifier_to_u16 : AlarmSpecifier → ℕ
specifier_to_u16 s =
    s.sequence % 2048
    + bit_of s.channel_diag * 2 ^ 11
    + bit_of s.manufacturer_diag * 2 ^ 12
    + bit_of s.submodule_diag * 2 ^ 13
    + bit_of s.ar_diag * 2 ^ 15

pub data Maintenance : Type 0 where
  fault required demanded qualified : Maintenance

pub data Specifier : Type 0 where
  all_disappear appears disappears disappears_others_remain : Specifier

-- `maintenance as u16`, `specifier as u16`
abbrev maintenance_code : Maintenance → ℕ
maintenance_code fault = 0
maintenance_code required = 1
maintenance_code demanded = 2
maintenance_code qualified = 3

abbrev specifier_code : Specifier → ℕ
specifier_code all_disappear = 0
specifier_code appears = 1
specifier_code disappears = 2
specifier_code disappears_others_remain = 3

abbrev maintenance_of : ℕ → Maintenance
maintenance_of n =
    if n == 0 then fault else if n == 1 then required else if n == 2 then demanded else qualified

abbrev specifier_of : ℕ → Specifier
specifier_of n =
    if n == 0
    then all_disappear
    else if n == 1
    then appears
    else if n == 2
    then disappears
    else disappears_others_remain

pub record ChannelProperties : Type 0 where
  pub type_ : ℕ
  pub accumulative : Bool
  pub maintenance : Maintenance
  pub specifier : Specifier
  pub direction : ℕ

unfoldable pub properties_from_u16 : ℕ → ChannelProperties
properties_from_u16 raw = record {
  type_ = raw % 256;
  accumulative = test_bit raw 8;
  maintenance = maintenance_of (raw / 2 ^ 9 % 4);
  specifier = specifier_of (raw / 2 ^ 11 % 4);
  direction = raw / 2 ^ 13 % 8;
}

-- `<< 13` on a `u16` drops what does not fit.
unfoldable pub properties_to_u16 : ChannelProperties → ℕ
properties_to_u16 p =
    p.type_
    + bit_of p.accumulative * 2 ^ 8
    + maintenance_code p.maintenance * 2 ^ 9
    + specifier_code p.specifier * 2 ^ 11
    + u16 (p.direction * 2 ^ 13)
