-- ===== src/Alarm/Fields/Laws.antt =====
-- The coded fields and their words: each way round.
use pnio_rs.Prelude.{ℕ, ◌≡◌, ◌<◌, ◌⊎◌, arith, IsU16, refl, true}
use pnio_rs.Alarm.Fields.{AlarmType, type_from_u16, type_to_u16, type_eq, other}
use pnio_rs.Alarm.Fields.{AlarmSpecifier, specifier_from_u16, specifier_to_u16}
use pnio_rs.Alarm.Fields.{ChannelProperties, properties_from_u16, properties_to_u16}

-- Every word is the code of the alarm type that it is read as.
pub to_u16-from_u16 : (v : ℕ) → type_to_u16 (type_from_u16 v) ≡ v
unfolding type_from_u16 type_to_u16
to_u16-from_u16 v = ground arith

-- A type in the form that reading gives: `other` holds no code that has a name, and fits a word.
abbrev pub IsAlarmType : AlarmType → Type 0
IsAlarmType (other v) = ((v ≡ 0) ⊎ (12 < v)) × IsU16 v
IsAlarmType _ = Unit

pub from_u16-to_u16 : (t : AlarmType) → IsAlarmType t → type_from_u16 (type_to_u16 t) ≡ t
unfolding type_from_u16 type_to_u16
from_u16-to_u16 (other v) h = ground arith
from_u16-to_u16 _ h = refl

pub to_u16-IsU16 : (t : AlarmType) → IsAlarmType t → IsU16 (type_to_u16 t)
unfolding type_to_u16
to_u16-IsU16 (other v) h = h.1
to_u16-IsU16 _ h = omega arith

pub type_eq_refl : (t : AlarmType) → type_eq t t ≡ true
unfolding type_eq
type_eq_refl (other v) = ground arith
type_eq_refl _ = refl

-- A specifier whose sequence number fits its eleven bits is read back.
pub specifier_round :
    (s : AlarmSpecifier)
    → s.sequence < 2048
    → (specifier_from_u16 (specifier_to_u16 s) ≡ s) × IsU16 (specifier_to_u16 s)
unfolding specifier_from_u16 specifier_to_u16
specifier_round s h = (ground arith, ground arith)

pub record IsProperties (p : ChannelProperties) : Type 0 where
  pub type_fits : p.type_ < 256
  pub direction_fits : p.direction < 8

-- Channel properties whose type and direction fit their bits are read back.
pub properties_round :
    (p : ChannelProperties)
    → IsProperties p
    → (properties_from_u16 (properties_to_u16 p) ≡ p) × IsU16 (properties_to_u16 p)
unfolding properties_from_u16 properties_to_u16
properties_round p h = (ground arith, ground arith)

-- Every word is the code of the channel properties that it is read as.
pub properties_to_u16-from_u16 : (v : ℕ) → IsU16 v → properties_to_u16 (properties_from_u16 v) ≡ v
unfolding properties_from_u16 properties_to_u16
properties_to_u16-from_u16 v h = ground arith

pub eq_of_type_eq : (s t : AlarmType) → type_eq s t ≡ true → s ≡ t
unfolding type_eq
eq_of_type_eq s t h = ground arith
