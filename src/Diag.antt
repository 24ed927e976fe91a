-- ===== src/Diag.antt =====
-- crates/pnio/src/diag.rs: the store of active channel diagnoses. A slot is its number. The names of
-- the errors, for a command line, are left out. A `BTreeMap` is the list of its entries in the
-- order of the keys.
pub mod Map
pub mod Keys
pub mod Invariant
pub mod History
pub mod Replay
use pnio_rs.Prelude.{
  ℕ, Bool, true, false, not, ◌&&◌, Option, none, some, List, [], ◌∷◌, any, find, ◌++◌,
}
use pnio_rs.Prelude.{ltb, ◌==◌, if◌then◌else◌, map}
use pnio_rs.Cm.Model.{DeviceModel, SlotModel, SubmoduleModel}
use pnio_rs.Alarm.Fields.{
  AlarmType, diagnosis, diagnosis_disappears, Maintenance, fault, required, demanded, Specifier,
  appears, disappears, disappears_others_remain,
}
use pnio_rs.Alarm.Pdu.{AlarmNotification, channel_data, usi_channel_diag}
use pnio_rs.Diag.Map.{Key, lookup, insert, remove, values, keys}

pub data ChannelError : Type 0 where
  short_circuit undervoltage overvoltage overload overtemperature line_break : ChannelError
  upper_limit_exceeded lower_limit_exceeded general_error : ChannelError

-- `self as u16`
unfoldable pub code : ChannelError → ℕ
code short_circuit = 1
code undervoltage = 2
code overvoltage = 3
code overload = 4
code overtemperature = 5
code line_break = 6
code upper_limit_exceeded = 7
code lower_limit_exceeded = 8
code general_error = 9

unfoldable pub from_code : ℕ → Option ChannelError
from_code c =
    if c == 1
    then some short_circuit
    else if c == 2
    then some undervoltage
    else if c == 3
    then some overvoltage
    else if c == 4
    then some overload
    else if c == 5
    then some overtemperature
    else if c == 6
    then some line_break
    else if c == 7
    then some upper_limit_exceeded
    else if c == 8
    then some lower_limit_exceeded
    else if c == 9
    then some general_error
    else none

pub data Severity : Type 0 where
  fault_severity maintenance_required maintenance_demanded : Severity

-- `Severity` derives `PartialEq`.
unfoldable pub severity_eq : Severity → Severity → Bool
severity_eq fault_severity fault_severity = true
severity_eq maintenance_required maintenance_required = true
severity_eq maintenance_demanded maintenance_demanded = true
severity_eq _ _ = false

abbrev pub whole_submodule : ℕ
whole_submodule = 0x8000

-- crates/pnio/src/config.rs: `Direction`
pub data Direction : Type 0 where
  input output input_output : Direction

pub record Diagnosis : Type 0 where
  pub slot : ℕ
  pub channel : ℕ
  pub error : ChannelError
  pub severity : Severity
  pub direction : Direction

pub record SubmoduleInfo : Type 0 where
  pub slot : ℕ
  pub subslot : ℕ
  pub module_ident : ℕ
  pub submodule_ident : ℕ
  pub direction : Direction

pub record DiagStore : Type 0 where
  pub submodules : List SubmoduleInfo
  pub active : List (Key × Diagnosis)

abbrev pub new : List SubmoduleInfo → DiagStore
new submodules = record { submodules = submodules; active = [] }

abbrev direction_of : SubmoduleModel → Direction
direction_of sm =
    if sm.output_len == 0 && ltb 0 sm.input_len
    then input
    else if sm.input_len == 0 && ltb 0 sm.output_len
    then output
    else input_output

abbrev info_of : SlotModel → Option SubmoduleModel → List SubmoduleInfo
info_of slot none = []
info_of slot (some sm) =
    record {
      slot = slot.slot;
      subslot = 1;
      module_ident = slot.module_ident;
      submodule_ident = sm.submodule_ident;
      direction = direction_of sm;
    }
    ∷ []

-- The `filter` and `filter_map` over the slots.
unfoldable pub infos : List SlotModel → List SubmoduleInfo
infos [] = []
infos (slot ∷ slots) =
    (if ltb 0 slot.slot then info_of slot (find (λ sm. sm.subslot == 1) slot.submodules) else [])
    ++ infos slots

unfoldable pub from_model : DeviceModel → DiagStore
from_model model = new (infos model.slots)

unfoldable pub info : DiagStore → ℕ → Option SubmoduleInfo
info s slot = find (λ i. i.slot == slot) s.submodules

abbrev pub is_empty {ℓ} : {A : Type ℓ} → List A → Bool
is_empty [] = true
is_empty (x ∷ xs) = false

abbrev is_some {ℓ} : {A : Type ℓ} → Option A → Bool
is_some none = false
is_some (some a) = true

abbrev pub knows : DiagStore → ℕ → Bool
knows s slot = is_some (info s slot)

abbrev maintenance_of : Severity → Maintenance
maintenance_of fault_severity = fault
maintenance_of maintenance_required = required
maintenance_of maintenance_demanded = demanded

abbrev direction_code : Direction → ℕ
direction_code input = 1
direction_code output = 2
direction_code input_output = 3

unfoldable pub build_notification :
    DiagStore → SubmoduleInfo → Diagnosis → AlarmType → Specifier → AlarmNotification
build_notification s i d alarm_type specifier =
    let channel_diag = any (λ (k : Key). k.slot == d.slot) (keys s.active) in
    record {
      alarm_type = alarm_type;
      api = 0;
      slot = i.slot;
      subslot = i.subslot;
      module_ident = i.module_ident;
      submodule_ident = i.submodule_ident;
      specifier = record {
        sequence = 0;
        channel_diag = channel_diag;
        manufacturer_diag = false;
        submodule_diag = channel_diag;
        ar_diag = not (is_empty s.active);
      };
      usi = usi_channel_diag;
      user_data = channel_data (record {
        channel = d.channel;
        properties = record {
          type_ = 0;
          accumulative = false;
          maintenance = maintenance_of d.severity;
          specifier = specifier;
          direction = direction_code i.direction;
        };
        error_type = code d.error;
      });
    }

abbrev pub key_of : Diagnosis → Key
key_of d = record { slot = d.slot; channel = d.channel; error = code d.error }

abbrev same_severity : Option Diagnosis → Diagnosis → Bool
same_severity none d = false
same_severity (some existing) d = severity_eq existing.severity d.severity

-- The store behind a raise or clear, and the notification.
abbrev pub Outcome : Type 0
Outcome = DiagStore × Option AlarmNotification

abbrev pub raise_in : DiagStore → SubmoduleInfo → Diagnosis → Outcome
raise_in s i d =
    if same_severity (lookup (key_of d) s.active) d
    then (s, none)
    else (let s' = record s { active = insert (key_of d) d s.active } in
        (s', some (build_notification s' i d diagnosis appears)))

abbrev pub directed : Diagnosis → SubmoduleInfo → Diagnosis
directed d i = record d { direction = i.direction }

abbrev pub raise_at : DiagStore → Diagnosis → Option SubmoduleInfo → Outcome
raise_at s d none = (s, none)
raise_at s d (some i) = raise_in s i (directed d i)

unfoldable pub raise : DiagStore → Diagnosis → Outcome
raise s d = raise_at s d (info s d.slot)

abbrev pub cleared : DiagStore → Diagnosis → ℕ → ℕ → Option SubmoduleInfo → Outcome
cleared s d slot channel none = (s, none)
cleared s d slot channel (some i) =
    let others_on_channel =
      any (λ (k : Key). k.slot == slot && k.channel == channel) (keys s.active) in
    (
      s,
      some (
          build_notification s i d diagnosis_disappears
            (if others_on_channel then disappears_others_remain else disappears)),
    )

abbrev pub clear_at : DiagStore → Key → Option Diagnosis → Outcome
clear_at s key none = (s, none)
clear_at s key (some removed) =
    cleared (record s { active = remove key s.active }) removed key.slot key.channel
      (info s key.slot)

unfoldable pub clear : DiagStore → ℕ → ℕ → ChannelError → Outcome
clear s slot channel error =
    let key : Key = record { slot = slot; channel = channel; error = code error } in
    clear_at s key (lookup key s.active)

abbrev is_fault : Diagnosis → Bool
is_fault d = severity_eq d.severity fault_severity

unfoldable pub problem_indicator : DiagStore → Bool
problem_indicator s = any is_fault (values s.active)

unfoldable pub active_list : DiagStore → List Diagnosis
active_list s = values s.active

abbrev pub replayed : DiagStore → Diagnosis → Option SubmoduleInfo → List AlarmNotification
replayed s d none = []
replayed s d (some i) = build_notification s i d diagnosis appears ∷ []

unfoldable pub replay_of : DiagStore → List Diagnosis → List AlarmNotification
replay_of s [] = []
replay_of s (d ∷ ds) = replayed s d (info s d.slot) ++ replay_of s ds

unfoldable pub replay : DiagStore → List AlarmNotification
replay s = replay_of s (values s.active)
