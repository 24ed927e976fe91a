-- ===== src/Diag/Replay.antt =====
-- What is replayed to a controller that connects.
use pnio_rs.Prelude.{
  ℕ, ◌≡◌, arith, refl, ap, subst, Bool, true, false, not, Bool-cases, inl, inr, ◌==◌, none, some,
  List, [], ◌∷◌, All, All-map, any, find,
}
use pnio_rs.Cm.Model.{DeviceModel}
use pnio_rs.Alarm.Fields.{diagnosis, Maintenance, fault, required, demanded, appears}
use pnio_rs.Alarm.Pdu.{AlarmNotification, channel_data}
use pnio_rs.Diag.Map.{Key, lookup, values, keys}
use pnio_rs.Diag.Keys.{IsSorted}
use pnio_rs.Diag.Invariant.{IsEntry, IsStore}
use pnio_rs.Diag.History.{
  Change, run, run-IsStore, severity_of, standing, run-standing, submodules-run,
}
use pnio_rs.Diag.{
  Severity, fault_severity, maintenance_required, maintenance_demanded, Direction, input, output,
  input_output, Diagnosis, SubmoduleInfo, DiagStore, new, infos, from_model, info, key_of,
  build_notification, is_empty, replay_of, replay,
}

-- The severity and the direction on the wire.
abbrev pub told_severity : Severity → Maintenance
told_severity fault_severity = fault
told_severity maintenance_required = required
told_severity maintenance_demanded = demanded

abbrev pub told_direction : Direction → ℕ
told_direction input = 1
told_direction output = 2
told_direction input_output = 3

-- The notification that the diagnosis under the key appears at the submodule, while diagnoses of the
-- slot and of the AR are active.
abbrev pub appearance : Key → Diagnosis → SubmoduleInfo → AlarmNotification
appearance k d i = record {
  alarm_type = diagnosis;
  api = 0;
  slot = k.slot;
  subslot = i.subslot;
  module_ident = i.module_ident;
  submodule_ident = i.submodule_ident;
  specifier = record {
    sequence = 0;
    channel_diag = true;
    manufacturer_diag = false;
    submodule_diag = true;
    ar_diag = true;
  };
  usi = 0x8000;
  user_data = channel_data (record {
    channel = k.channel;
    properties = record {
      type_ = 0;
      accumulative = false;
      maintenance = told_severity d.severity;
      specifier = appears;
      direction = told_direction i.direction;
    };
    error_type = k.error;
  });
}

-- One notification for each entry, in the same order, about the submodule of its slot.
pub data Replays (submodules : List SubmoduleInfo)
    : List (Key × Diagnosis) → List AlarmNotification → Type 0 where
  nothing : Replays submodules [] []
  one_more :
      {m : List (Key × Diagnosis)} {ns : List AlarmNotification} (k : Key) (d : Diagnosis)
      (i : SubmoduleInfo)
      → info (new submodules) k.slot ≡ some i
      → Replays submodules m ns
      → Replays submodules ((k, d) ∷ m) (appearance k d i ∷ ns)

found_slot :
    (is : List SubmoduleInfo) (slot : ℕ) (i : SubmoduleInfo)
    → find (λ (i : SubmoduleInfo). i.slot == slot) is ≡ some i
    → i.slot ≡ slot
found_slot [] slot i e = absurd (ground arith)
found_slot (j ∷ is) slot i e = elim (Bool-cases (j.slot == slot)) [
  | inl hit ↦ let same : j ≡ i = ground arith in ground arith
  | inr miss ↦ found_slot is slot i (ground arith)
]

-- Some key of the list is of the entry's slot.
abbrev SlotIn : List Key → Key × Diagnosis → Type 0
SlotIn ks e = any (λ (k : Key). k.slot == e.1.slot) ks ≡ true

slots_in :
    (submodules : List SubmoduleInfo) (m : List (Key × Diagnosis))
    → All (IsEntry submodules) m
    → All (SlotIn (keys m)) m
unfolding keys
slots_in submodules [] h = tt
slots_in submodules ((k, d) ∷ m) ((same, i, e, g), h) =
    (ground (arith, same), All-map (λ e he. ground (arith, he)) m (slots_in submodules m h))

not_empty :
    (p : Key → Bool) (m : List (Key × Diagnosis)) → any p (keys m) ≡ true → not (is_empty m) ≡ true
unfolding keys
not_empty p [] h = absurd (ground arith)
not_empty p (e ∷ m) h = refl

notification_lem :
    (s : DiagStore) (k : Key) (d : Diagnosis) (i : SubmoduleInfo)
    → k ≡ key_of d
    → i.slot ≡ d.slot
    → SlotIn (keys s.active) (k, d)
    → build_notification s i d diagnosis appears ≡ appearance k d i
unfolding build_notification keys
notification_lem s k d i same slot_same any_slot =
    rw (any_slot, not_empty _ s.active any_slot, slot_same, same) refl

replay_of-Replays :
    (s : DiagStore) (m : List (Key × Diagnosis))
    → All (IsEntry s.submodules) m
    → All (SlotIn (keys s.active)) m
    → Replays s.submodules m (replay_of s (values m))
unfolding replay_of values info
replay_of-Replays s [] h g = nothing
replay_of-Replays s ((k, d) ∷ m) ((same, i, e, dir), h) (here, g) =
    let at : k.slot ≡ d.slot = ap (λ (k : Key). k.slot) same in
    let later = replay_of-Replays s m h g in
    let one = notification_lem s k d i same (found_slot s.submodules d.slot i e) here in
    rw (e, one) (one_more k d i (rw at e) later)

-- A controller that connects is told of every active diagnosis, once and in the order of slot,
-- channel and error: that it appears, at the submodule that the model has in its slot, with its
-- channel, its error, its severity and the direction of the submodule, and that the submodule and
-- the AR have diagnoses. And what is active, behind any raises and clears since the store was made
-- from the model, is for each slot, channel and error what the last change about it left.
pub replay-Replays :
    (model : DeviceModel) (cs : List Change) (k : Key)
    → let s = run (from_model model) cs in
      Replays (infos model.slots) s.active (replay s)
      × IsSorted s.active
      × (severity_of (lookup k s.active) ≡ standing (infos model.slots) k none cs)
unfolding replay from_model lookup
replay-Replays model cs k =
    let start : DiagStore = new (infos model.slots) in
    let start-IsStore : IsStore start = record { sorted = tt; entries = tt } in
    let s : DiagStore = run start cs in
    let kept : IsStore s = run-IsStore cs start start-IsStore in
    let same : s.submodules ≡ infos model.slots = submodules-run cs start in
    (
      subst (λ is. Replays is s.active (replay_of s (values s.active))) same
          (replay_of-Replays s s.active kept.entries (slots_in s.submodules s.active kept.entries)),
      kept.sorted,
      run-standing cs start k start-IsStore,
    )
