-- ===== src/Rt/Engine.antt =====
-- crates/pnio/src/rt/engine.rs: the provider and consumer of the cyclic frames. `problem`, which
-- another thread writes, is an argument of each tick. An access out of a buffer's range panics.
pub mod Invariant
pub mod Watchdog
pub mod Consume
pub mod Produce
use pnio_rs.Prelude.{ℕ, ◌+◌, ◌-◌, ◌*◌, ◌%◌, ◌^◌, Bool, true, false, ◌||◌, not, Option, none, some}
use pnio_rs.Prelude.{List, [], ◌∷◌, map, Bytes, length, take, replicate, slice, byte_at, test_bit}
use pnio_rs.Prelude.{
  copy_at, ltb, leb, ◌==◌, if◌then◌else◌, u16, Result, ok, err, ◌>>=◌, ◌>>◌, fail_if,
}
use pnio_rs.Prelude.{map_err}
use pnio_rs.Eth.Header.{MacAddr, EthHeader, mac_eq}
use pnio_rs.Rt.Layout.{Layout, CrLayout, IoObject, CsObject}
use pnio_rs.Rt.Frame.{
  RtFrame, FrameError, DataStatus, frame_len, provider_run, primary, data_valid,
  run_primary_valid_ok, run_primary_valid_problem,
}
use pnio_rs.Rt.Frame

abbrev pub ioxs_good : ℕ
ioxs_good = 0x80

pub data DropReason : Type 0 where
  transfer_status : ℕ → DropReason
  short_csdu : ℕ → ℕ → DropReason
  malformed : DropReason

pub data RxVerdict : Type 0 where
  accepted : Bool → Bool → Bool → RxVerdict
  ignored : RxVerdict
  dropped : DropReason → RxVerdict

-- `Ok` is `within`.
pub data WatchdogVerdict : Type 0 where
  not_armed within expired stopped : WatchdogVerdict

-- `NotArmed`, `Ok` and `Expired`
pub data WatchdogState : Type 0 where
  unarmed fine overdue : WatchdogState

-- The counters that the engine writes.
pub record RtStats : Type 0 where
  pub tx : ℕ
  pub rx_accepted : ℕ
  pub rx_ignored : ℕ
  pub rx_dropped : ℕ
  pub rx_invalid : ℕ
  pub reordered : ℕ
  pub watchdog_expirations : ℕ
  pub missed_ticks : ℕ

pub record RtEngine : Type 0 where
  pub layout : Layout
  pub our_mac : MacAddr
  pub cpu_mac : MacAddr
  pub stats : RtStats
  pub tx : Bytes
  pub tx_csdu : Bytes
  pub rx_csdu : Bytes
  pub rx_iops_good : List Bool
  pub rx_iocs_good : List Bool
  pub cycle_counter : ℕ
  pub last_rx : Option ℕ
  pub last_rx_cycle_counter : Option ℕ
  pub watchdog_state : WatchdogState
  pub provider_run : Bool
  pub primary : Bool

pub data Panic : Type 0 where
  out_of_range : Panic

abbrev pub new : Layout → MacAddr → MacAddr → RtStats → RtEngine
new layout our_mac cpu_mac stats = record {
  layout = layout;
  our_mac = our_mac;
  cpu_mac = cpu_mac;
  stats = stats;
  tx = replicate (frame_len layout.input_cr.data_length) 0;
  tx_csdu = replicate layout.input_cr.data_length 0;
  rx_csdu = replicate layout.output_cr.data_length 0;
  rx_iops_good = replicate (length layout.output_cr.objects) false;
  rx_iocs_good = replicate (length layout.output_cr.iocs) false;
  cycle_counter = 0;
  last_rx = none;
  last_rx_cycle_counter = none;
  watchdog_state = unarmed;
  provider_run = false;
  primary = false;
}

-- `fetch_add` on an `AtomicU64`
abbrev pub add_to : ℕ → ℕ → ℕ
add_to n k = (n + k) % 2 ^ 64

-- `out[off..off + src.len()].copy_from_slice(src)`
abbrev pub put : Bytes → ℕ → Bytes → Result Panic Bytes
put out off src =
    if leb (off + length src) (length out) then ok (copy_at out off src) else err out_of_range

-- `&b[off..off + len]`
abbrev pub range : Bytes → ℕ → ℕ → Result Panic Bytes
range b off len =
    if leb (off + len) (length b) then ok (slice b off (off + len)) else err out_of_range

unfoldable pub fill_objects : List IoObject → Bytes → Bytes → Result Panic Bytes
fill_objects [] inputs csdu = ok csdu
fill_objects (obj ∷ objs) inputs csdu = range inputs obj.data_off obj.data_len >>= λ bytes.
    put csdu obj.data_off bytes >>= λ csdu'.
    put csdu' obj.iops_off (ioxs_good ∷ []) >>= λ csdu''. fill_objects objs inputs csdu''

unfoldable pub fill_iocs : List CsObject → Bytes → Result Panic Bytes
fill_iocs [] csdu = ok csdu
fill_iocs (cs ∷ css) csdu = put csdu cs.iocs_off (ioxs_good ∷ []) >>= λ csdu'. fill_iocs css csdu'

-- `cycle_counter.wrapping_add(cycle_step.wrapping_mul(expirations as u16))`
abbrev pub next_counter : RtEngine → ℕ → ℕ
next_counter e expirations =
    u16 (e.cycle_counter + u16 (e.layout.input_cr.cycle_step * u16 expirations))

abbrev pub frame_of : RtEngine → Bytes → ℕ → Bool → RtFrame
frame_of e csdu counter problem = record {
  frame_id = e.layout.input_cr.frame_id;
  csdu = csdu;
  cycle_counter = counter;
  data_status = if problem then run_primary_valid_problem else run_primary_valid_ok;
  transfer_status = 0;
}

-- The engine, and the frame that is sent.
unfoldable pub on_tick : RtEngine → ℕ → Bytes → Bool → Result Panic (RtEngine × Bytes)
on_tick e expirations inputs problem = do
  csdu ← fill_objects e.layout.input_cr.objects inputs e.tx_csdu
  csdu' ← fill_iocs e.layout.input_cr.iocs csdu
  let counter = next_counter e expirations
  (n, tx) ←
      map_err (λ _. out_of_range)
        (Frame.write (frame_of e csdu' counter problem) e.tx e.cpu_mac e.our_mac)
  let stats = e.stats
  ok (
    record e {
      tx_csdu = csdu';
      cycle_counter = counter;
      tx = tx;
      stats = record stats {
        tx = add_to stats.tx 1;
        missed_ticks = add_to stats.missed_ticks (expirations - 1);
      };
    },
    take n tx,
  )

-- `good[i] = csdu[offs[i]] & 0x80 != 0` for each `i`
unfoldable pub refresh : List ℕ → Bytes → List Bool → Result Panic (List Bool)
refresh [] csdu good = ok good
refresh (o ∷ os) csdu [] = err out_of_range
refresh (o ∷ os) csdu (g ∷ gs) =
    let rest = refresh os csdu gs in
    if ltb o (length csdu)
    then (rest >>= λ good. ok (test_bit (byte_at csdu o) 7 ∷ good))
    else err out_of_range

abbrev pub count_dropped : RtEngine → RtEngine
count_dropped e =
    let stats = e.stats in
    record e { stats = record stats { rx_dropped = add_to stats.rx_dropped 1 } }

abbrev pub count_ignored : RtEngine → RtEngine
count_ignored e =
    let stats = e.stats in
    record e { stats = record stats { rx_ignored = add_to stats.rx_ignored 1 } }

-- `d == 0 || d > 0x8000`, with `d` the wrapped difference
abbrev pub is_reordered : Option ℕ → ℕ → Bool
is_reordered none counter = false
is_reordered (some prev) counter = let d = u16 (counter + 65536 - prev) in d == 0 || ltb 0x8000 d

-- The frame is taken: the fields that every accepted frame sets.
abbrev pub taken : RtEngine → RtFrame → ℕ → RtEngine
taken e rt now =
    let stats = e.stats in
    record e {
      last_rx = some now;
      watchdog_state = fine;
      stats = record stats {
        reordered =
            if is_reordered e.last_rx_cycle_counter rt.cycle_counter
            then add_to stats.reordered 1
            else stats.reordered;
      };
      last_rx_cycle_counter = some rt.cycle_counter;
      provider_run = provider_run rt.data_status;
      primary = primary rt.data_status;
    }

abbrev pub verdict_of : RtFrame → RxVerdict
verdict_of rt =
    accepted (provider_run rt.data_status) (primary rt.data_status) (data_valid rt.data_status)

abbrev pub take_data : RtEngine → RtFrame → Result Panic (RtEngine × RxVerdict)
take_data e rt = do
  bytes ← range rt.csdu 0 e.layout.output_cr.data_length
  csdu ← put e.rx_csdu 0 bytes
  iops ← refresh (map (λ o. o.iops_off) e.layout.output_cr.objects) csdu e.rx_iops_good
  iocs ← refresh (map (λ c. c.iocs_off) e.layout.output_cr.iocs) csdu e.rx_iocs_good
  let stats = e.stats
  ok (
    record e {
      rx_csdu = csdu;
      rx_iops_good = iops;
      rx_iocs_good = iocs;
      stats = record stats { rx_accepted = add_to stats.rx_accepted 1 };
    },
    verdict_of rt,
  )

abbrev pub skip_data : RtEngine → RtFrame → RtEngine × RxVerdict
skip_data e rt =
    let stats = e.stats in
    (record e { stats = record stats { rx_invalid = add_to stats.rx_invalid 1 } }, verdict_of rt)

abbrev pub accept : RtEngine → RtFrame → ℕ → Result Panic (RtEngine × RxVerdict)
accept e rt now =
    if data_valid rt.data_status
    then take_data (taken e rt now) rt
    else ok (skip_data (taken e rt now) rt)

unfoldable pub consume : RtEngine → EthHeader → RtFrame → ℕ → Result Panic (RtEngine × RxVerdict)
consume e eth rt now =
    if not (mac_eq eth.src e.cpu_mac) || not (rt.frame_id == e.layout.output_cr.frame_id)
    then ok (count_ignored e, ignored)
    else if not (rt.transfer_status == 0)
    then ok (count_dropped e, dropped (transfer_status rt.transfer_status))
    else if ltb (length rt.csdu) e.layout.output_cr.data_length
    then ok (count_dropped e, dropped (short_csdu (length rt.csdu) e.layout.output_cr.data_length))
    else accept e rt now

unfoldable pub on_frame : RtEngine → Bytes → ℕ → Result Panic (RtEngine × RxVerdict)
on_frame e frame now = elim (Frame.parse frame) [
  | ok (eth, rt) ↦ consume e eth rt now
  | err reason ↦ ok (count_dropped e, dropped malformed)
]

abbrev pub overdue_check : RtEngine → WatchdogState → RtEngine × WatchdogVerdict
overdue_check e overdue = (e, stopped)
overdue_check e unarmed =
    let stats = e.stats in
    (
      record e {
        watchdog_state = overdue;
        stats = record stats { watchdog_expirations = add_to stats.watchdog_expirations 1 };
      },
      expired,
    )
overdue_check e fine =
    let stats = e.stats in
    (
      record e {
        watchdog_state = overdue;
        stats = record stats { watchdog_expirations = add_to stats.watchdog_expirations 1 };
      },
      expired,
    )

-- `saturating_duration_since` is ℕ's subtraction.
unfoldable pub check_watchdog : RtEngine → ℕ → RtEngine × WatchdogVerdict
check_watchdog e now = elim e.last_rx [
  | none ↦ (e, not_armed)
  | some t ↦
      if leb (now - t) e.layout.output_cr.watchdog
      then (record e { watchdog_state = fine }, within)
      else overdue_check e e.watchdog_state
]

unfoldable pub mark_outputs_stale : RtEngine → RtEngine
mark_outputs_stale e = record e { rx_iops_good = map (λ g. false) e.rx_iops_good }
