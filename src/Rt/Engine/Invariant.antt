-- ===== src/Rt/Engine/Invariant.antt =====
-- The engine's buffers fit its layout.
use pnio_rs.Prelude.{
  ℕ, ◌+◌, ◌≤◌, ◌<◌, ◌≡◌, arith, Bool, length, length-replicate, All, Bytes, copy_at, length-copy_at,
  IsU16, ok,
}
use pnio_rs.Eth.Header.{MacAddr}
use pnio_rs.Rt.Layout.{Layout, CrLayout, IoObject, CsObject}
use pnio_rs.Rt.Frame.{frame_len}
use pnio_rs.Rt.Engine.{RtEngine, RtStats, put, new}

-- The object's data and its status byte lie in the C-SDU.
abbrev pub InCsdu : ℕ → IoObject → Type 0
InCsdu data_length obj = (obj.data_off + obj.data_len ≤ data_length) × (obj.iops_off < data_length)

abbrev pub CsInCsdu : ℕ → CsObject → Type 0
CsInCsdu data_length cs = cs.iocs_off < data_length

pub record IsCr (cr : CrLayout) : Type 0 where
  pub id_fits : IsU16 cr.frame_id
  pub objects_fit : All (InCsdu cr.data_length) cr.objects
  pub iocs_fit : All (CsInCsdu cr.data_length) cr.iocs

pub record IsEngine (e : RtEngine) : Type 0 where
  pub input_fits : IsCr e.layout.input_cr
  pub output_fits : IsCr e.layout.output_cr
  pub tx_length : length e.tx ≡ frame_len e.layout.input_cr.data_length
  pub tx_csdu_length : length e.tx_csdu ≡ e.layout.input_cr.data_length
  pub rx_csdu_length : length e.rx_csdu ≡ e.layout.output_cr.data_length
  pub iops_length : length e.rx_iops_good ≡ length e.layout.output_cr.objects
  pub iocs_length : length e.rx_iocs_good ≡ length e.layout.output_cr.iocs
  pub counter_fits : IsU16 e.cycle_counter

pub new-IsEngine :
    (layout : Layout) (our_mac cpu_mac : MacAddr) (stats : RtStats)
    → IsCr layout.input_cr
    → IsCr layout.output_cr
    → IsEngine (new layout our_mac cpu_mac stats)
new-IsEngine layout our_mac cpu_mac stats hi ho = record {
  input_fits = hi;
  output_fits = ho;
  tx_length = length-replicate {A = ℕ} _ 0;
  tx_csdu_length = length-replicate {A = ℕ} _ 0;
  rx_csdu_length = length-replicate {A = ℕ} _ 0;
  iops_length = length-replicate {A = Bool} _ _;
  iocs_length = length-replicate {A = Bool} _ _;
  counter_fits = omega arith;
}

-- A write in range succeeds and keeps the buffer's length.
pub put_lem :
    (out : Bytes) (off : ℕ) (src : Bytes)
    → off + length src ≤ length out
    → (out' : Bytes) × (put out off src ≡ ok out') × (length out' ≡ length out)
put_lem out off src h = (copy_at out off src, ground arith, length-copy_at out off src h)
