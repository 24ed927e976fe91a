-- ===== src/Rt/Image.antt =====
-- crates/pnio/src/rt/image.rs: the I/O image that the application and the RT thread share. Every
-- method holds the locks that it takes until its last access, so a method is one step on the image;
-- the locks tolerate a poisoned mutex. A method of the RT side takes as its first argument whether
-- its `try_lock` succeeds. Durations are nanoseconds.
pub mod Bounds
pub mod Cells
pub mod Steps
pub mod Views
use pnio_rs.Prelude.{
  ℕ, ◌+◌, ◌-◌, min, Bool, true, false, ◌&&◌, not, Option, none, some, find, ◌==◌, ltb,
  if◌then◌else◌, List, [], length, take, replicate, slice, Bytes, copy_at, Result, ok, err, ◌>>=◌,
  ◌>>◌, fail_if,
}
use pnio_rs.Rt.Layout.{Layout, Cell}

-- `NotArmed`, `Ok` and `Expired`
pub data WatchdogState : Type 0 where
  not_armed within expired : WatchdogState

pub data Freshness : Type 0 where
  no_data fresh stopped stale : Freshness

pub record Validity : Type 0 where
  pub provider_run : Bool
  pub primary : Bool
  pub watchdog : WatchdogState
  pub last_rx_age : Option ℕ
  pub cycle : ℕ

-- `Validity::default`
abbrev pub default : Validity
default = record {
  provider_run = false;
  primary = false;
  watchdog = not_armed;
  last_rx_age = none;
  cycle = 0;
}

abbrev freshness_of : WatchdogState → Bool → Freshness
freshness_of not_armed run = no_data
freshness_of expired run = stale
freshness_of within false = stopped
freshness_of within true = fresh

unfoldable pub freshness : Validity → Freshness
freshness v = freshness_of v.watchdog v.provider_run

pub data ImageError : Type 0 where
  unknown_submodule : ℕ → ℕ → ImageError
  length_mismatch : ℕ → ℕ → ImageError
  no_input : ℕ → ℕ → ImageError
  no_output : ℕ → ℕ → ImageError

pub record Outputs : Type 0 where
  pub csdu : Bytes
  pub validity : Validity

pub record IoImage : Type 0 where
  pub cells : List Cell
  pub inputs : Bytes
  pub outputs : Outputs

unfoldable pub new : Layout → IoImage
new layout = record {
  cells = layout.cells;
  inputs = replicate layout.input_cr.data_length 0;
  outputs = record { csdu = replicate layout.output_cr.data_length 0; validity = default };
}

unfoldable pub empty : IoImage
empty = record { cells = []; inputs = []; outputs = record { csdu = []; validity = default } }

unfoldable pub rebuild : IoImage → Layout → IoImage
rebuild img layout = record {
  cells = layout.cells;
  inputs = replicate layout.input_cr.data_length 0;
  outputs = record { csdu = replicate layout.output_cr.data_length 0; validity = default };
}

-- The validity stays.
unfoldable pub clear : IoImage → IoImage
clear img = record {
  cells = [];
  inputs = [];
  outputs = record { csdu = []; validity = img.outputs.validity };
}

abbrev pub find_cell : IoImage → ℕ → ℕ → Option Cell
find_cell img slot subslot = find (λ c. c.slot == slot && c.subslot == subslot) img.cells

abbrev ok_or {ℓ} : {A : Type ℓ} → Option A → ImageError → Result ImageError A
ok_or none e = err e
ok_or (some a) e = ok a

abbrev pub write_cell : IoImage → Bytes → ℕ → ℕ → Result ImageError IoImage
write_cell img bytes off len = do
  fail_if (not (length bytes == len)) (length_mismatch len (length bytes))
  fail_if (ltb (length img.inputs) (off + len)) (length_mismatch len (length img.inputs - off))
  ok (record img { inputs = copy_at img.inputs off bytes })

unfoldable pub write_inputs : IoImage → ℕ → ℕ → Bytes → Result ImageError IoImage
write_inputs img slot subslot bytes =
    ok_or (find_cell img slot subslot) (unknown_submodule slot subslot) >>= λ (cell : Cell).
    ok_or cell.input_off (no_input slot subslot) >>= λ (off : ℕ).
    write_cell img bytes off cell.input_len

abbrev pub read_cell : IoImage → ℕ → ℕ → Result ImageError (Bytes × Validity)
read_cell img off len = do
  fail_if (ltb (length img.outputs.csdu) (off + len))
      (length_mismatch len (length img.outputs.csdu - off))
  ok (slice img.outputs.csdu off (off + len), img.outputs.validity)

-- The callback runs behind the locks, on a copy.
unfoldable pub read_outputs {ℓ} :
    {A : Type ℓ} → IoImage → ℕ → ℕ → (Bytes → Validity → A) → Result ImageError A
read_outputs img slot subslot f =
    ok_or (find_cell img slot subslot) (unknown_submodule slot subslot) >>= λ (cell : Cell).
    ok_or cell.output_off (no_output slot subslot) >>= λ (off : ℕ).
    read_cell img off cell.output_len >>= λ (r : Bytes × Validity). ok (f r.0 r.1)

-- The bytes of `src` over the beginning of `dst`, as far as both reach.
abbrev pub copy_min : Bytes → Bytes → Bytes
copy_min dst src = copy_at dst 0 (take (min (length dst) (length src)) src)

unfoldable pub snapshot_outputs : IoImage → Bytes → Bytes × Validity
snapshot_outputs img dst = (copy_min dst img.outputs.csdu, img.outputs.validity)

unfoldable pub validity : IoImage → Validity
validity img = img.outputs.validity

unfoldable pub set_validity : IoImage → Validity → IoImage
set_validity img v = record img { outputs = record { csdu = img.outputs.csdu; validity = v } }

unfoldable pub rt_snapshot_inputs : Bool → IoImage → Bytes → Bytes × Bool
rt_snapshot_inputs free img dst = if free then (copy_min dst img.inputs, true) else (dst, false)

unfoldable pub rt_publish : Bool → IoImage → Bytes → Validity → IoImage × Bool
rt_publish free img csdu v =
    if free
    then (
      record img { outputs = record { csdu = copy_min img.outputs.csdu csdu; validity = v } },
      true,
    )
    else (img, false)

unfoldable pub rt_set_validity : Bool → IoImage → Validity → IoImage × Bool
rt_set_validity free img v = if free then (set_validity img v, true) else (img, false)
