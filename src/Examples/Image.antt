-- ===== src/Examples/Image.antt =====
-- The I/O image of the small device, and of one with two submodules.
use pnio_rs.Prelude.{
  ◌≡◌, arith, inl, inr, refl, true, false, some, none, [], ◌∷◌, List, replicate, Bytes, ok, slice,
}
use pnio_rs.Cm.Model.{find_submodule, find_slot}
use pnio_rs.Rt.Layout.{Cell}
use pnio_rs.Rt.Image.{IoImage, Validity, within, default, new, rt_snapshot_inputs, read_outputs}
use pnio_rs.Rt.Image.Bounds.{Numbered}
use pnio_rs.Rt.Image.Cells.{IsImage, new-IsImage}
use pnio_rs.Rt.Image.Steps.{Call, write, publish, run}
use pnio_rs.Rt.Image.Views.{snapshot-run, read_outputs-run}
use pnio_rs.Examples.Values.{device, params}
use pnio_rs.Examples.Cyclic.{layout, layout_built}

device-Numbered : Numbered device
unfolding find_submodule find_slot
device-Numbered = ((refl, tt), tt)

new-IsImage_example : IsImage (new layout)
new-IsImage_example = new-IsImage params device layout device-Numbered layout_built

abbrev first_cell : Cell
first_cell = record {
  slot = 1;
  subslot = 1;
  input_len = 2;
  output_len = 0;
  input_off = some 0;
  output_off = none;
}

abbrev second_cell : Cell
second_cell = record {
  slot = 2;
  subslot = 1;
  input_len = 1;
  output_len = 2;
  input_off = some 3;
  output_off = some 1;
}

abbrev image : IoImage
image = record {
  cells = first_cell ∷ second_cell ∷ [];
  inputs = 0 ∷ 0 ∷ 0 ∷ 0 ∷ 0 ∷ [];
  outputs = record { csdu = 0 ∷ 0 ∷ 0 ∷ 0 ∷ []; validity = default };
}

image-IsImage : IsImage image
image-IsImage = record {
  inputs_fit = (omega arith, (omega arith, tt));
  outputs_fit = (tt, (omega arith, tt));
  inputs_apart = (
    (inl (refl, refl), (inr (inl (omega arith)), tt)),
    ((inr (inr (omega arith)), (inl (refl, refl), tt)), tt),
  );
}

abbrev live : Validity
live = record {
  provider_run = true;
  primary = true;
  watchdog = within;
  last_rx_age = some 1000000;
  cycle = 7;
}

abbrev calls : List Call
calls =
    write 1 1 (8 ∷ 9 ∷ [])
    ∷ publish true (1 ∷ 2 ∷ 3 ∷ 4 ∷ []) live
    ∷ write 2 1 (7 ∷ [])
    ∷ write 1 1 (5 ∷ [])
    ∷ publish false (0 ∷ 0 ∷ 0 ∷ 0 ∷ []) default
    ∷ []

snapshot-run_example :
    slice (rt_snapshot_inputs true (run image calls) (replicate 5 0)).0 0 2 ≡ 8 ∷ 9 ∷ []
snapshot-run_example =
    snapshot-run calls image 1 1 first_cell 0 (replicate 5 0) image-IsImage refl refl refl

abbrev as_read : Bytes → Validity → Bytes × Validity
as_read bytes validity = (bytes, validity)

read_outputs-run_example : read_outputs (run image calls) 2 1 as_read ≡ ok (2 ∷ 3 ∷ [], live)
read_outputs-run_example =
    read_outputs-run calls image 2 1 second_cell 1 as_read image-IsImage
      (tt, (refl, (tt, (tt, (refl, tt))))) refl refl
