-- ===== src/Rt/Image/Cells.antt =====
-- The image of a layout that was built: its cells lie in the buffers and do not overlap.
use pnio_rs.Prelude.{
  ℕ, ◌∙◌, ◌≡◌, ◌⊎◌, inl, inr, arith, refl, sym, subst, ap, Bool, false, ◌&&◌, Bool-cases, ◌==◌,
  Option, none, some, find, All, All-map, ok, >>=-eq-ok, length, length-replicate,
}
use pnio_rs.Cm.Model.{DeviceModel, SubmoduleModel, find_submodule}
use pnio_rs.Cm.Connect.{ArParams}
use pnio_rs.Rt.Layout.{Layout, CrLayout, IoObject, Cell}
use pnio_rs.Rt.Layout.Build.{
  Dir, input, output, build_cr, from_ar, length_in, find_off, off_of, all_cells,
}
use pnio_rs.Rt.Layout.Disjoint.{AllApart, build_cr-AllApart}
use pnio_rs.Rt.Image.{IoImage, new}
use pnio_rs.Rt.Image.Bounds.{
  Placed, Fits, RangesApart, SameKey, Numbered, CellOf, found-All, found-Apart, find_off-Fits,
  all_cells-CellOf, build_cr-Placed,
}

-- The input data of the cells lies apart, but for two cells of one submodule.
abbrev pub CellsApart : Cell → Cell → Type 0
CellsApart c d = SameKey c d ⊎ RangesApart c.input_off c.input_len d.input_off d.input_len

pub record IsImage (img : IoImage) : Type 0 where
  pub inputs_fit : All (λ (c : Cell). Fits (length img.inputs) c.input_off c.input_len) img.cells
  pub outputs_fit :
      All (λ (c : Cell). Fits (length img.outputs.csdu) c.output_off c.output_len) img.cells
  pub inputs_apart : All (λ (c : Cell). All (CellsApart c) img.cells) img.cells

abbrev at : ℕ → ℕ → IoObject → Bool
at slot subslot o = o.slot == slot && o.subslot == subslot

-- Two submodules of the model with different numbers have their data apart.
module _ (model : DeviceModel) (dir : Dir) (l : CrLayout)
    (placed : All (Placed model dir l.data_length) l.objects) (disjoint : AllApart l.objects) where
  found_ranges :
      (slot subslot slot2 subslot2 : ℕ) (o o2 : IoObject) (sm sm2 : SubmoduleModel)
      → find (at slot subslot) l.objects ≡ some o
      → find (at slot2 subslot2) l.objects ≡ some o2
      → find_submodule model slot subslot ≡ some sm
      → find_submodule model slot2 subslot2 ≡ some sm2
      → (slot == slot2 && subslot == subslot2) ≡ false
      → RangesApart (some o.data_off) (length_in dir sm) (some o2.data_off) (length_in dir sm2)
  found_ranges slot subslot slot2 subslot2 o o2 sm sm2 e e2 k k2 differ =
      let ((m, f, len, iops, fits), key) =
        found-All (Placed model dir l.data_length) (at slot subslot) l.objects o placed e in
      let ((m2, f2, len2, iops2, fits2), key2) =
        found-All (Placed model dir l.data_length) (at slot2 subslot2) l.objects o2 placed e2 in
      let a : o.slot ≡ slot = ground arith in
      let b : o.subslot ≡ subslot = ground arith in
      let a2 : o2.slot ≡ slot2 = ground arith in
      let b2 : o2.subslot ≡ subslot2 = ground arith in
      let lens : length_in dir m ≡ length_in dir sm =
        ap (length_in dir) (let same : m ≡ sm = ground arith in same) in
      let lens2 : length_in dir m2 ≡ length_in dir sm2 =
        ap (length_in dir) (let same : m2 ≡ sm2 = ground arith in same) in
      elim (found-Apart (at slot subslot) (at slot2 subslot2) l.objects o o2 disjoint e e2 (λ same.
        let s : slot ≡ slot2 = sym a ∙ ap (λ (o : IoObject). o.slot) same ∙ a2 in
        let t : subslot ≡ subslot2 = sym b ∙ ap (λ (o : IoObject). o.subslot) same ∙ b2 in
        ground arith)) [ inl before ↦ inl (omega arith) | inr behind ↦ inr (omega arith) ]

  off_ranges :
      (slot subslot slot2 subslot2 : ℕ) (sm sm2 : SubmoduleModel)
      → find_submodule model slot subslot ≡ some sm
      → find_submodule model slot2 subslot2 ≡ some sm2
      → (slot == slot2 && subslot == subslot2) ≡ false
      → RangesApart
          (find_off l slot subslot)
          (length_in dir sm)
          (find_off l slot2 subslot2)
          (length_in dir sm2)
  off_ranges slot subslot slot2 subslot2 sm sm2 k k2 differ =
      go (find (at slot subslot) l.objects) refl (find (at slot2 subslot2) l.objects) refl
    where
      go :
          (r : Option IoObject)
          → find (at slot subslot) l.objects ≡ r
          → (r2 : Option IoObject) → find (at slot2 subslot2) l.objects ≡ r2
          → RangesApart (off_of r) (length_in dir sm) (off_of r2) (length_in dir sm2)
      go none e r2 e2 = tt
      go (some o) e none e2 = tt
      go (some o) e (some o2) e2 =
          found_ranges slot subslot slot2 subslot2 o o2 sm sm2 e e2 k k2 differ

cell-Fits :
    (model : DeviceModel) (dir : Dir) (l : CrLayout) (slot subslot : ℕ) (sm : SubmoduleModel)
    (n len : ℕ) (off : Option ℕ)
    → All (Placed model dir l.data_length) l.objects
    → find_submodule model slot subslot ≡ some sm
    → n ≡ l.data_length
    → len ≡ length_in dir sm
    → off ≡ find_off l slot subslot
    → Fits n off len
cell-Fits model dir l slot subslot sm n len off placed known_sm same_n same_len same_off =
    rw (same_n, same_len, same_off) (find_off-Fits model dir l slot subslot sm placed known_sm)

cells_apart :
    (model : DeviceModel) (i o : CrLayout) (c d : Cell)
    → All (Placed model input i.data_length) i.objects
    → AllApart i.objects
    → CellOf model i o c
    → CellOf model i o d
    → CellsApart c d
cells_apart model i o c d placed disjoint (sm, k, li, lo, oi, oo) (sm2, k2, li2, lo2, oi2, oo2) =
    elim (Bool-cases (c.slot == d.slot && c.subslot == d.subslot)) [
      | inl same ↦ inl (ground arith, ground arith)
      | inr differ ↦ inr (
          rw (li, li2, oi, oi2)
            (off_ranges model input i placed disjoint c.slot c.subslot d.slot d.subslot sm sm2 k k2
              differ))
    ]

built-IsImage :
    (model : DeviceModel) (layout : Layout)
    → All (Placed model input layout.input_cr.data_length) layout.input_cr.objects
    → All (Placed model output layout.output_cr.data_length) layout.output_cr.objects
    → AllApart layout.input_cr.objects
    → All (CellOf model layout.input_cr layout.output_cr) layout.cells
    → IsImage (new layout)
unfolding new
built-IsImage model layout placed_in placed_out disjoint cells = record {
  inputs_fit =
      All-map
        (λ c (sm, k, li, lo, oi, oo).
          cell-Fits model input layout.input_cr c.slot c.subslot sm _ c.input_len c.input_off
            placed_in k (length-replicate layout.input_cr.data_length 0) li oi)
        layout.cells cells;
  outputs_fit =
      All-map
        (λ c (sm, k, li, lo, oi, oo).
          cell-Fits model output layout.output_cr c.slot c.subslot sm _ c.output_len c.output_off
            placed_out k (length-replicate layout.output_cr.data_length 0) lo oo)
        layout.cells cells;
  inputs_apart =
      All-map
        (λ c hc.
          All-map
            (λ d hd.
              cells_apart model layout.input_cr layout.output_cr c d placed_in disjoint hc hd)
            layout.cells cells)
        layout.cells cells;
}

-- For a model whose slots and submodules are numbered apart, the image of a layout that was built
-- has every cell inside its buffers, and the input data of two submodules does not overlap.
pub new-IsImage :
    (params : ArParams) (model : DeviceModel) (layout : Layout)
    → Numbered model
    → from_ar params model ≡ ok layout
    → IsImage (new layout)
unfolding from_ar
new-IsImage params model layout numbered h =
    let (i, ei, h1) = >>=-eq-ok (build_cr params.input_cr model input) _ h in
    let (o, eo, h2) = >>=-eq-ok (build_cr params.output_cr model output) _ h1 in
    let same : record { input_cr = i; output_cr = o; cells = all_cells model.slots i o } ≡ layout =
      ground arith in
    subst (λ layout. IsImage (new layout)) same
      (built-IsImage model _ (build_cr-Placed params.input_cr model input i ei)
        (build_cr-Placed params.output_cr model output o eo)
        (build_cr-AllApart params.input_cr model input i ei)
        (all_cells-CellOf model i o model.slots numbered))
