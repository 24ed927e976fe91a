-- ===== src/Rt/Image/Steps.antt =====
-- The methods of the application and of the RT thread in any order, and what each side reads.
use pnio_rs.Prelude.{
  ℕ, ◌+◌, ◌-◌, ◌≤◌, ◌≡◌, inl, inr, arith, refl, subst, Bool, true, false, ◌&&◌, Bool-cases, ◌==◌,
  if◌then◌else◌, min, Option, none, some, find, List, [], ◌∷◌, All, Result, ok, err, length, take,
  slice, Bytes, copy_at, drop, length-drop, length-copy_at, length-take, slice-copy_at, slice_apart,
}
use pnio_rs.Rt.Layout.{Cell}
use pnio_rs.Rt.Image.{
  IoImage, ImageError, Outputs, Validity, find_cell, write_inputs, set_validity, rt_publish,
  rt_set_validity, copy_min,
}
use pnio_rs.Rt.Image.Bounds.{Fits, RangesApart, found-All}
use pnio_rs.Rt.Image.Cells.{IsImage, CellsApart}

-- The calls that change the image while a layout is installed. The RT side's have the success of
-- their `try_lock`.
pub data Call : Type 0 where
  write : ℕ → ℕ → Bytes → Call
  publish : Bool → Bytes → Validity → Call
  set_state : Validity → Call
  rt_set_state : Bool → Validity → Call

abbrev settle : IoImage → Result ImageError IoImage → IoImage
settle img (err e) = img
settle img (ok behind) = behind

unfoldable pub step : IoImage → Call → IoImage
step img (write slot subslot bytes) = settle img (write_inputs img slot subslot bytes)
step img (publish free csdu v) = (rt_publish free img csdu v).0
step img (set_state v) = set_validity img v
step img (rt_set_state free v) = (rt_set_validity free img v).0

unfoldable pub run : IoImage → List Call → IoImage
run img [] = img
run img (c ∷ cs) = run (step img c) cs

-- The input bytes behind a write to a cell.
abbrev after_at : Bytes → Option ℕ → ℕ → Bytes → Bytes
after_at inputs none len bytes = inputs
after_at inputs (some off) len bytes =
    if length bytes == len then copy_at inputs off bytes else inputs

abbrev pub after : Bytes → Option Cell → Bytes → Bytes
after inputs none bytes = inputs
after inputs (some c) bytes = after_at inputs c.input_off c.input_len bytes

pub write_lem :
    (img : IoImage) (slot subslot : ℕ) (bytes : Bytes)
    → IsImage img
    → step img (write slot subslot bytes)
      ≡ record img { inputs = after img.inputs (find_cell img slot subslot) bytes }
unfolding step write_inputs
write_lem img slot subslot bytes h = cell (find_cell img slot subslot) refl
  where
    offset :
        (c : Cell) (r : Option ℕ)
        → find_cell img slot subslot ≡ some c
        → c.input_off ≡ r
        → Fits (length img.inputs) r c.input_len
        → settle img (write_inputs img slot subslot bytes)
          ≡ record img { inputs = after_at img.inputs r c.input_len bytes }
    offset c none e eo f = ground arith
    offset c (some off) e eo f = ground arith

    cell :
        (r : Option Cell)
        → find_cell img slot subslot ≡ r
        → settle img (write_inputs img slot subslot bytes)
          ≡ record img { inputs = after img.inputs r bytes }
    cell none e = ground arith
    cell (some c) e =
        offset c c.input_off e refl
          (found-All (λ (c : Cell). Fits (length img.inputs) c.input_off c.input_len)
            (λ c. c.slot == slot && c.subslot == subslot) img.cells c h.inputs_fit e).0

pub length-after :
    (inputs : Bytes) (r : Option Cell) (bytes : Bytes) (cells : List Cell) (p : Cell → Bool)
    → All (λ (c : Cell). Fits (length inputs) c.input_off c.input_len) cells
    → find p cells ≡ r
    → length (after inputs r bytes) ≡ length inputs
length-after inputs none bytes cells p hs e = refl
length-after inputs (some c) bytes cells p hs e =
    at c.input_off
      (found-All (λ (c : Cell). Fits (length inputs) c.input_off c.input_len) p cells c hs e).0
  where
    at :
        (r : Option ℕ)
        → Fits (length inputs) r c.input_len
        → length (after_at inputs r c.input_len bytes) ≡ length inputs
    at none f = refl
    at (some off) f = elim (Bool-cases (length bytes == c.input_len)) [
      | inl same ↦ ground (arith, length-copy_at inputs off bytes (ground arith))
      | inr differ ↦ ground arith
    ]

pub length-copy_min : (dst src : Bytes) → length (copy_min dst src) ≡ length dst
length-copy_min dst src =
    length-copy_at dst 0 (take (min (length dst) (length src)) src)
      (omega (arith, length-take (min (length dst) (length src)) src))

-- An image keeps the invariant where its cells and the lengths of its buffers stay.
pub resized :
    (img : IoImage) (inputs : Bytes) (outputs : Outputs)
    → length inputs ≡ length img.inputs
    → length outputs.csdu ≡ length img.outputs.csdu
    → IsImage img
    → IsImage (record { cells = img.cells; inputs = inputs; outputs = outputs })
resized img inputs outputs i o h = record {
  inputs_fit = rw i h.inputs_fit;
  outputs_fit = rw o h.outputs_fit;
  inputs_apart = h.inputs_apart;
}

pub step-IsImage : (img : IoImage) (c : Call) → IsImage img → IsImage (step img c)
unfolding step rt_publish set_validity rt_set_validity
step-IsImage img (write slot subslot bytes) h = rw (write_lem img slot subslot bytes h) (
    resized img _ img.outputs
      (length-after img.inputs (find_cell img slot subslot) bytes img.cells _ h.inputs_fit refl)
      refl h)
step-IsImage img (publish true csdu v) h =
    resized img img.inputs _ refl (length-copy_min img.outputs.csdu csdu) h
step-IsImage img (publish false csdu v) h = h
step-IsImage img (set_state v) h = resized img img.inputs _ refl refl h
step-IsImage img (rt_set_state true v) h = resized img img.inputs _ refl refl h
step-IsImage img (rt_set_state false v) h = h

-- What the calls make of the input bytes of a submodule: a write to it of the right length puts
-- its own, and nothing else changes them.
abbrev pub written : ℕ → ℕ → Bytes → List Call → Bytes
written slot subslot old [] = old
written slot subslot old (write slot2 subslot2 bytes ∷ cs) =
    written slot subslot
      (if (slot2 == slot && subslot2 == subslot) && length bytes == length old then bytes else old)
      cs
written slot subslot old (publish free csdu v ∷ cs) = written slot subslot old cs
written slot subslot old (set_state v ∷ cs) = written slot subslot old cs
written slot subslot old (rt_set_state free v ∷ cs) = written slot subslot old cs

pub length-slice :
    (xs : Bytes) (off len : ℕ) → off + len ≤ length xs → length (slice xs off (off + len)) ≡ len
length-slice xs off len h =
    omega (arith, length-take (off + len - off) (drop off xs), length-drop off xs)

-- A write to another submodule leaves the bytes of this one.
other_write :
    (inputs : Bytes) (off len : ℕ) (off2 : Option ℕ) (len2 : ℕ) (bytes : Bytes)
    → Fits (length inputs) off2 len2
    → RangesApart off2 len2 (some off) len
    → slice (after_at inputs off2 len2 bytes) off (off + len) ≡ slice inputs off (off + len)
other_write inputs off len none len2 bytes f a = refl
other_write inputs off len (some off2) len2 bytes f a = elim (Bool-cases (length bytes == len2)) [
  | inl same ↦
      let n : length bytes ≡ len2 = ground arith in
      rw same (
        slice_apart inputs off2 bytes off len (omega arith)
          (elim a [ inl before ↦ inl (omega arith) | inr behind ↦ inr (omega arith) ]))
  | inr differ ↦ rw differ refl
]

own_write :
    (inputs : Bytes) (off len : ℕ) (bytes : Bytes)
    → off + len ≤ length inputs
    → slice (after_at inputs (some off) len bytes) off (off + len)
      ≡ (if length bytes == len then bytes else slice inputs off (off + len))
own_write inputs off len bytes f = elim (Bool-cases (length bytes == len)) [
  | inl same ↦
      let n : length bytes ≡ len = ground arith in
      rw same (rw (← n) (slice-copy_at inputs off bytes (omega arith)))
  | inr differ ↦ rw differ refl
]

module _ (img : IoImage) (h : IsImage img) (slot subslot : ℕ) (c : Cell) (off : ℕ)
    (found : find_cell img slot subslot ≡ some c) (has_input : c.input_off ≡ some off) where
  own_fits : off + c.input_len ≤ length img.inputs
  own_fits =
      subst (λ o. Fits (length img.inputs) o c.input_len) has_input
        (found-All (λ (c : Cell). Fits (length img.inputs) c.input_off c.input_len)
          (λ c. c.slot == slot && c.subslot == subslot) img.cells c h.inputs_fit found).0

  pub write-slice :
      (slot2 subslot2 : ℕ) (bytes : Bytes)
      → slice (after img.inputs (find_cell img slot2 subslot2) bytes) off (off + c.input_len) ≡ (
          if (slot2 == slot && subslot2 == subslot)
            && length bytes == length (slice img.inputs off (off + c.input_len))
          then bytes
          else slice img.inputs off (off + c.input_len))
  write-slice slot2 subslot2 bytes = elim (Bool-cases (slot2 == slot && subslot2 == subslot)) [
    | inl same ↦
        let a : slot2 ≡ slot = ground arith in
        let b : subslot2 ≡ subslot = ground arith in
        let here : find_cell img slot2 subslot2 ≡ some c = rw (a, b) found in
        rw (here, same, length-slice img.inputs off c.input_len own_fits, has_input)
          (own_write img.inputs off c.input_len bytes own_fits)
    | inr differ ↦ rw differ (elsewhere (find_cell img slot2 subslot2) refl differ)
  ]
    where
      elsewhere :
          (r : Option Cell)
          → find_cell img slot2 subslot2 ≡ r
          → (slot2 == slot && subslot2 == subslot) ≡ false
          → slice (after img.inputs r bytes) off (off + c.input_len)
            ≡ slice img.inputs off (off + c.input_len)
      elsewhere none e differ = refl
      elsewhere (some d) e differ =
          let p2 : Cell → Bool = λ c. c.slot == slot2 && c.subslot == subslot2 in
          let p : Cell → Bool = λ c. c.slot == slot && c.subslot == subslot in
          let (fits, key2) =
            found-All (λ (c : Cell). Fits (length img.inputs) c.input_off c.input_len) p2 img.cells
              d h.inputs_fit e in
          let (all_apart, k2) =
            found-All (λ (c : Cell). All (CellsApart c) img.cells) p2 img.cells d h.inputs_apart
              e in
          let (apart, k) = found-All (CellsApart d) p img.cells c all_apart found in
          elim apart [
            | inl same ↦ absurd (ground arith)
            | inr ranges ↦
                other_write img.inputs off c.input_len d.input_off d.input_len bytes fits
                  (subst (λ o. RangesApart d.input_off d.input_len o c.input_len) has_input ranges)
          ]
