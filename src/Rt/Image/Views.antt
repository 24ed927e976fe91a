-- ===== src/Rt/Image/Views.antt =====
-- What the RT thread reads of the inputs, and the application of the outputs, behind any calls.
use pnio_rs.Prelude.{
  ℕ, ◌+◌, ltb, ◌≤◌, ◌≡◌, arith, refl, sym, subst, ap, ◌∙◌, Bool, true, false, ◌&&◌, ◌==◌,
  if◌then◌else◌, min, some, find, List, [], ◌∷◌, All, ok, length, slice, Bytes, take-length,
  copy_at-all,
}
use pnio_rs.Rt.Layout.{Cell}
use pnio_rs.Rt.Image.{
  IoImage, Validity, find_cell, read_outputs, set_validity, rt_publish, rt_set_validity,
  rt_snapshot_inputs, copy_min,
}
use pnio_rs.Rt.Image.Bounds.{Fits, found-All}
use pnio_rs.Rt.Image.Cells.{IsImage}
use pnio_rs.Rt.Image.Steps.{
  Call, write, publish, set_state, rt_set_state, step, run, written, step-IsImage, write_lem,
  length-after, length-copy_min, write-slice,
}

-- A copy between buffers of one length is the source.
copy_min_whole : (dst src : Bytes) → length dst ≡ length src → copy_min dst src ≡ src
copy_min_whole dst src h =
    let n : min (length dst) (length src) ≡ length src = omega arith in
    rw (n, take-length src) (copy_at-all dst src (sym h))

step-keeps :
    (img : IoImage) (call : Call)
    → IsImage img
    → ((step img call).cells ≡ img.cells)
      × (length (step img call).inputs ≡ length img.inputs)
      × (length (step img call).outputs.csdu ≡ length img.outputs.csdu)
unfolding step rt_publish set_validity rt_set_validity
step-keeps img (write slot subslot bytes) h = rw (write_lem img slot subslot bytes h) (
  refl,
  length-after img.inputs (find_cell img slot subslot) bytes img.cells _ h.inputs_fit refl,
  refl,
)
step-keeps img (publish true csdu v) h = (refl, refl, length-copy_min img.outputs.csdu csdu)
step-keeps img (publish false csdu v) h = (refl, refl, refl)
step-keeps img (set_state v) h = (refl, refl, refl)
step-keeps img (rt_set_state true v) h = (refl, refl, refl)
step-keeps img (rt_set_state false v) h = (refl, refl, refl)

still_found :
    (img : IoImage) (call : Call) (slot subslot : ℕ) (c : Cell)
    → IsImage img
    → find_cell img slot subslot ≡ some c
    → find_cell (step img call) slot subslot ≡ some c
still_found img call slot subslot c h found =
    ap (find (λ (c : Cell). c.slot == slot && c.subslot == subslot)) (step-keeps img call h).0
    ∙ found

run-length :
    (calls : List Call) (img : IoImage)
    → IsImage img
    → length (run img calls).inputs ≡ length img.inputs
unfolding run
run-length [] img h = refl
run-length (call ∷ calls) img h =
    run-length calls (step img call) (step-IsImage img call h) ∙ (step-keeps img call h).1

run-written :
    (calls : List Call) (img : IoImage) (slot subslot : ℕ) (c : Cell) (off : ℕ)
    → IsImage img
    → find_cell img slot subslot ≡ some c
    → c.input_off ≡ some off
    → slice (run img calls).inputs off (off + c.input_len)
      ≡ written slot subslot (slice img.inputs off (off + c.input_len)) calls
unfolding run step rt_publish set_validity rt_set_validity
run-written [] img slot subslot c off h found has_input = refl
run-written (call ∷ calls) img slot subslot c off h found has_input =
    run-written calls (step img call) slot subslot c off (step-IsImage img call h)
      (still_found img call slot subslot c h found) has_input
    ∙ first call
  where
    first :
        (call : Call)
        → written slot subslot (slice (step img call).inputs off (off + c.input_len)) calls
          ≡ written slot subslot (slice img.inputs off (off + c.input_len)) (call ∷ calls)
    first (write slot2 subslot2 bytes) =
        ap (λ (bytes : Bytes). written slot subslot bytes calls)
          (ap (λ (img : IoImage). slice img.inputs off (off + c.input_len))
              (write_lem img slot2 subslot2 bytes h)
            ∙ write-slice img h slot subslot c off found has_input slot2 subslot2 bytes)
    first (publish true csdu v) = refl
    first (publish false csdu v) = refl
    first (set_state v) = refl
    first (rt_set_state true v) = refl
    first (rt_set_state false v) = refl

-- Whatever calls the application and the RT thread make, in any order, the snapshot that the RT
-- thread takes has in a submodule's place the bytes that were last written to that submodule with
-- its length (or the first ones, without such a write). The snapshot buffer has the image's length.
pub snapshot-run :
    (calls : List Call) (img : IoImage) (slot subslot : ℕ) (c : Cell) (off : ℕ) (dst : Bytes)
    → IsImage img
    → find_cell img slot subslot ≡ some c
    → c.input_off ≡ some off
    → length dst ≡ length img.inputs
    → slice (rt_snapshot_inputs true (run img calls) dst).0 off (off + c.input_len)
      ≡ written slot subslot (slice img.inputs off (off + c.input_len)) calls
unfolding rt_snapshot_inputs
snapshot-run calls img slot subslot c off dst h found has_input whole =
    rw (copy_min_whole dst (run img calls).inputs (whole ∙ sym (run-length calls img h)))
      (run-written calls img slot subslot c off h found has_input)

-- What the calls make of the output bytes and of the validity: what was last published, where the
-- RT thread got the lock.
abbrev pub published : Bytes → List Call → Bytes
published csdu [] = csdu
published csdu (publish free new v ∷ cs) = published (if free then new else csdu) cs
published csdu (write slot subslot bytes ∷ cs) = published csdu cs
published csdu (set_state v ∷ cs) = published csdu cs
published csdu (rt_set_state free v ∷ cs) = published csdu cs

abbrev pub judged : Validity → List Call → Validity
judged old [] = old
judged old (publish free csdu v ∷ cs) = judged (if free then v else old) cs
judged old (write slot subslot bytes ∷ cs) = judged old cs
judged old (set_state v ∷ cs) = judged v cs
judged old (rt_set_state free v ∷ cs) = judged (if free then v else old) cs

-- What is published has the image's length.
abbrev pub Whole : ℕ → Call → Type 0
Whole n (publish free csdu v) = length csdu ≡ n
Whole n (write slot subslot bytes) = Unit
Whole n (set_state v) = Unit
Whole n (rt_set_state free v) = Unit

step-outputs :
    (img : IoImage) (call : Call) (calls : List Call)
    → IsImage img
    → Whole (length img.outputs.csdu) call
    → (published (step img call).outputs.csdu calls ≡ published img.outputs.csdu (call ∷ calls))
      × (judged (step img call).outputs.validity calls ≡ judged img.outputs.validity (call ∷ calls))
unfolding step rt_publish set_validity rt_set_validity
step-outputs img (write slot subslot bytes) calls h w =
    rw (write_lem img slot subslot bytes h) (refl, refl)
step-outputs img (publish true csdu v) calls h w = (
  ap (λ (csdu : Bytes). published csdu calls) (copy_min_whole img.outputs.csdu csdu (sym w)),
  refl,
)
step-outputs img (publish false csdu v) calls h w = (refl, refl)
step-outputs img (set_state v) calls h w = (refl, refl)
step-outputs img (rt_set_state true v) calls h w = (refl, refl)
step-outputs img (rt_set_state false v) calls h w = (refl, refl)

run-outputs :
    (calls : List Call) (img : IoImage)
    → IsImage img
    → All (Whole (length img.outputs.csdu)) calls
    → ((run img calls).outputs.csdu ≡ published img.outputs.csdu calls)
      × ((run img calls).outputs.validity ≡ judged img.outputs.validity calls)
      × IsImage (run img calls)
      × ((run img calls).cells ≡ img.cells)
unfolding run
run-outputs [] img h ws = (refl, refl, h, refl)
run-outputs (call ∷ calls) img h (w, ws) =
    let (cells, inputs, outputs) = step-keeps img call h in
    let (a, b) = step-outputs img call calls h w in
    let (a2, b2, kept, cells2) =
      run-outputs calls (step img call) (step-IsImage img call h) (rw outputs ws) in
    (a2 ∙ a, b2 ∙ b, kept, cells2 ∙ cells)

read_lem {ℓ} :
    {A : Type ℓ} (img : IoImage) (slot subslot : ℕ) (c : Cell) (off : ℕ) (f : Bytes → Validity → A)
    → find_cell img slot subslot ≡ some c
    → c.output_off ≡ some off
    → off + c.output_len ≤ length img.outputs.csdu
    → read_outputs img slot subslot f
      ≡ ok (f (slice img.outputs.csdu off (off + c.output_len)) img.outputs.validity)
unfolding read_outputs
read_lem img slot subslot c off f found has_output fits =
    let short : ltb (length img.outputs.csdu) (off + c.output_len) ≡ false = ground arith in
    rw (found, has_output, short) refl

-- Whatever calls the application and the RT thread make, in any order, the callback of a submodule
-- with outputs gets its part of the C-SDU that was last published, and the validity that was last
-- stored; the read never fails. The C-SDUs that are published have the image's length.
pub read_outputs-run {ℓ} :
    {A : Type ℓ} (calls : List Call) (img : IoImage) (slot subslot : ℕ) (c : Cell) (off : ℕ)
    (f : Bytes → Validity → A)
    → IsImage img
    → All (Whole (length img.outputs.csdu)) calls
    → find_cell img slot subslot ≡ some c
    → c.output_off ≡ some off
    → read_outputs (run img calls) slot subslot f
      ≡ ok (
          f
            (slice (published img.outputs.csdu calls) off (off + c.output_len))
            (judged img.outputs.validity calls))
read_outputs-run calls img slot subslot c off f h whole found has_output =
    let (csdu, validity, kept, cells) = run-outputs calls img h whole in
    let p : Cell → Bool = λ c. c.slot == slot && c.subslot == subslot in
    let here : find_cell (run img calls) slot subslot ≡ some c = ap (find p) cells ∙ found in
    let fits : off + c.output_len ≤ length (run img calls).outputs.csdu =
      subst (λ o. Fits (length (run img calls).outputs.csdu) o c.output_len) has_output
        (found-All
          (λ (c : Cell). Fits (length (run img calls).outputs.csdu) c.output_off c.output_len) p
          (run img calls).cells c kept.outputs_fit here).0 in
    rw (← csdu, ← validity) (read_lem (run img calls) slot subslot c off f here has_output fits)
