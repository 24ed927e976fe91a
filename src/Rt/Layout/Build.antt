-- ===== src/Rt/Layout/Build.antt =====
-- crates/pnio/src/rt/layout.rs: `mark`, `build_cr` and `Layout::from_ar`.
use pnio_rs.Prelude.{
  ℕ, zero, suc, ◌+◌, ◌*◌, Bool, true, false, ◌&&◌, Option, none, some, find, ◌==◌, ltb,
  if◌then◌else◌,
}
use pnio_rs.Prelude.{List, [], ◌∷◌, ◌++◌, replicate, Result, ok, err, ◌>>=◌, ◌>>◌, fail_if}
use pnio_rs.Cm.Model.{DeviceModel, SlotModel, SubmoduleModel, find_submodule}
use pnio_rs.Cm.Requests.{IocrObject}
use pnio_rs.Cm.Connect.{ArParams, IocrParams}
use pnio_rs.Rt.Layout.{Layout, CrLayout, IoObject, CsObject, Cell}

-- 31.25 µs
abbrev pub cycle_unit : ℕ
cycle_unit = 31250

pub data Dir : Type 0 where
  input output : Dir

pub data LayoutError : Type 0 where
  unknown_submodule : ℕ → ℕ → LayoutError
  out_of_bounds : ℕ → ℕ → ℕ → ℕ → LayoutError
  overlap : ℕ → ℕ → LayoutError

-- The bytes with `len` of them marked from `off` on; `none` where one is taken. A range that goes
-- past the end, which `build_cr` has refused before, is `none` too.
unfoldable pub mark_bits : List Bool → ℕ → ℕ → Option (List Bool)
mark_bits bits zero zero = some bits
mark_bits [] zero (suc len) = none
mark_bits (b ∷ bits) zero (suc len) =
    let rest = mark_bits bits zero len in
    if b then none else elim rest [ none ↦ none | some marked ↦ some (true ∷ marked) ]
mark_bits [] (suc off) len = none
mark_bits (b ∷ bits) (suc off) len = elim (mark_bits bits off len) [
  | none ↦ none
  | some marked ↦ some (b ∷ marked)
]

abbrev marked_or : ℕ → ℕ → Option (List Bool) → Result LayoutError (List Bool)
marked_or slot subslot none = err (overlap slot subslot)
marked_or slot subslot (some bits) = ok bits

unfoldable pub mark : List Bool → ℕ → ℕ → ℕ → ℕ → Result LayoutError (List Bool)
mark occupied off len slot subslot = marked_or slot subslot (mark_bits occupied off len)

abbrev pub length_in : Dir → SubmoduleModel → ℕ
length_in input sm = sm.input_len
length_in output sm = sm.output_len

abbrev pub known : IocrObject → Option SubmoduleModel → Result LayoutError SubmoduleModel
known obj none = err (unknown_submodule obj.slot obj.subslot)
known obj (some sm) = ok sm

abbrev pub object_of : IocrObject → ℕ → IoObject
object_of obj len = record {
  slot = obj.slot;
  subslot = obj.subslot;
  data_off = obj.frame_offset;
  data_len = len;
  iops_off = obj.frame_offset + len;
}

abbrev pub place_bits :
    IocrObject → IoObject → List Bool → Result LayoutError (IoObject × List Bool)
place_bits obj o occupied = do
  with_data ← mark occupied o.data_off o.data_len obj.slot obj.subslot
  with_iops ← mark with_data o.iops_off 1 obj.slot obj.subslot
  ok (o, with_iops)

abbrev pub place_at :
    ℕ → IocrObject → IoObject → List Bool → Result LayoutError (IoObject × List Bool)
place_at data_length obj o occupied = do
  fail_if (ltb data_length (o.iops_off + 1))
      (out_of_bounds obj.slot obj.subslot (o.iops_off + 1) data_length)
  place_bits obj o occupied

-- The object, and the occupied bytes behind it.
unfoldable pub place_object :
    DeviceModel → Dir → ℕ → IocrObject → List Bool → Result LayoutError (IoObject × List Bool)
place_object model dir data_length obj occupied = do
  sm ← known obj (find_submodule model obj.slot obj.subslot)
  place_at data_length obj (object_of obj (length_in dir sm)) occupied

unfoldable pub place_objects :
    DeviceModel
    → Dir
    → ℕ
    → List IocrObject
    → List Bool
    → Result LayoutError (List IoObject × List Bool)
place_objects model dir data_length [] occupied = ok ([], occupied)
place_objects model dir data_length (obj ∷ objs) occupied =
    place_object model dir data_length obj occupied >>= λ (r : IoObject × List Bool).
    place_objects model dir data_length objs r.1 >>= λ (q : List IoObject × List Bool).
    ok (r.0 ∷ q.0, q.1)

unfoldable pub place_cs : ℕ → List IocrObject → List Bool → Result LayoutError (List CsObject)
place_cs data_length [] occupied = ok []
place_cs data_length (obj ∷ objs) occupied =
    fail_if (ltb data_length (obj.frame_offset + 1))
      (out_of_bounds obj.slot obj.subslot (obj.frame_offset + 1) data_length)
    >> (mark occupied obj.frame_offset 1 obj.slot obj.subslot >>= λ (occupied' : List Bool).
        place_cs data_length objs occupied' >>= λ (css : List CsObject).
        ok (record { slot = obj.slot; subslot = obj.subslot; iocs_off = obj.frame_offset } ∷ css))

abbrev pub tables_of : IocrParams → ℕ → List IoObject → List CsObject → CrLayout
tables_of cr cycle_step objects css = record {
  frame_id = cr.frame_id;
  data_length = cr.data_length;
  cycle_step = cycle_step;
  watchdog = cr.data_hold_factor * cycle_step * cycle_unit;
  objects = objects;
  iocs = css;
}

-- `build_cr` behind the test of the cycle's step.
abbrev pub build_tables : IocrParams → DeviceModel → Dir → ℕ → Result LayoutError CrLayout
build_tables cr model dir cycle_step = do
  (objects, occupied) ←
      place_objects model dir cr.data_length cr.io_data (replicate cr.data_length false)
  css ← place_cs cr.data_length cr.iocs occupied
  ok (tables_of cr cycle_step objects css)

-- `checked_mul` fails where the product does not fit a `u16`.
unfoldable pub build_cr : IocrParams → DeviceModel → Dir → Result LayoutError CrLayout
build_cr cr model dir = do
  let cycle_step = cr.send_clock_factor * cr.reduction_ratio
  fail_if (ltb 65535 cycle_step) (out_of_bounds 0 0 65535 cr.data_length)
  build_tables cr model dir cycle_step

abbrev pub off_of : Option IoObject → Option ℕ
off_of none = none
off_of (some o) = some o.data_off

abbrev pub find_off : CrLayout → ℕ → ℕ → Option ℕ
find_off cr slot subslot = off_of (find (λ o. o.slot == slot && o.subslot == subslot) cr.objects)

abbrev pub cells_of : ℕ → List SubmoduleModel → CrLayout → CrLayout → List Cell
cells_of slot [] input_cr output_cr = []
cells_of slot (sm ∷ sms) input_cr output_cr =
    record {
      slot = slot;
      subslot = sm.subslot;
      input_len = sm.input_len;
      output_len = sm.output_len;
      input_off = find_off input_cr slot sm.subslot;
      output_off = find_off output_cr slot sm.subslot;
    }
    ∷ cells_of slot sms input_cr output_cr

abbrev pub all_cells : List SlotModel → CrLayout → CrLayout → List Cell
all_cells [] input_cr output_cr = []
all_cells (s ∷ slots) input_cr output_cr =
    cells_of s.slot s.submodules input_cr output_cr ++ all_cells slots input_cr output_cr

unfoldable pub from_ar : ArParams → DeviceModel → Result LayoutError Layout
from_ar params model = do
  input_cr ← build_cr params.input_cr model input
  output_cr ← build_cr params.output_cr model output
  ok (record {
    input_cr = input_cr;
    output_cr = output_cr;
    cells = all_cells model.slots input_cr output_cr;
  })
