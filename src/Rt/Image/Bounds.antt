-- ===== src/Rt/Image/Bounds.antt =====
-- The cells of a layout that was built lie in the C-SDUs, and those of two submodules lie apart.
use pnio_rs.Prelude.{
  ℕ, ◌+◌, ◌*◌, ◌∙◌, ◌≤◌, ◌≡◌, ◌≢◌, ◌⊎◌, inl, inr, arith, refl, sym, subst, ap, Bool, true, false,
  ◌&&◌, Bool-cases, ◌==◌, Option, none, some, find, List, [], ◌∷◌, All, All-append, ok, ◌>>=◌,
  >>=-eq-ok, replicate,
}
use pnio_rs.Cm.Model.{DeviceModel, SlotModel, SubmoduleModel, find_submodule}
use pnio_rs.Cm.Requests.{IocrObject}
use pnio_rs.Cm.Connect.{IocrParams}
use pnio_rs.Rt.Layout.{CrLayout, IoObject, Cell}
use pnio_rs.Rt.Layout.Build.{
  Dir, place_object, place_objects, place_cs, build_tables, build_cr, length_in, known, object_of,
  tables_of, find_off, off_of, cells_of, all_cells,
}
use pnio_rs.Rt.Layout.Disjoint.{Apart, AllApart}

-- The submodule that the model has at the object's place, the object's length, and its status byte
-- behind the data, inside the C-SDU.
abbrev pub Placed : DeviceModel → Dir → ℕ → IoObject → Type 0
Placed model dir n o =
    (sm : SubmoduleModel) × (find_submodule model o.slot o.subslot ≡ some sm)
    × (o.data_len ≡ length_in dir sm)
    × (o.iops_off ≡ o.data_off + o.data_len)
    × (o.iops_off + 1 ≤ n)

place_object-Placed :
    (model : DeviceModel) (dir : Dir) (n : ℕ) (obj : IocrObject) (occupied : List Bool)
    (r : IoObject × List Bool)
    → place_object model dir n obj occupied ≡ ok r
    → Placed model dir n r.0
unfolding place_object
place_object-Placed model dir n obj occupied r h =
    let (sm, found, h1) = >>=-eq-ok (known obj (find_submodule model obj.slot obj.subslot)) _ h in
    let known_sm : find_submodule model obj.slot obj.subslot ≡ some sm = ground arith in
    let same : object_of obj (length_in dir sm) ≡ r.0 = ground arith in
    let fits : obj.frame_offset + length_in dir sm + 1 ≤ n = ground arith in
    subst (Placed model dir n) same (sm, known_sm, refl, refl, fits)

place_objects-Placed :
    (model : DeviceModel) (dir : Dir) (n : ℕ) (objs : List IocrObject) (occupied : List Bool)
    (q : List IoObject × List Bool)
    → place_objects model dir n objs occupied ≡ ok q
    → All (Placed model dir n) q.0
unfolding place_objects
place_objects-Placed model dir n [] occupied q h =
    let same : [] ≡ q.0 = ground arith in subst (All (Placed model dir n)) same tt
place_objects-Placed model dir n (obj ∷ objs) occupied q h =
    let (r, placed, h1) =
      >>=-eq-ok (place_object model dir n obj occupied)
        (λ (r : IoObject × List Bool).
          place_objects model dir n objs r.1 >>= λ (q : List IoObject × List Bool).
          ok (r.0 ∷ q.0, q.1))
        h in
    let (q', rest, h2) =
      >>=-eq-ok (place_objects model dir n objs r.1)
        (λ (q : List IoObject × List Bool). ok (r.0 ∷ q.0, q.1)) h1 in
    let same : r.0 ∷ q'.0 ≡ q.0 = ground arith in
    subst (All (Placed model dir n)) same (
      place_object-Placed model dir n obj occupied r placed,
      place_objects-Placed model dir n objs r.1 q' rest,
    )

pub build_cr-Placed :
    (cr : IocrParams) (model : DeviceModel) (dir : Dir) (l : CrLayout)
    → build_cr cr model dir ≡ ok l
    → All (Placed model dir l.data_length) l.objects
unfolding build_cr
build_cr-Placed cr model dir l h =
    let step : ℕ = cr.send_clock_factor * cr.reduction_ratio in
    let n : ℕ = cr.data_length in
    let h0 : build_tables cr model dir step ≡ ok l = ground arith in
    let (q, placed, h1) =
      >>=-eq-ok (place_objects model dir n cr.io_data (replicate n false)) _ h0 in
    let (css, marked, h2) = >>=-eq-ok (place_cs n cr.iocs q.1) _ h1 in
    let same : tables_of cr step q.0 css ≡ l = ground arith in
    subst (λ (l : CrLayout). All (Placed model dir l.data_length) l.objects) same
      (place_objects-Placed model dir n cr.io_data (replicate n false) q placed)

module _ {ℓ} {A : Type ℓ} where
  -- What holds of all the elements holds of the one that is found, which passes the test.
  pub found-All {κ} :
      (P : A → Type κ) (p : A → Bool) (xs : List A) (x : A)
      → All P xs
      → find p xs ≡ some x
      → P x × (p x ≡ true)
  found-All P p [] x hs e = absurd (ground arith)
  found-All P p (y ∷ ys) x (h, hs) e = elim (Bool-cases (p y)) [
    | inl hit ↦ let same : y ≡ x = ground arith in subst (λ x. P x × (p x ≡ true)) same (h, hit)
    | inr miss ↦ found-All P p ys x hs (ground arith)
  ]

swap : (o o' : IoObject) → Apart o o' → Apart o' o
swap o o' (inl h) = inr h
swap o o' (inr h) = inl h

-- Of objects that lie apart, two tests that find different ones find two that lie apart.
pub found-Apart :
    (p p' : IoObject → Bool) (os : List IoObject) (o o' : IoObject)
    → AllApart os
    → find p os ≡ some o
    → find p' os ≡ some o'
    → o ≢ o'
    → Apart o o'
found-Apart p p' [] o o' hs e e' ne = absurd (ground arith)
found-Apart p p' (x ∷ os) o o' (h, hs) e e' ne = elim (Bool-cases (p x)) [
  | inl hit ↦ elim (Bool-cases (p' x)) [
    | inl hit2 ↦
        let a : x ≡ o = ground arith in let b : x ≡ o' = ground arith in absurd (ne (sym a ∙ b))
    | inr miss2 ↦
        let a : x ≡ o = ground arith in
        subst (λ o. Apart o o') a (found-All (Apart x) p' os o' h (ground arith)).0
  ]
  | inr miss ↦ elim (Bool-cases (p' x)) [
    | inl hit2 ↦
        let b : x ≡ o' = ground arith in
        subst (λ o'. Apart o o') b (swap x o (found-All (Apart x) p os o h (ground arith)).0)
    | inr miss2 ↦ found-Apart p p' os o o' hs (ground arith) (ground arith) ne
  ]
]

-- A range of the cell's length at its offset lies in a buffer of `n` bytes.
abbrev pub Fits : ℕ → Option ℕ → ℕ → Type 0
Fits n none len = Unit
Fits n (some off) len = off + len ≤ n

abbrev pub RangesApart : Option ℕ → ℕ → Option ℕ → ℕ → Type 0
RangesApart none len off' len' = Unit
RangesApart (some off) len none len' = Unit
RangesApart (some off) len (some off') len' = (off + len ≤ off') ⊎ (off' + len' ≤ off)

abbrev pub SameKey : Cell → Cell → Type 0
SameKey c d = (c.slot ≡ d.slot) × (c.subslot ≡ d.subslot)

-- The slots of the model, and the submodules of each, have different numbers: each is the one that
-- is found under its number.
abbrev pub Numbered : DeviceModel → Type 0
Numbered model =
    All
      (λ (s : SlotModel).
        All (λ (sm : SubmoduleModel). find_submodule model s.slot sm.subslot ≡ some sm)
          s.submodules)
      model.slots

-- The cell is that of a submodule of the model, with the offsets that the layout has for it.
abbrev pub CellOf : DeviceModel → CrLayout → CrLayout → Cell → Type 0
CellOf model i o c =
    (sm : SubmoduleModel) × (find_submodule model c.slot c.subslot ≡ some sm)
    × (c.input_len ≡ sm.input_len)
    × (c.output_len ≡ sm.output_len)
    × (c.input_off ≡ find_off i c.slot c.subslot)
    × (c.output_off ≡ find_off o c.slot c.subslot)

cells_of-CellOf :
    (model : DeviceModel) (i o : CrLayout) (slot : ℕ) (sms : List SubmoduleModel)
    → All (λ (sm : SubmoduleModel). find_submodule model slot sm.subslot ≡ some sm) sms
    → All (CellOf model i o) (cells_of slot sms i o)
cells_of-CellOf model i o slot [] hs = tt
cells_of-CellOf model i o slot (sm ∷ sms) (h, hs) =
    ((sm, h, refl, refl, refl, refl), cells_of-CellOf model i o slot sms hs)

pub all_cells-CellOf :
    (model : DeviceModel) (i o : CrLayout) (slots : List SlotModel)
    → All
        (λ (s : SlotModel).
          All
            (λ (sm : SubmoduleModel). find_submodule model s.slot sm.subslot ≡ some sm)
            s.submodules)
        slots
    → All (CellOf model i o) (all_cells slots i o)
all_cells-CellOf model i o [] hs = tt
all_cells-CellOf model i o (s ∷ slots) (h, hs) =
    All-append (CellOf model i o) (cells_of s.slot s.submodules i o) (all_cells slots i o)
      (cells_of-CellOf model i o s.slot s.submodules h) (all_cells-CellOf model i o slots hs)

pub find_off-Fits :
    (model : DeviceModel) (dir : Dir) (l : CrLayout) (slot subslot : ℕ) (sm : SubmoduleModel)
    → All (Placed model dir l.data_length) l.objects
    → find_submodule model slot subslot ≡ some sm
    → Fits l.data_length (find_off l slot subslot) (length_in dir sm)
find_off-Fits model dir l slot subslot sm hs known_sm =
    go (find (λ o. o.slot == slot && o.subslot == subslot) l.objects) refl
  where
    go :
        (r : Option IoObject)
        → find (λ o. o.slot == slot && o.subslot == subslot) l.objects ≡ r
        → Fits l.data_length (off_of r) (length_in dir sm)
    go none e = tt
    go (some o) e =
        let (p, key) =
          found-All (Placed model dir l.data_length) (λ o. o.slot == slot && o.subslot == subslot)
            l.objects o hs e in
        let (sm2, found, len, iops, fits) = p in
        let slot_same : o.slot ≡ slot = ground arith in
        let subslot_same : o.subslot ≡ subslot = ground arith in
        let same : sm2 ≡ sm = ground arith in
        let lens : length_in dir sm2 ≡ length_in dir sm = ap (length_in dir) same in omega arith
