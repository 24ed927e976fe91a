-- ===== src/Rt/Layout/Disjoint.antt =====
-- No two objects of a layout share a byte.
use pnio_rs.Prelude.{
  ℕ, zero, suc, ◌+◌, ◌*◌, ◌≤◌, ◌<◌, ◌≡◌, ◌⊎◌, inl, inr, arith, refl, subst, Bool, true, false,
  Bool-cases, ltb,
}
use pnio_rs.Prelude.{
  List, [], ◌∷◌, All, All-map, Option, none, some, ok, ◌>>=◌, >>=-eq-ok, replicate,
}
use pnio_rs.Cm.Model.{DeviceModel, find_submodule}
use pnio_rs.Cm.Requests.{IocrObject}
use pnio_rs.Cm.Connect.{IocrParams}
use pnio_rs.Rt.Layout.{CrLayout, IoObject}
use pnio_rs.Rt.Layout.Build.{
  Dir, mark_bits, mark, place_object, place_objects, place_cs, place_at, place_bits, known,
  length_in, build_cr, build_tables, object_of,
}

-- Whether byte `i` is taken.
abbrev bit : List Bool → ℕ → Bool
bit [] i = false
bit (b ∷ bits) zero = b
bit (b ∷ bits) (suc i) = bit bits i

cons_some :
    (b : Bool) (r : Option (List Bool)) (bits : List Bool)
    → elim r [ none ↦ none | some marked ↦ some (b ∷ marked) ] ≡ some bits
    → (marked : List Bool) × (r ≡ some marked) × (bits ≡ b ∷ marked)
cons_some b none bits h = absurd (ground arith)
cons_some b (some marked) bits h = (marked, refl, ground arith)

-- The bytes that a mark takes were free and are taken, and no byte becomes free.
Marks : List Bool → ℕ → ℕ → List Bool → ℕ → Type 0
Marks before off len behind i =
    (off ≤ i → i < off + len → (bit before i ≡ false) × (bit behind i ≡ true))
    × (bit before i ≡ true → bit behind i ≡ true)

mark_bits_lem :
    (before : List Bool) (off len : ℕ) (behind : List Bool)
    → mark_bits before off len ≡ some behind
    → (i : ℕ) → Marks before off len behind i
unfolding Marks mark_bits
mark_bits_lem before zero zero behind h i = (λ l u. absurd (omega arith), λ t. ground arith)
mark_bits_lem [] zero (suc len) behind h i = absurd (ground arith)
mark_bits_lem [] (suc off) len behind h i = absurd (ground arith)
mark_bits_lem (true ∷ bits) zero (suc len) behind h i = absurd (ground arith)
mark_bits_lem (false ∷ bits) zero (suc len) behind h zero =
    let (marked, e, same) = cons_some true (mark_bits bits zero len) behind h in
    (λ l u. (refl, ground arith), λ t. ground arith)
mark_bits_lem (false ∷ bits) zero (suc len) behind h (suc i) =
    let (marked, e, same) = cons_some true (mark_bits bits zero len) behind h in
    let (taken, kept) = mark_bits_lem bits zero len marked e i in
    (
      λ l u. let (f, t) = taken (omega arith) (omega arith) in (f, ground arith),
      λ t. ground (arith, kept t),
    )
mark_bits_lem (b ∷ bits) (suc off) len behind h zero =
    let (marked, e, same) = cons_some b (mark_bits bits off len) behind h in
    (λ l u. absurd (omega arith), λ t. ground arith)
mark_bits_lem (b ∷ bits) (suc off) len behind h (suc i) =
    let (marked, e, same) = cons_some b (mark_bits bits off len) behind h in
    let (taken, kept) = mark_bits_lem bits off len marked e i in
    (
      λ l u. let (f, t) = taken (omega arith) (omega arith) in (f, ground arith),
      λ t. ground (arith, kept t),
    )

-- Byte `i` belongs to the object's data or is its status byte.
abbrev Within : IoObject → ℕ → Type 0
Within o i = (o.data_off ≤ i) × (i ≤ o.iops_off)

-- What placing an object does to byte `i`.
Places : List Bool → IoObject → List Bool → ℕ → Type 0
Places before o behind i =
    (Within o i → (bit before i ≡ false) × (bit behind i ≡ true))
    × (bit before i ≡ true → bit behind i ≡ true)

mark-ok :
    (bits : List Bool) (off len slot subslot : ℕ) (behind : List Bool)
    → mark bits off len slot subslot ≡ ok behind
    → mark_bits bits off len ≡ some behind
unfolding mark
mark-ok bits off len slot subslot behind h = ground arith

two_marks :
    (o : IoObject) (before middle behind : List Bool)
    → o.iops_off ≡ o.data_off + o.data_len
    → mark_bits before o.data_off o.data_len ≡ some middle
    → mark_bits middle o.iops_off 1 ≡ some behind
    → (i : ℕ) → Places before o behind i
unfolding Places Marks
two_marks o before middle behind same m1 m2 i =
    let (taken1, kept1) = mark_bits_lem before o.data_off o.data_len middle m1 i in
    let (taken2, kept2) = mark_bits_lem middle o.iops_off 1 behind m2 i in ground arith

place_at_lem :
    (n : ℕ) (obj : IocrObject) (len : ℕ) (before : List Bool) (r : IoObject × List Bool)
    → place_at n obj (object_of obj len) before ≡ ok r
    → (i : ℕ) → Places before r.0 r.1 i
place_at_lem n obj len before r h i =
    let o : IoObject = object_of obj len in
    let h0 : place_bits obj o before ≡ ok r = ground arith in
    let (middle, m1, h1) =
      >>=-eq-ok (mark before o.data_off o.data_len obj.slot obj.subslot) _ h0 in
    let (behind, m2, h2) = >>=-eq-ok (mark middle o.iops_off 1 obj.slot obj.subslot) _ h1 in
    let same : (o, behind) ≡ r = ground arith in
    subst (λ (r : IoObject × List Bool). Places before r.0 r.1 i) same
      (two_marks o before middle behind refl
        (mark-ok before o.data_off o.data_len obj.slot obj.subslot middle m1)
        (mark-ok middle o.iops_off 1 obj.slot obj.subslot behind m2) i)

place_object_lem :
    (model : DeviceModel) (dir : Dir) (n : ℕ) (obj : IocrObject) (before : List Bool)
    (r : IoObject × List Bool)
    → place_object model dir n obj before ≡ ok r
    → (i : ℕ) → Places before r.0 r.1 i
unfolding place_object
place_object_lem model dir n obj before r h i =
    let (sm, found, h1) = >>=-eq-ok (known obj (find_submodule model obj.slot obj.subslot)) _ h in
    place_at_lem n obj (length_in dir sm) before r h1 i

-- One of the objects ends before the other begins.
abbrev pub Apart : IoObject → IoObject → Type 0
Apart o o' = (o.iops_off < o'.data_off) ⊎ (o'.iops_off < o.data_off)

-- Each object is apart from those behind it.
abbrev pub AllApart : List IoObject → Type 0
AllApart [] = Unit
AllApart (o ∷ os) = All (Apart o) os × AllApart os

apart :
    (bits : List Bool) (o o' : IoObject)
    → o.data_off ≤ o.iops_off
    → o'.data_off ≤ o'.iops_off
    → ((i : ℕ) → Within o i → bit bits i ≡ true)
    → ((i : ℕ) → Within o' i → bit bits i ≡ false)
    → Apart o o'
apart bits o o' w w' taken free = elim (Bool-cases (ltb o.iops_off o'.data_off)) [
  | inl before ↦ inl (ground arith)
  | inr late ↦ elim (Bool-cases (ltb o'.iops_off o.data_off)) [
    | inl before ↦ inr (ground arith)
    | inr late' ↦ elim (Bool-cases (ltb o.data_off o'.data_off)) [
      | inl first ↦ absurd (ground (arith, taken o'.data_off, free o'.data_off))
      | inr second ↦ absurd (ground (arith, taken o.data_off, free o.data_off))
    ]
  ]
]

-- The object's bytes are free.
abbrev Free : List Bool → IoObject → Type 0
Free bits o = (o.data_off ≤ o.iops_off) × ((i : ℕ) → Within o i → bit bits i ≡ false)

place_object-ordered :
    (model : DeviceModel) (dir : Dir) (n : ℕ) (obj : IocrObject) (before : List Bool)
    (r : IoObject × List Bool)
    → place_object model dir n obj before ≡ ok r
    → r.0.data_off ≤ r.0.iops_off
unfolding place_object
place_object-ordered model dir n obj before r h = ground arith

still-Free :
    (before behind : List Bool) (o : IoObject)
    → ((i : ℕ) → bit before i ≡ true → bit behind i ≡ true)
    → Free behind o
    → Free before o
still-Free before behind o kept (ordered, free) = (ordered, λ i w. ground (arith, kept i, free i w))

place_objects_lem :
    (model : DeviceModel) (dir : Dir) (n : ℕ) (objs : List IocrObject) (before : List Bool)
    (q : List IoObject × List Bool)
    → place_objects model dir n objs before ≡ ok q
    → All (Free before) q.0 × AllApart q.0
unfolding place_objects Places
place_objects_lem model dir n [] before q h =
    let same : [] ≡ q.0 = ground arith in
    subst (λ os. All (Free before) os × AllApart os) same (tt, tt)
place_objects_lem model dir n (obj ∷ objs) before q h =
    let (r, placed, h1) =
      >>=-eq-ok (place_object model dir n obj before)
        (λ (r : IoObject × List Bool).
          place_objects model dir n objs r.1 >>= λ (q : List IoObject × List Bool).
          ok (r.0 ∷ q.0, q.1))
        h in
    let (q', rest, h2) =
      >>=-eq-ok (place_objects model dir n objs r.1)
        (λ (q : List IoObject × List Bool). ok (r.0 ∷ q.0, q.1)) h1 in
    let same : r.0 ∷ q'.0 ≡ q.0 = ground arith in
    let ordered : r.0.data_off ≤ r.0.iops_off =
      place_object-ordered model dir n obj before r placed in
    let (free, disjoint) = place_objects_lem model dir n objs r.1 q' rest in
    subst (λ os. All (Free before) os × AllApart os) same
      (
        (
          (ordered, λ i w. ((place_object_lem model dir n obj before r placed i).0 w).0),
          All-map
              (λ o.
                still-Free before r.1 o
                  (λ i. (place_object_lem model dir n obj before r placed i).1))
              q'.0 free,
        ),
        (
          All-map
              (λ o f.
                apart r.1 r.0 o ordered f.0
                  (λ i w. ((place_object_lem model dir n obj before r placed i).0 w).1) f.1)
              q'.0 free,
          disjoint,
        ),
      )

-- The data objects of a CR whose layout was built, each with its status byte, do not overlap: of any
-- two, one ends before the other begins.
pub build_cr-AllApart :
    (cr : IocrParams) (model : DeviceModel) (dir : Dir) (l : CrLayout)
    → build_cr cr model dir ≡ ok l
    → AllApart l.objects
unfolding build_cr
build_cr-AllApart cr model dir l h =
    let step : ℕ = cr.send_clock_factor * cr.reduction_ratio in
    let n : ℕ = cr.data_length in
    let h0 : build_tables cr model dir step ≡ ok l = ground arith in
    let (q, placed, h1) =
      >>=-eq-ok (place_objects model dir n cr.io_data (replicate n false)) _ h0 in
    let (css, marked, h2) = >>=-eq-ok (place_cs n cr.iocs q.1) _ h1 in
    let same : q.0 ≡ l.objects = ground arith in
    subst AllApart same (place_objects_lem model dir n cr.io_data (replicate n false) q placed).1
