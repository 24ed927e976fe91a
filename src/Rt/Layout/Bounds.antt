-- ===== src/Rt/Layout/Bounds.antt =====
-- A layout that was built fits its CRs.
use pnio_rs.Prelude.{
  ℕ, ◌<◌, ◌≡◌, arith, Bool, List, [], ◌∷◌, All, ok, ◌>>=◌, >>=-eq-ok, IsU16, subst, ◌*◌, replicate,
  false,
}
use pnio_rs.Eth.Header.{MacAddr}
use pnio_rs.Cm.Model.{DeviceModel}
use pnio_rs.Cm.Requests.{IocrObject}
use pnio_rs.Cm.Connect.{ConnectReq, ArParams, IocrParams}
use pnio_rs.Cm.Connect.Validate.{validate}
use pnio_rs.Cm.Connect.Accepted.{IsAccepted, validate-ok}
use pnio_rs.Rt.Layout.{Layout, CrLayout, IoObject, CsObject}
use pnio_rs.Rt.Layout.Build.{
  Dir, input, output, place_object, place_objects, place_cs, mark, tables_of, build_tables,
  build_cr, from_ar,
}
use pnio_rs.Rt.Engine.{RtStats, new}
use pnio_rs.Rt.Engine.Invariant.{IsCr, IsEngine, InCsdu, CsInCsdu, new-IsEngine}

place_object-InCsdu :
    (model : DeviceModel) (dir : Dir) (n : ℕ) (obj : IocrObject) (occupied : List Bool)
    (r : IoObject × List Bool)
    → place_object model dir n obj occupied ≡ ok r
    → InCsdu n r.0
unfolding place_object
place_object-InCsdu model dir n obj occupied r h = ground arith

place_objects-InCsdu :
    (model : DeviceModel) (dir : Dir) (n : ℕ) (objs : List IocrObject) (occupied : List Bool)
    (q : List IoObject × List Bool)
    → place_objects model dir n objs occupied ≡ ok q
    → All (InCsdu n) q.0
unfolding place_objects
place_objects-InCsdu model dir n [] occupied q h = ground arith
place_objects-InCsdu model dir n (obj ∷ objs) occupied q h =
    let (r, placed, h1) =
      >>=-eq-ok (place_object model dir n obj occupied)
        (λ (r : IoObject × List Bool).
          place_objects model dir n objs r.1 >>= λ (q : List IoObject × List Bool).
          ok (r.0 ∷ q.0, q.1))
        h in
    let (q', rest, h2) =
      >>=-eq-ok (place_objects model dir n objs r.1)
        (λ (q : List IoObject × List Bool). ok (r.0 ∷ q.0, q.1)) h1 in
    let same : r.0 ∷ q'.0 ≡ q.0 = ground arith in
    subst (λ os. All (InCsdu n) os) same
      (
        place_object-InCsdu model dir n obj occupied r placed,
        place_objects-InCsdu model dir n objs r.1 q' rest,
      )

place_cs-InCsdu :
    (n : ℕ) (objs : List IocrObject) (occupied : List Bool) (css : List CsObject)
    → place_cs n objs occupied ≡ ok css
    → All (CsInCsdu n) css
unfolding place_cs
place_cs-InCsdu n [] occupied css h = ground arith
place_cs-InCsdu n (obj ∷ objs) occupied css h =
    let fits : obj.frame_offset < n = ground arith in
    let h0 : (mark occupied obj.frame_offset 1 obj.slot obj.subslot >>= λ (occupied' : List Bool).
    place_cs n objs occupied' >>= λ (css : List CsObject).
    ok (record { slot = obj.slot; subslot = obj.subslot; iocs_off = obj.frame_offset } ∷ css))
        ≡ ok css =
      ground arith in
    let (occupied', marked, h1) =
      >>=-eq-ok (mark occupied obj.frame_offset 1 obj.slot obj.subslot) _ h0 in
    let (css', rest, h2) = >>=-eq-ok (place_cs n objs occupied') _ h1 in
    let same : record { slot = obj.slot; subslot = obj.subslot; iocs_off = obj.frame_offset } ∷ css'
        ≡ css =
      ground arith in
    subst (λ cs. All (CsInCsdu n) cs) same (fits, place_cs-InCsdu n objs occupied' css' rest)

build_cr-IsCr :
    (cr : IocrParams) (model : DeviceModel) (dir : Dir) (l : CrLayout)
    → IsU16 cr.frame_id
    → build_cr cr model dir ≡ ok l
    → IsCr l
unfolding build_cr
build_cr-IsCr cr model dir l id h =
    let step : ℕ = cr.send_clock_factor * cr.reduction_ratio in
    let n : ℕ = cr.data_length in
    let h0 : build_tables cr model dir step ≡ ok l = ground arith in
    let (q, placed, h1) =
      >>=-eq-ok (place_objects model dir n cr.io_data (replicate n false)) _ h0 in
    let (css, marked, h2) = >>=-eq-ok (place_cs n cr.iocs q.1) _ h1 in
    let same : tables_of cr step q.0 css ≡ l = ground arith in
    subst IsCr same (record {
      id_fits = id;
      objects_fit = place_objects-InCsdu model dir n cr.io_data (replicate n false) q placed;
      iocs_fit = place_cs-InCsdu n cr.iocs q.1 css marked;
    })

-- The engine of an AR whose Connect was accepted and whose layout was built has buffers that fit its
-- layout, with each object and status byte inside the C-SDU.
pub new-from_ar :
    (req : ConnectReq) (model : DeviceModel) (params : ArParams) (layout : Layout)
    (our_mac cpu_mac : MacAddr) (stats : RtStats)
    → validate req model ≡ ok params
    → from_ar params model ≡ ok layout
    → IsEngine (new layout our_mac cpu_mac stats)
unfolding from_ar
new-from_ar req model params layout our_mac cpu_mac stats v h =
    let a : IsAccepted req model params = validate-ok req model params v in
    let (i, ei, h1) = >>=-eq-ok (build_cr params.input_cr model input) _ h in
    let (o, eo, h2) = >>=-eq-ok (build_cr params.output_cr model output) _ h1 in
    let in_same : i ≡ layout.input_cr = ground arith in
    let out_same : o ≡ layout.output_cr = ground arith in
    new-IsEngine layout our_mac cpu_mac stats
      (subst IsCr in_same
        (build_cr-IsCr params.input_cr model input i (omega (arith, a.input_high)) ei))
      (subst IsCr out_same
        (build_cr-IsCr params.output_cr model output o (omega (arith, a.output_high)) eo))
