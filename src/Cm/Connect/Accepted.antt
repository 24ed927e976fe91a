-- ===== src/Cm/Connect/Accepted.antt =====
-- What an accepted Connect request satisfies.
use pnio_rs.Prelude.{
  All-map, ℕ, suc, ap, if◌then◌else◌, ◌+◌, ◌≤◌, ◌≡◌, ◌≢◌, arith, refl, subst, Bool, true, false,
  Option, none, some,
}
use pnio_rs.Prelude.{All, ◌==◌, ok, ◌>>=◌, >>=-eq-ok}
use pnio_rs.Prelude.{for_each, for_each-ok}
use pnio_rs.Rpc.Uuid.{nil_uuid, uuid_eq_refl}
use pnio_rs.Cm.Model.{DeviceModel, SubmoduleModel, SlotModel, find_slot, find_submodule}
use pnio_rs.Cm.Requests.{
  IocrObject, IocrBlockReq, ExpectedSubmodule, ExpectedApi, ExpectedSubmoduleBlockReq,
}
use pnio_rs.Cm.Connect.{ConnectReq, IocrParams, ArParams}
use pnio_rs.Cm.Connect.Validate.{
  validate, validate_crs, find_crs, check_frame_ids, check_expected, check_api, check_submodule,
  check_iocr_data_length, check_io_data, check_iocs, select_output_frame_id, output_frame_id,
  from_req, params_of, model_len, io_data_of, iocs_of, described_length, find_frame_id, unwrap_or,
}

-- The data of an object lies in the CR's data, with the IOPS byte behind it.
abbrev pub FitsObject : DeviceModel → Bool → ℕ → IocrObject → Type 0
FitsObject model is_output_cr data_length obj =
    (sm : SubmoduleModel) × (find_submodule model obj.slot obj.subslot ≡ some sm)
    × (obj.frame_offset + model_len is_output_cr sm + 1 ≤ data_length)

abbrev pub FitsCr : DeviceModel → Bool → IocrParams → Type 0
FitsCr model is_output_cr cr =
    All (FitsObject model is_output_cr cr.data_length) cr.io_data
    × All (λ (obj : IocrObject). obj.frame_offset + 1 ≤ cr.data_length) cr.iocs

-- The model has the expected submodule, of the same identity and lengths.
abbrev pub HasSubmodule : DeviceModel → ℕ → ExpectedSubmodule → Type 0
HasSubmodule model slot sm =
    (m : SubmoduleModel) × (find_submodule model slot sm.subslot ≡ some m)
    × (m.submodule_ident ≡ sm.submodule_ident)
    × (m.input_len ≡ described_length sm.input)
    × (m.output_len ≡ described_length sm.output)

abbrev pub HasApi : DeviceModel → ExpectedApi → Type 0
HasApi model api =
    ((s : SlotModel) → find_slot model api.slot ≡ some s → s.module_ident ≡ api.module_ident)
    × All (HasSubmodule model api.slot) api.submodules

abbrev pub HasBlock : DeviceModel → ExpectedSubmoduleBlockReq → Type 0
HasBlock model block = All (HasApi model) block.apis

pub record IsAccepted (req : ConnectReq) (model : DeviceModel) (p : ArParams) : Type 0 where
  pub uuid_lem : p.ar_uuid ≢ nil_uuid
  pub same_uuid : p.ar_uuid ≡ req.ar.ar_uuid
  pub same_session : p.session_key ≡ req.ar.session_key
  pub input_low : 0x8000 ≤ p.input_cr.frame_id
  pub input_high : p.input_cr.frame_id ≤ 0xBBFF
  pub output_low : 0x8000 ≤ p.output_cr.frame_id
  pub output_high : p.output_cr.frame_id ≤ 0xBBFF
  pub input_fits : FitsCr model false p.input_cr
  pub output_fits : FitsCr model true p.output_cr
  pub expected_fit : All (HasBlock model) req.expected

fits_found :
    (model : DeviceModel) (o : Bool) (len : ℕ) (obj : IocrObject) (r : Option SubmoduleModel)
    → find_submodule model obj.slot obj.subslot ≡ r
    → check_io_data model o len obj ≡ ok tt
    → FitsObject model o len obj
unfolding check_io_data
fits_found model o len obj none e h = absurd (ground arith)
fits_found model o len obj (some sm) e h = (sm, e, ground arith)

fits_iocs : (len : ℕ) (obj : IocrObject) → check_iocs len obj ≡ ok tt → obj.frame_offset + 1 ≤ len
unfolding check_iocs
fits_iocs len obj h = ground arith

fits_cr :
    (model : DeviceModel) (o : Bool) (cr : IocrBlockReq)
    → check_iocr_data_length cr model o ≡ ok tt
    → FitsCr model o (from_req cr)
unfolding check_iocr_data_length from_req
fits_cr model o cr h = (
  All-map (λ obj. fits_found model o cr.data_length obj _ refl) (io_data_of cr.apis)
      (for_each-ok (check_io_data model o cr.data_length) (io_data_of cr.apis) (ground arith)),
  All-map (fits_iocs cr.data_length) (iocs_of cr.apis)
      (for_each-ok (check_iocs cr.data_length) (iocs_of cr.apis) (ground arith)),
)

has_found :
    (model : DeviceModel) (slot : ℕ) (sm : ExpectedSubmodule) (r : Option SubmoduleModel)
    → find_submodule model slot sm.subslot ≡ r
    → check_submodule model slot sm ≡ ok tt
    → HasSubmodule model slot sm
unfolding check_submodule
has_found model slot sm none e h = absurd (ground arith)
has_found model slot sm (some m) e h = (m, e, ground arith, ground arith, ground arith)

has_api : (model : DeviceModel) (api : ExpectedApi) → check_api model api ≡ ok tt → HasApi model api
unfolding check_api
has_api model api h = (
  λ s e. ground arith,
  All-map (λ sm. has_found model api.slot sm _ refl) api.submodules
      (for_each-ok (check_submodule model api.slot) api.submodules (ground arith)),
)

has_block :
    (model : DeviceModel) (block : ExpectedSubmoduleBlockReq)
    → check_expected model block ≡ ok tt
    → HasBlock model block
unfolding check_expected
has_block model block h = All-map (has_api model) block.apis (for_each-ok _ _ h)

find_frame_id_lem :
    (n id input_id : ℕ)
    → find_frame_id (suc (suc n)) id input_id ≡ some (if id == input_id then id + 1 else id)
unfolding find_frame_id
find_frame_id_lem n id input_id = ground arith

select_lem :
    (input_id : ℕ)
    → select_output_frame_id input_id ≡ (if 0x8001 == input_id then 0x8002 else 0x8001)
unfolding select_output_frame_id
select_lem input_id =
    ap (λ (r : Option ℕ). unwrap_or r 0x8001) (find_frame_id_lem 0x3BFD 0x8001 input_id)

-- The frame ID that the device selects for its Output CR is in the range of cyclic data and is not
-- the Input CR's.
pub select_output_frame_id_lem :
    (input_id : ℕ)
    → (0x8001 ≤ select_output_frame_id input_id)
      × (select_output_frame_id input_id ≤ 0xBBFF)
      × (select_output_frame_id input_id ≢ input_id)
select_output_frame_id_lem input_id = ground (arith, select_lem input_id)

output_range :
    (i o : ℕ)
    → check_frame_ids i o ≡ ok tt
    → (0x8000 ≤ i) × (i ≤ 0xBBFF) × (0x8000 ≤ output_frame_id i o) × (output_frame_id i o ≤ 0xBBFF)
unfolding check_frame_ids
output_range i o h = ground (arith, select_output_frame_id_lem i)

module _ (req : ConnectReq) (model : DeviceModel) where
  crs-IsAccepted :
      (i o : IocrBlockReq)
      → req.ar.ar_uuid ≢ nil_uuid
      → check_frame_ids i.frame_id o.frame_id ≡ ok tt
      → for_each (check_expected model) req.expected ≡ ok tt
      → check_iocr_data_length i model false ≡ ok tt
      → check_iocr_data_length o model true ≡ ok tt
      → IsAccepted req model (params_of req model i o)
  unfolding from_req
  crs-IsAccepted i o hn hf he hi ho =
      let (il, ih, ol, oh) = output_range i.frame_id o.frame_id hf in
      record {
        uuid_lem = hn;
        same_uuid = refl;
        same_session = refl;
        input_low = il;
        input_high = ih;
        output_low = ol;
        output_high = oh;
        input_fits = fits_cr model false i hi;
        output_fits = fits_cr model true o ho;
        expected_fit =
            All-map (has_block model) req.expected
              (for_each-ok (check_expected model) req.expected he);
      }

  crs_ok :
      (crs : IocrBlockReq × IocrBlockReq) (p : ArParams)
      → req.ar.ar_uuid ≢ nil_uuid
      → validate_crs req model crs ≡ ok p
      → IsAccepted req model p
  crs_ok (i, o) p hn h =
      let e : params_of req model i o ≡ p = ground arith in
      subst (IsAccepted req model) e
        (crs-IsAccepted i o hn (ground arith) (ground arith) (ground arith) (ground arith))

-- A request that is accepted names an AR, its frame IDs are in the range of cyclic data also when
-- the device chose one, the objects of both CRs lie in the CRs' data, and the model has the expected
-- submodules with the same identities and lengths.
pub validate-ok :
    (req : ConnectReq) (model : DeviceModel) (p : ArParams)
    → validate req model ≡ ok p
    → IsAccepted req model p
unfolding validate
validate-ok req model p h =
    let hv : (find_crs req.iocrs >>= validate_crs req model) ≡ ok p = ground arith in
    let (crs, e, h') = >>=-eq-ok (find_crs req.iocrs) (validate_crs req model) hv in
    crs_ok req model crs p (λ e. ground (arith, uuid_eq_refl nil_uuid)) h'
