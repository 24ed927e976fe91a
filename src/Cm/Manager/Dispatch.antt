-- ===== src/Cm/Manager/Dispatch.antt =====
-- What each request does to the manager: its actions can be carried out behind it.
use pnio_rs.Prelude.{ℕ, ◌≡◌, arith, refl, Bool, true, false, any, Option, none, some}
use pnio_rs.Prelude.{List, [], ◌∷◌, Bytes, Result, ok, err, ◌>>=◌, if◌then◌else◌}
use pnio_rs.Rpc.Errors.{unwrap}
use pnio_rs.Im.{ImStore, ImError}
use pnio_rs.Im.Laws.{IsStore, write-IsStore}
use pnio_rs.Im
use pnio_rs.Cm.Ar.Types.{Ar, Event, connect_req, write_req, prm_end_req, release_req, Action}
use pnio_rs.Cm.Ar.Invariant.{Keeps, on-IsAr}
use pnio_rs.Cm.Ar.Ops.{Outcome, on, handle_connect}
use pnio_rs.Cm.Connect.{ConnectReq}
use pnio_rs.Cm.Control.{CmError, ControlBlock}
use pnio_rs.Cm.Control
use pnio_rs.Cm.Write.{Record, WriteReq}
use pnio_rs.Cm.Model.{DeviceModel}
use pnio_rs.Cm.Records.{write_im_record, written}
use pnio_rs.Cm.Records.Fields.{ReadReq}
use pnio_rs.Rpc.Header.{Opnum, connect, release, read, write_op, control, read_implicit}
use pnio_rs.Cm.Manager.Types.{Cm, SocketAddr, pnio_udp_port}
use pnio_rs.Cm.Manager.Ops.{
  Acted, opens, accepts, stored, store_records, connect_parsed, write_parsed, control_parsed,
  release_parsed, read_parsed, handle_read, dispatch, on_connect, on_write, on_control, on_release,
  on_read, opened, feed,
}
use pnio_rs.Cm.Manager.Calls.{
  Known, Quiet, Quiet-Applicable, AppliesTo, ConnectSilent, connect-Silent, write-Silent,
  release-Silent, prm_end-AppliesTo, Silent-AppliesTo,
}
use pnio_rs.Cm.Manager.Ready.{IsBase, IsCm, Ready, StepsReady}

-- The AR takes an event; its outcome is `o`.
abbrev fed : Cm → Outcome → Acted
fed cm o = unwrap o >>= λ (r : Ar × List Action). ok (record cm { ar = r.0 }, r.1)

fed-StepsReady :
    (cm : Cm) (is_new : Bool) (o : Outcome)
    → IsBase cm
    → Keeps o
    → AppliesTo is_new cm.controller_addr cm.current_call_seq o
    → StepsReady is_new (fed cm o)
fed-StepsReady cm is_new none b k a = absurd k
fed-StepsReady cm is_new (some r) b k a =
    (record { ar_fits = k; im_fits = b.im_fits; cache_bound = b.cache_bound }, a)

pub feed-StepsReady :
    (cm : Cm) (is_new : Bool) (ev : Event) (now : ℕ)
    → IsCm cm
    → AppliesTo is_new cm.controller_addr cm.current_call_seq (on cm.ar ev now)
    → StepsReady is_new (feed cm ev now)
unfolding feed
feed-StepsReady cm is_new ev now h a =
    fed-StepsReady cm is_new (on cm.ar ev now) h.base (on-IsAr cm.ar ev now h.base.ar_fits) a

abbrev address : SocketAddr → SocketAddr
address from = record { ip = from.ip; port = pnio_udp_port }

opened-Ready :
    (r : Cm × List Action) (from : SocketAddr) (open_now : Bool)
    → IsBase r.0
    → Quiet r.1
    → (if open_now
        then Known r.0.ar.state (some (address from)) none
        else Known r.0.ar.state r.0.controller_addr r.0.current_call_seq)
    → Ready true (
        if open_now
        then (record r.0 { controller_addr = some (address from); current_call_seq = none }, r.1)
        else r)
opened-Ready r from true b q k = (
  record { ar_fits = b.ar_fits; im_fits = b.im_fits; cache_bound = b.cache_bound },
  Quiet-Applicable true r.0.ar.state r.0.ar.ctx (some (address from)) none r.1 q k,
)
opened-Ready r from false b q k = (b, Quiet-Applicable true r.0.ar.state r.0.ar.ctx _ _ r.1 q k)

fed_connect :
    (cm : Cm) (from : SocketAddr) (o : Outcome)
    → IsBase cm
    → Keeps o
    → ConnectSilent (address from) cm.controller_addr cm.current_call_seq o
    → StepsReady true (fed cm o >>= λ (r : Cm × List Action). ok (opened from r))
fed_connect cm from none b k a = absurd k
fed_connect cm from (some r) b k a =
    opened-Ready (record cm { ar = r.0 }, r.1) from (any opens r.1)
      (record { ar_fits = k; im_fits = b.im_fits; cache_bound = b.cache_bound }) a.0 a.1

connect-Ready :
    (cm : Cm) (parsed : Result CmError ConnectReq) (from : SocketAddr) (now : ℕ)
    → IsCm cm
    → StepsReady true
        (connect_parsed cm parsed now >>= λ (r : Cm × List Action). ok (opened from r))
unfolding feed on
connect-Ready cm (ok req) from now h =
    fed_connect cm from (handle_connect cm.ar req now) h.base
      (on-IsAr cm.ar (connect_req req) now h.base.ar_fits)
      (connect-Silent (address from) cm.controller_addr cm.current_call_seq cm.ar req now
        h.base.ar_fits h.known)
connect-Ready cm (err e) from now h = (h.base, h.known)

written-IsStore :
    (im : ImStore) (outcome : Result ImError ImStore)
    → IsStore im
    → ((im' : ImStore) → outcome ≡ ok im' → IsStore im')
    → IsStore (written im outcome).0
written-IsStore im (ok im') i k = k im' refl
written-IsStore im (err e) i k = i

write_im_record-IsStore :
    (r : Record) (model : DeviceModel) (im : ImStore)
    → IsStore im
    → IsStore (write_im_record r model im).0
unfolding write_im_record
write_im_record-IsStore r model im i = ground (
  arith,
  i,
  written-IsStore im (Im.write im r.index r.payload) i
      (λ im' e. write-IsStore im im' r.index r.payload i e),
)

store_records-IsStore :
    (model : DeviceModel) (rs : List Record) (im : ImStore)
    → IsStore im
    → IsStore (store_records model rs im)
unfolding store_records
store_records-IsStore model [] im i = i
store_records-IsStore model (r ∷ rs) im i =
    store_records-IsStore model rs _ (ground (arith, i, write_im_record-IsStore r model im i))

stored-Ready :
    (rs : List Record) (r : Cm × List Action) (accepted : Bool)
    → Ready true r
    → Ready true
        (if accepted then (record r.0 { im = store_records r.0.model rs r.0.im }, r.1) else r)
stored-Ready rs r true (b, a) = (
  record {
    ar_fits = b.ar_fits;
    im_fits = store_records-IsStore r.0.model rs r.0.im b.im_fits;
    cache_bound = b.cache_bound;
  },
  a,
)
stored-Ready rs r false h = h

fed_write :
    (rs : List Record) (m : Acted)
    → StepsReady true m
    → StepsReady true (m >>= λ (r : Cm × List Action). ok (stored rs r))
fed_write rs (ok r) h = stored-Ready rs r (any accepts r.1) h
fed_write rs (err e) h = h

write-Ready :
    (cm : Cm) (parsed : Result CmError WriteReq) (now : ℕ)
    → IsCm cm
    → StepsReady true (write_parsed cm parsed now)
write-Ready cm (ok req) now h = fed_write req.records (feed cm (write_req req) now) (
    feed-StepsReady cm true (write_req req) now h (
      unfold on in
      Silent-AppliesTo true cm.controller_addr cm.current_call_seq _
        (write-Silent cm.controller_addr cm.current_call_seq cm.ar req now h.base.ar_fits h.known)))
write-Ready cm (err e) now h = (h.base, h.known)

control-Ready :
    (cm : Cm) (parsed : Result CmError ControlBlock) (now : ℕ)
    → IsCm cm
    → StepsReady true (control_parsed cm parsed now)
control-Ready cm (ok cb) now h =
    let placed : StepsReady true (feed cm (prm_end_req cb) now) =
      feed-StepsReady cm true (prm_end_req cb) now h (
        unfold on in
        prm_end-AppliesTo cm.controller_addr cm.current_call_seq cm.ar cb now h.base.ar_fits
          h.known) in
    ground (arith, placed, h.base, h.known)
control-Ready cm (err e) now h = (h.base, h.known)

release-Ready :
    (cm : Cm) (parsed : Result CmError ControlBlock) (now : ℕ)
    → IsCm cm
    → StepsReady true (release_parsed cm parsed now)
release-Ready cm (ok cb) now h = feed-StepsReady cm true (release_req cb) now h (
    unfold on in
    Silent-AppliesTo true cm.controller_addr cm.current_call_seq _
      (release-Silent cm.controller_addr cm.current_call_seq cm.ar cb h.base.ar_fits h.known))
release-Ready cm (err e) now h = (h.base, h.known)

read-Ready :
    (cm : Cm) (parsed : Result CmError ReadReq) (check_ar : Bool)
    → IsCm cm
    → StepsReady true (ok (cm, read_parsed cm parsed check_ar))
unfolding handle_read
read-Ready cm (ok req) check_ar h = ground (arith, h.base, h.known)
read-Ready cm (err e) check_ar h = (h.base, h.known)

pub dispatch-Ready :
    (cm : Cm) (op : Option Opnum) (blocks : Bytes) (from : SocketAddr) (now : ℕ)
    → IsCm cm
    → StepsReady true (dispatch cm op blocks from now)
unfolding dispatch on_connect on_write on_control on_release on_read
dispatch-Ready cm (some connect) blocks from now h = connect-Ready cm _ from now h
dispatch-Ready cm (some write_op) blocks from now h = write-Ready cm _ now h
dispatch-Ready cm (some control) blocks from now h = control-Ready cm (Control.parse blocks) now h
dispatch-Ready cm (some release) blocks from now h = release-Ready cm _ now h
dispatch-Ready cm (some read) blocks from now h = read-Ready cm _ true h
dispatch-Ready cm (some read_implicit) blocks from now h = read-Ready cm _ false h
dispatch-Ready cm none blocks from now h = (h.base, h.known)
