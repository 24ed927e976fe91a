-- ===== src/Cm/Manager/Once.antt =====
-- Every request is answered once, whatever it is.
use pnio_rs.Prelude.{ℕ, ◌≡◌, arith, refl, sym, subst, ◌∙◌, Bool, true, false, Option, none}
use pnio_rs.Prelude.{some, List, Bytes, Result, ok, err, ◌>>=◌}
use pnio_rs.Rpc.Errors.{unwrap}
use pnio_rs.Rpc.Header.{Opnum, connect, release, read, write_op, control, read_implicit}
use pnio_rs.Cm.Connect.{ConnectReq}
use pnio_rs.Cm.Control.{CmError, ControlBlock}
use pnio_rs.Cm.Control
use pnio_rs.Cm.Write
use pnio_rs.Cm.Records
use pnio_rs.Cm.Write.{Record, WriteReq}
use pnio_rs.Cm.Records.Fields.{ReadReq}
use pnio_rs.Cm.Ar.Types.{Ar, Event, connect_req, write_req, prm_end_req, release_req, Action}
use pnio_rs.Cm.Ar.Ops.{Outcome, on}
use pnio_rs.Cm.Manager.Types.{Cm, SocketAddr}
use pnio_rs.Cm.Manager.Ops.{
  Acted, feed, opened, stored, connect_parsed, write_parsed, control_parsed, release_parsed,
  read_parsed, handle_read, on_connect, on_write, on_control, on_release, on_read, dispatch,
}
use pnio_rs.Cm.Manager.Answered.{Answered, Answers, on-Answered}
use pnio_rs.Cm.Manager.Ready.{IsCm}

-- A step answers its request, and leaves the cache alone.
abbrev pub AnsweredBy : Cm → Acted → Type 0
AnsweredBy cm (ok r) = Answered r.1 × (r.0.cache ≡ cm.cache)
AnsweredBy cm (err e) = Unit

abbrev fed : Cm → Outcome → Acted
fed cm o = unwrap o >>= λ (r : Ar × List Action). ok (record cm { ar = r.0 }, r.1)

fed-AnsweredBy : (cm : Cm) (o : Outcome) → Answers o → AnsweredBy cm (fed cm o)
fed-AnsweredBy cm none a = tt
fed-AnsweredBy cm (some r) a = (a, refl)

feed-AnsweredBy :
    (cm : Cm) (ev : Event) (now : ℕ)
    → IsCm cm
    → Answers (on cm.ar ev now)
    → AnsweredBy cm (feed cm ev now)
unfolding feed
feed-AnsweredBy cm ev now h a = fed-AnsweredBy cm (on cm.ar ev now) a

-- What follows a step and changes neither the actions nor the cache.
then-AnsweredBy :
    (cm : Cm) (m : Acted) (f : Cm × List Action → Cm × List Action)
    → ((r : Cm × List Action) → ((f r).1 ≡ r.1) × ((f r).0.cache ≡ r.0.cache))
    → AnsweredBy cm m
    → AnsweredBy cm (m >>= λ (r : Cm × List Action). ok (f r))
then-AnsweredBy cm (ok r) f k (a, c) = (subst Answered (sym (k r).0) a, (k r).1 ∙ c)
then-AnsweredBy cm (err e) f k a = tt

opened_lem :
    (from : SocketAddr) (r : Cm × List Action)
    → ((opened from r).1 ≡ r.1) × ((opened from r).0.cache ≡ r.0.cache)
opened_lem from r = ground arith

stored_lem :
    (rs : List Record) (r : Cm × List Action)
    → ((stored rs r).1 ≡ r.1) × ((stored rs r).0.cache ≡ r.0.cache)
stored_lem rs r = ground arith

connect-AnsweredBy :
    (cm : Cm) (parsed : Result CmError ConnectReq) (now : ℕ)
    → IsCm cm
    → AnsweredBy cm (connect_parsed cm parsed now)
connect-AnsweredBy cm (ok req) now h =
    feed-AnsweredBy cm (connect_req req) now h
      (on-Answered cm.ar (connect_req req) now h.base.ar_fits tt)
connect-AnsweredBy cm (err e) now h = (tt, refl)

write-AnsweredBy :
    (cm : Cm) (parsed : Result CmError WriteReq) (now : ℕ)
    → IsCm cm
    → AnsweredBy cm (write_parsed cm parsed now)
write-AnsweredBy cm (ok req) now h =
    then-AnsweredBy cm (feed cm (write_req req) now) (stored req.records) (stored_lem req.records) (
      feed-AnsweredBy cm (write_req req) now h
        (on-Answered cm.ar (write_req req) now h.base.ar_fits tt))
write-AnsweredBy cm (err e) now h = (tt, refl)

control-AnsweredBy :
    (cm : Cm) (parsed : Result CmError ControlBlock) (now : ℕ)
    → IsCm cm
    → AnsweredBy cm (control_parsed cm parsed now)
control-AnsweredBy cm (ok cb) now h =
    let placed : AnsweredBy cm (feed cm (prm_end_req cb) now) =
      feed-AnsweredBy cm (prm_end_req cb) now h
        (on-Answered cm.ar (prm_end_req cb) now h.base.ar_fits tt) in
    ground (arith, placed)
control-AnsweredBy cm (err e) now h = (tt, refl)

release-AnsweredBy :
    (cm : Cm) (parsed : Result CmError ControlBlock) (now : ℕ)
    → IsCm cm
    → AnsweredBy cm (release_parsed cm parsed now)
release-AnsweredBy cm (ok cb) now h =
    feed-AnsweredBy cm (release_req cb) now h
      (on-Answered cm.ar (release_req cb) now h.base.ar_fits tt)
release-AnsweredBy cm (err e) now h = (tt, refl)

read-Answered :
    (cm : Cm) (parsed : Result CmError ReadReq) (check_ar : Bool)
    → Answered (read_parsed cm parsed check_ar)
unfolding handle_read
read-Answered cm (ok req) check_ar = ground arith
read-Answered cm (err e) check_ar = tt

pub dispatch-AnsweredBy :
    (cm : Cm) (op : Option Opnum) (blocks : Bytes) (from : SocketAddr) (now : ℕ)
    → IsCm cm
    → AnsweredBy cm (dispatch cm op blocks from now)
unfolding dispatch on_connect on_write on_control on_release on_read
dispatch-AnsweredBy cm (some connect) blocks from now h =
    then-AnsweredBy cm _ (opened from) (opened_lem from) (connect-AnsweredBy cm _ now h)
dispatch-AnsweredBy cm (some write_op) blocks from now h =
    write-AnsweredBy cm (Write.parse blocks) now h
dispatch-AnsweredBy cm (some control) blocks from now h =
    control-AnsweredBy cm (Control.parse blocks) now h
dispatch-AnsweredBy cm (some release) blocks from now h =
    release-AnsweredBy cm (Control.parse blocks) now h
dispatch-AnsweredBy cm (some read) blocks from now h =
    (read-Answered cm (Records.parse blocks) true, refl)
dispatch-AnsweredBy cm (some read_implicit) blocks from now h =
    (read-Answered cm (Records.parse blocks) false, refl)
dispatch-AnsweredBy cm none blocks from now h = (tt, refl)
