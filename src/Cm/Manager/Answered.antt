-- ===== src/Cm/Manager/Answered.antt =====
-- The AR answers a request once, and before it places a call.
use pnio_rs.Prelude.{ℕ, arith, none, some, List, [], ◌∷◌, Result}
use pnio_rs.Prelude.{ok, err}
use pnio_rs.Cm.Status.{PnioStatus}
use pnio_rs.Cm.Connect.{ConnectReq, ArParams}
use pnio_rs.Cm.Connect.Validate.{validate}
use pnio_rs.Cm.Control.{ControlBlock}
use pnio_rs.Cm.Write.{WriteReq}
use pnio_rs.Cm.Ar.Types.{
  Ar, ArContext, Event, connect_req, write_req, prm_end_req, release_req, app_ready_rsp, tick,
  abort_req, Action, respond, call_controller, notify,
}
use pnio_rs.Cm.Ar.Ops.{
  Outcome, on, handle_connect, handle_write, handle_prm_end, handle_release, answer_connect,
  connect_idle, connect_in, aborted,
}
use pnio_rs.Cm.Ar.Invariant.{IsAr, is_idle, is_connected, is_sent, is_data}

abbrev pub NoAnswer : List Action → Type 0
NoAnswer [] = Unit
NoAnswer (respond status blocks ∷ rest) = ⊥
NoAnswer (notify state reason ∷ rest) = NoAnswer rest
NoAnswer (call_controller blocks ∷ rest) = NoAnswer rest

-- There is one answer, and no call before it.
abbrev pub Answered : List Action → Type 0
Answered [] = ⊥
Answered (respond status blocks ∷ rest) = NoAnswer rest
Answered (notify state reason ∷ rest) = Answered rest
Answered (call_controller blocks ∷ rest) = ⊥

abbrev pub Answers : Outcome → Type 0
Answers none = ⊥
Answers (some r) = Answered r.1

-- A request gets one answer.
write-Answered : (ar : Ar) (req : WriteReq) (now : ℕ) → IsAr ar → Answers (handle_write ar req now)
unfolding handle_write
write-Answered _ req now (is_idle model) = ground arith
write-Answered _ req now (is_connected model c d hc) = ground arith
write-Answered _ req now (is_sent model c a d hc h1 h3) = ground arith
write-Answered _ req now (is_data model c hc) = ground arith

release-Answered : (ar : Ar) (req : ControlBlock) → IsAr ar → Answers (handle_release ar req)
unfolding handle_release
release-Answered _ req (is_idle model) = ground arith
release-Answered _ req (is_connected model c d hc) = ground arith
release-Answered _ req (is_sent model c a d hc h1 h3) = ground arith
release-Answered _ req (is_data model c hc) = ground arith

prm_end-Answered :
    (ar : Ar) (req : ControlBlock) (now : ℕ) → IsAr ar → Answers (handle_prm_end ar req now)
unfolding handle_prm_end
prm_end-Answered _ req now (is_idle model) = ground arith
prm_end-Answered _ req now (is_connected model c d hc) = ground arith
prm_end-Answered _ req now (is_sent model c a d hc h1 h3) = ground arith
prm_end-Answered _ req now (is_data model c hc) = ground arith

answer-Answered :
    (ar : Ar) (v : Result PnioStatus ArParams) (now : ℕ) → Answered (answer_connect ar v now).1
answer-Answered ar (ok params) now = tt
answer-Answered ar (err status) now = tt

idle-Answered : (ar : Ar) (req : ConnectReq) (now : ℕ) → Answered (connect_idle ar req now).1
unfolding connect_idle
idle-Answered ar req now = answer-Answered ar (validate req ar.model) now

in-Answered :
    (ar : Ar) (c : ArContext) (req : ConnectReq) (now : ℕ) → Answered (connect_in ar c req now).1
in-Answered ar c req now = ground (arith, idle-Answered (aborted ar) req now)

connect-Answered :
    (ar : Ar) (req : ConnectReq) (now : ℕ) → IsAr ar → Answers (handle_connect ar req now)
unfolding handle_connect
connect-Answered _ req now (is_idle model) = idle-Answered _ req now
connect-Answered _ req now (is_connected model c d hc) = in-Answered _ c req now
connect-Answered _ req now (is_sent model c a d hc h1 h3) = in-Answered _ c req now
connect-Answered _ req now (is_data model c hc) = in-Answered _ c req now

-- The events that a request of the controller becomes.
abbrev pub IsRequest : Event → Type 0
IsRequest (connect_req req) = Unit
IsRequest (write_req req) = Unit
IsRequest (prm_end_req req) = Unit
IsRequest (release_req req) = Unit
IsRequest (app_ready_rsp status) = ⊥
IsRequest tick = ⊥
IsRequest (abort_req reason) = ⊥

pub on-Answered : (ar : Ar) (ev : Event) (now : ℕ) → IsAr ar → IsRequest ev → Answers (on ar ev now)
unfolding on
on-Answered ar (connect_req req) now h r = connect-Answered ar req now h
on-Answered ar (write_req req) now h r = write-Answered ar req now h
on-Answered ar (prm_end_req req) now h r = prm_end-Answered ar req now h
on-Answered ar (release_req req) now h r = release-Answered ar req h
on-Answered ar (app_ready_rsp status) now h r = absurd r
on-Answered ar tick now h r = absurd r
on-Answered ar (abort_req reason) now h r = absurd r
