-- ===== src/Cm/Ar/Transitions.antt =====
-- The AR's transitions, and what each reports.
use pnio_rs.Prelude.{◌≢◌, none, some}
use pnio_rs.Prelude.{List, [], ◌∷◌, Bytes}
use pnio_rs.Cm.Status.{PnioStatus, status_ok}
use pnio_rs.Cm.Abort.{AbortReason, controller_reconnect}
use pnio_rs.Cm.Control.{ControlBlock, prm_end_done, app_ready_req, release_done}
use pnio_rs.Cm.Control
use pnio_rs.Cm.Ar.Types.{
  ArState, idle, connected, app_ready_sent, in_data, Action, respond, call_controller, notify,
  ArContext, Ar,
}
use pnio_rs.Cm.Ar.Ops.{Outcome}

-- The state in front, the state behind and the actions of one event.
pub data Transition : ArState → ArState → List Action → Type 0 where
  silent : (s : ArState) → Transition s s []
  answer : (s : ArState) (status : PnioStatus) (b : Bytes) → Transition s s (respond status b ∷ [])
  call : (b : Bytes) → Transition app_ready_sent app_ready_sent (call_controller b ∷ [])
  connect :
      (b : Bytes) → Transition idle connected (respond status_ok b ∷ notify connected none ∷ [])
  prm_end :
      (b c : Bytes)
      → Transition connected app_ready_sent (respond status_ok b ∷ call_controller c ∷ [])
  ready : Transition app_ready_sent in_data (notify in_data none ∷ [])
  abort :
      (s : ArState) (reason : AbortReason)
      → s ≢ idle
      → Transition s idle (notify idle (some reason) ∷ [])
  release :
      (s : ArState) (b : Bytes) (reason : AbortReason)
      → s ≢ idle
      → Transition s idle (respond status_ok b ∷ notify idle (some reason) ∷ [])
  reconnect :
      (s t : ArState) (acts : List Action)
      → s ≢ idle
      → Transition idle t acts
      → Transition s t (notify idle (some controller_reconnect) ∷ acts)

abbrev pub Moves : ArState → Outcome → Type 0
Moves s none = ⊥
Moves s (some r) = Transition s r.0.state r.1

abbrev MovesTo : ArState → Ar × List Action → Type 0
MovesTo s r = Transition s r.0.state r.1

abbrev done_blocks : ControlBlock → Bytes
done_blocks req = Control.write (prm_end_done req)

abbrev released_blocks : ControlBlock → Bytes
released_blocks req = Control.write (release_done req)

abbrev call_blocks : ArContext → Bytes
call_blocks c = Control.write (app_ready_req c.params.ar_uuid c.params.session_key)
