-- ===== src/Alarm/Channel/View.antt =====
-- The channel as a queue: the alarm in flight and those behind it, in order; and what a frame, a tick
-- and a request may do to it.
use pnio_rs.Prelude.{ℕ, ◌≤◌, ◌<◌, ◌≢◌, ◌≡◌, ◌⊎◌, List, [], ◌∷◌, ◌++◌, Bytes}
use pnio_rs.Cm.Status.{PnioStatus}
use pnio_rs.Cm.Abort.{AbortReason, controller_err_rta, alarm_send_failed}
use pnio_rs.Alarm.Pdu.{RtaPdu, data_body, alarm_ack, err_body, AlarmAck}
use pnio_rs.Alarm.Channel.Types.{
  AlarmReq, AlarmAction, send, abort, State, idle, sent_data, await_alarm_ack, AlarmChannel,
}
use pnio_rs.Alarm.Channel.Ops.{build_data_frame}
use pnio_rs.Alarm.Channel.Cases.{FromPeer}

abbrev pub flight : State → List AlarmReq
flight idle = []
flight (sent_data req seq frame deadline) = req ∷ []
flight (await_alarm_ack req deadline) = req ∷ []

-- What the abstract view keeps of a channel.
abbrev pub pending : AlarmChannel → List AlarmReq
pending ch = flight ch.state ++ ch.queue

-- What the caller learns about alarms; frames to send and odd frames are left out.
abbrev pub verdicts : List AlarmAction → List AlarmAction
verdicts [] = []
verdicts (send frame ∷ out) = verdicts out
verdicts (AlarmAction.unexpected_rx ∷ out) = verdicts out
verdicts (AlarmAction.acked id status ∷ out) = AlarmAction.acked id status ∷ verdicts out
verdicts (abort reason ∷ out) = abort reason ∷ verdicts out

abbrev pub Unchanged : AlarmChannel → AlarmChannel × List AlarmAction → Type 0
Unchanged ch r = (pending r.0 ≡ pending ch) × (verdicts r.1 ≡ [])

abbrev pub GivenUp : AbortReason → AlarmChannel × List AlarmAction → Type 0
GivenUp reason r = (pending r.0 ≡ []) × (verdicts r.1 ≡ abort reason ∷ [])

-- The frame is a DATA of the controller with a number that is not the last one's, and its content
-- acknowledges an alarm of this kind in this place with the status.
pub record Answers (ch : AlarmChannel) (frame : Bytes) (req : AlarmReq) (status : PnioStatus)
    : Type 0 where
  pub pdu : RtaPdu
  pub ack : AlarmAck
  pub from_peer : FromPeer ch frame pdu
  pub content : pdu.body ≡ data_body (alarm_ack ack)
  pub new_number : pdu.header.send_seq ≢ ch.last_rx_seq
  pub same_type : req.notification.alarm_type ≡ ack.alarm_type
  pub same_slot : req.notification.slot ≡ ack.slot
  pub same_subslot : req.notification.subslot ≡ ack.subslot
  pub same_status : status ≡ ack.status

-- The alarm at the front was in flight and is acknowledged, with the status of the frame.
abbrev pub Acked : AlarmChannel → Bytes → AlarmChannel × List AlarmAction → Type 0
Acked ch frame r =
    (req : AlarmReq) × (status : PnioStatus) × Answers ch frame req status
    × (flight ch.state ≡ req ∷ [])
    × (pending ch ≡ req ∷ pending r.0)
    × (verdicts r.1 ≡ AlarmAction.acked req.id status ∷ [])

-- The frame is an ERR-RTA of the controller, whose status the abort carries.
abbrev pub Refused : AlarmChannel → Bytes → AlarmChannel × List AlarmAction → Type 0
Refused ch frame r =
    (pdu : RtaPdu) × (status : PnioStatus) × FromPeer ch frame pdu
    × (pdu.body ≡ err_body status)
    × GivenUp (controller_err_rta status) r

-- The frame acknowledges the alarm in flight.
abbrev pub Confirms : AlarmChannel → Bytes → Type 0
Confirms ch frame =
    (req : AlarmReq) × (status : PnioStatus) × Answers ch frame req status
    × (flight ch.state ≡ req ∷ [])

-- The frame ends the relationship.
abbrev pub Ends : AlarmChannel → Bytes → Type 0
Ends ch frame =
    (pdu : RtaPdu) × (status : PnioStatus) × FromPeer ch frame pdu × (pdu.body ≡ err_body status)

-- The frame is none of those that concern the alarm in flight, and no alarm is affected.
abbrev pub Passed : AlarmChannel → Bytes → AlarmChannel × List AlarmAction → Type 0
Passed ch frame r = Unchanged ch r × (¬ Confirms ch frame) × (¬ Ends ch frame)

-- What a frame does.
abbrev pub Received : AlarmChannel → Bytes → AlarmChannel × List AlarmAction → Type 0
Received ch frame r = Passed ch frame r ⊎ Acked ch frame r ⊎ Refused ch frame r

-- Nothing is due: no alarm is in flight, or its deadline is ahead.
abbrev pub NotDue : State → ℕ → Type 0
NotDue idle now = Unit
NotDue (sent_data req seq frame deadline) now = now < deadline
NotDue (await_alarm_ack req deadline) now = now < deadline

abbrev pub Waits : AlarmChannel → ℕ → AlarmChannel × List AlarmAction → Type 0
Waits ch now r = NotDue ch.state now × (r ≡ (ch, []))

-- The frame in flight was not confirmed in time, and is sent again.
abbrev pub Resent : AlarmChannel → ℕ → AlarmChannel × List AlarmAction → Type 0
Resent ch now r =
    (req : AlarmReq) × (seq : ℕ) × (frame : Bytes) × (deadline : ℕ) × (ch.state
      ≡ sent_data req seq frame deadline)
    × (deadline ≤ now)
    × (ch.attempt < ch.cfg.rta_retries)
    × (pending r.0 ≡ pending ch)
    × (r.1 ≡ send frame ∷ [])

-- The alarm at the front was delivered, its answer did not come in time, and it leaves the queue
-- with no verdict.
abbrev pub Dropped : AlarmChannel → ℕ → AlarmChannel × List AlarmAction → Type 0
Dropped ch now r =
    (req : AlarmReq) × (deadline : ℕ) × (ch.state ≡ await_alarm_ack req deadline)
    × (deadline ≤ now)
    × (pending ch ≡ req ∷ pending r.0)
    × (verdicts r.1 ≡ [])

-- The frame in flight was not confirmed in time, and no resend is left.
abbrev pub Failed : AlarmChannel → ℕ → AlarmChannel × List AlarmAction → Type 0
Failed ch now r =
    (req : AlarmReq) × (seq : ℕ) × (frame : Bytes) × (deadline : ℕ) × (ch.state
      ≡ sent_data req seq frame deadline)
    × (deadline ≤ now)
    × (ch.cfg.rta_retries ≤ ch.attempt)
    × GivenUp alarm_send_failed r

-- What a tick does.
abbrev pub Ticked : AlarmChannel → ℕ → AlarmChannel × List AlarmAction → Type 0
Ticked ch now r = Waits ch now r ⊎ Resent ch now r ⊎ Dropped ch now r ⊎ Failed ch now r

-- What is due is sent: from an idle channel the frame of the alarm at the front, which is in flight
-- then; and nothing while an alarm is in flight.
abbrev pub Launched : AlarmChannel → List AlarmReq → AlarmChannel × List AlarmAction → Type 0
Launched ch due r =
    ((ch.state ≡ idle)
      × (front : AlarmReq) × (rest : List AlarmReq) × (due ≡ front ∷ rest)
      × (flight r.0.state ≡ front ∷ [])
      × (r.0.queue ≡ rest)
      × (r.1 ≡ send (build_data_frame ch.cfg front ch.next_send_seq ch.last_rx_seq) ∷ []))
    ⊎ ((ch.state ≢ idle) × (r.0.state ≡ ch.state) × (r.0.queue ≡ due) × (r.1 ≡ []))
