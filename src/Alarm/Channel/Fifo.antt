-- ===== src/Alarm/Channel/Fifo.antt =====
-- A call adds at the end of the channel's queue, takes the front away with a verdict for it, or gives
-- all up with an abort; nothing else.
use pnio_rs.Prelude.{ℕ, ◌+◌, ◌≤◌, ◌<◌, subst, ◌≡◌, inl, inr, refl, sym, ap, arith, Bool-cases}
use pnio_rs.Prelude.{List, [], ◌∷◌, ◌++◌, append_assoc, Bytes, ok, ltb, bump, if◌then◌else◌}
use pnio_rs.Alarm.Pdu.{data_len}
use pnio_rs.Alarm.Channel.Types.{
  AlarmReq, AlarmAction, State, idle, sent_data, await_alarm_ack, AlarmChannel,
}
use pnio_rs.Alarm.Channel.Ops.{
  send_next, enqueue, on_frame, retry_or_abort, drop_unacknowledged, on_tick,
}
use pnio_rs.Alarm.Channel.View.{flight, pending, verdicts, Received, Ticked, Launched}
use pnio_rs.Alarm.Channel.Moves.{
  send_next-pending, on_frame-Moved, confirms-verdicts, ends-verdicts,
}

joined :
    (queue : List AlarmReq) (req : AlarmReq)
    → (front : AlarmReq) × (rest : List AlarmReq) × (queue ++ (req ∷ []) ≡ front ∷ rest)
joined [] req = (req, [], refl)
joined (q ∷ queue) req = (q, queue ++ (req ∷ []), refl)

launch :
    (ch : AlarmChannel) (s : State) (req : AlarmReq) (now : ℕ)
    → ch.state ≡ s
    → Launched ch
        (ch.queue ++ (req ∷ []))
        (send_next (record ch { queue = ch.queue ++ (req ∷ []) }) now)
unfolding send_next
launch ch idle req now e =
    let (front, rest, due) = joined ch.queue req in
    inl (e, front, rest, due, ground arith, ground arith, ground arith)
launch ch (sent_data r seq frame deadline) req now e =
    inr (ground arith, ground arith, ground arith, ground arith)
launch ch (await_alarm_ack r deadline) req now e =
    inr (ground arith, ground arith, ground arith, ground arith)

-- A request is accepted only when its block fits what was negotiated, and joins the end of the queue
-- of pending alarms with no verdict given. From an idle channel the frame of the alarm at the front
-- is sent, and that alarm is in flight; otherwise nothing is sent, and what is in flight stays.
pub enqueue-pending :
    (ch ch' : AlarmChannel) (req : AlarmReq) (now : ℕ) (out : List AlarmAction)
    → enqueue ch req now ≡ ok (ch', out)
    → (24 + data_len req.notification.user_data ≤ ch.cfg.max_alarm_data_length)
      × (pending ch' ≡ pending ch ++ (req ∷ []))
      × (verdicts out ≡ [])
      × Launched ch (ch.queue ++ (req ∷ [])) (ch', out)
unfolding enqueue
enqueue-pending ch ch' req now out e =
    let same : send_next (record ch { queue = ch.queue ++ (req ∷ []) }) now ≡ (ch', out) =
      ground arith in
    let (kept, quiet) = send_next-pending (record ch { queue = ch.queue ++ (req ∷ []) }) now in
    (
      ground arith,
      ground (arith, kept, append_assoc (flight ch.state) ch.queue (req ∷ [])),
      ground (arith, quiet),
      subst (Launched ch (ch.queue ++ (req ∷ []))) same (launch ch ch.state req now refl),
    )

-- A new DATA frame of the controller that acknowledges the kind and the place of the alarm in flight
-- takes that alarm out of the queue of pending alarms, with one verdict: its own id and the status of
-- the frame. An ERR-RTA of the controller empties the queue with one abort that carries the status of
-- the frame. Every other frame leaves the queue as it is and gives no verdict.
pub on_frame-Received :
    (ch : AlarmChannel) (frame : Bytes) (now : ℕ) → Received ch frame (on_frame ch frame now)
on_frame-Received ch frame now = elim (on_frame-Moved ch frame now) [
  | inl same ↦ inl (
    same,
    (λ (req, status, a, e).
        let told = confirms-verdicts ch frame req status now a e in
        absurd (ground (arith, same.1, told))),
    (λ (pdu, status, p, e).
        let told = ends-verdicts ch frame pdu status now p e in
        absurd (ground (arith, same.1, told))),
  )
  | inr moved ↦ inr moved
]

retry-Ticked :
    (ch : AlarmChannel) (req : AlarmReq) (seq : ℕ) (frame : Bytes) (deadline now : ℕ)
    → ch.state ≡ sent_data req seq frame deadline
    → deadline ≤ now
    → Ticked ch now (retry_or_abort ch req seq frame now)
unfolding retry_or_abort
retry-Ticked ch req seq frame deadline now e due =
    elim (Bool-cases (ltb ch.attempt ch.cfg.rta_retries)) [
      | inl more ↦
          inr (inl (req, seq, frame, deadline, e, due, ground arith, ground arith, ground arith))
      | inr none_left ↦ inr (
          inr (inr (req, seq, frame, deadline, e, due, ground arith, (ground arith, ground arith))))
    ]

drop-Ticked :
    (ch : AlarmChannel) (req : AlarmReq) (deadline now : ℕ)
    → ch.state ≡ await_alarm_ack req deadline
    → deadline ≤ now
    → Ticked ch now (drop_unacknowledged ch now)
unfolding drop_unacknowledged
drop-Ticked ch req deadline now e due =
    let stats = ch.stats in
    let (kept, quiet) =
      send_next-pending
        (record ch {
          state = idle;
          stats = record stats { ack_timeouts = bump stats.ack_timeouts };
        })
        now in
    inr (inr (inl (req, deadline, e, due, rw e (ap (◌∷◌ req) (sym kept)), quiet)))

state-Ticked :
    (ch : AlarmChannel) (now : ℕ) (s : State)
    → ch.state ≡ s
    → Ticked ch now (elim s [
      | idle ↦ (ch, [])
      | sent_data req seq frame deadline ↦
          if ltb now deadline then (ch, []) else retry_or_abort ch req seq frame now
      | await_alarm_ack req deadline ↦
          if ltb now deadline then (ch, []) else drop_unacknowledged ch now
    ])
state-Ticked ch now idle e = inl (rw e tt, refl)
state-Ticked ch now (sent_data req seq frame deadline) e = elim (Bool-cases (ltb now deadline)) [
  | inl ahead ↦ let wait : now < deadline = ground arith in rw ahead (inl (rw e wait, refl))
  | inr due ↦ rw due (retry-Ticked ch req seq frame deadline now e (ground arith))
]
state-Ticked ch now (await_alarm_ack req deadline) e = elim (Bool-cases (ltb now deadline)) [
  | inl ahead ↦ let wait : now < deadline = ground arith in rw ahead (inl (rw e wait, refl))
  | inr due ↦ rw due (drop-Ticked ch req deadline now e (ground arith))
]

-- A tick changes nothing and does nothing while no deadline has passed; it sends the frame in flight
-- again when that was not confirmed in time and resends are left, with the queue as it is, and gives
-- all up with one abort for a failed send when none is left; and an alarm that was delivered but not
-- acknowledged in time leaves the queue with no verdict.
pub on_tick-Ticked : (ch : AlarmChannel) (now : ℕ) → Ticked ch now (on_tick ch now)
unfolding on_tick
on_tick-Ticked ch now = state-Ticked ch now ch.state refl
