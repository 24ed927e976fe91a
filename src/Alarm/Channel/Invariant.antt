-- ===== src/Alarm/Channel/Invariant.antt =====
-- What holds of an alarm channel between two calls: nothing waits behind an idle channel, the
-- resends stay within their limit, and the sequence numbers follow one another.
use pnio_rs.Prelude.{ℕ, ◌+◌, ◌≤◌, ◌<◌, ◌≡◌, ◌⊎◌, arith}
use pnio_rs.Prelude.{List, [], ◌∷◌, Bytes, All, All-append, ok, IsU16}
use pnio_rs.Cm.Status.{PnioStatus}
use pnio_rs.Alarm.Pdu.{
  RtaHeader, Priority, RtaData, RtaPdu, RtaBody, data_body, ack_body, nack_body, err_body, data_len,
  seq_init, seq_none,
}
use pnio_rs.Alarm.Channel.Types.{
  AlarmChannelConfig, AlarmReq, AlarmAction, State, idle, sent_data, await_alarm_ack, AlarmChannel,
  notification_fixed_len, new,
}
use pnio_rs.Alarm.Channel.Ops.{
  seq_after, send_next, enqueue, on_transport_ack, on_data, on_err_rta, on_frame, retry_or_abort,
  drop_unacknowledged, on_tick, dispatch,
}
use pnio_rs.Alarm.Channel.Cases.{on_frame_cases}

-- The alarm's block fits what the controller negotiated.
abbrev pub Fits : AlarmChannelConfig → AlarmReq → Type 0
Fits cfg req =
    notification_fixed_len + data_len req.notification.user_data ≤ cfg.max_alarm_data_length

abbrev pub FitsState : AlarmChannelConfig → State → Type 0
FitsState cfg idle = Unit
FitsState cfg (sent_data req seq frame deadline) = Fits cfg req
FitsState cfg (await_alarm_ack req deadline) = Fits cfg req

-- The number of the last DATA, and the next: 0xFFFE, 0xFFFF, 0, 1, …, 0x7FFF, 0, ….
abbrev pub Follows : ℕ → ℕ → Type 0
Follows last next =
    ((last ≡ seq_none) × (next ≡ seq_init))
    ⊎ ((next ≡ seq_after last) × (next < 32768) × ((last ≡ seq_init) ⊎ (last < 32768)))

pub record IsChannel (ch : AlarmChannel) : Type 0 where
  pub idle_empty : ch.state ≡ idle → ch.queue ≡ []
  pub flight_fits : FitsState ch.cfg ch.state
  pub queue_fits : All (Fits ch.cfg) ch.queue
  pub attempt_capped : ch.attempt ≤ ch.cfg.rta_retries
  pub retries_fit : IsU16 ch.cfg.rta_retries
  pub follows : Follows ch.last_sent_seq ch.next_send_seq

-- A channel that may be idle with alarms queued, as between the steps of one call.
pub record IsReady (ch : AlarmChannel) : Type 0 where
  pub flight_fits : FitsState ch.cfg ch.state
  pub queue_fits : All (Fits ch.cfg) ch.queue
  pub attempt_capped : ch.attempt ≤ ch.cfg.rta_retries
  pub retries_fit : IsU16 ch.cfg.rta_retries
  pub follows : Follows ch.last_sent_seq ch.next_send_seq

pub new-IsChannel : (cfg : AlarmChannelConfig) → IsU16 cfg.rta_retries → IsChannel (new cfg)
unfolding new
new-IsChannel cfg h = ground arith

pub send_next-IsChannel :
    (ch : AlarmChannel) (now : ℕ) → IsReady ch → IsChannel (send_next ch now).0
unfolding send_next
send_next-IsChannel ch now h = ground arith

on_transport_ack-IsChannel :
    (ch : AlarmChannel) (n now : ℕ) → IsChannel ch → IsChannel (on_transport_ack ch n now).0
unfolding on_transport_ack
on_transport_ack-IsChannel ch n now h = ground arith

on_err_rta-IsChannel :
    (ch : AlarmChannel) (s : PnioStatus) → IsChannel ch → IsChannel (on_err_rta ch s).0
unfolding on_err_rta
on_err_rta-IsChannel ch s h = ground arith

-- A tick, whenever it comes, keeps the channel's invariant.
pub on_tick-IsChannel : (ch : AlarmChannel) (now : ℕ) → IsChannel ch → IsChannel (on_tick ch now).0
unfolding on_tick retry_or_abort drop_unacknowledged send_next
on_tick-IsChannel ch now h = ground arith

-- A request that is accepted keeps the channel's invariant.
pub enqueue-IsChannel :
    (ch ch' : AlarmChannel) (req : AlarmReq) (now : ℕ) (out : List AlarmAction)
    → IsChannel ch
    → enqueue ch req now ≡ ok (ch', out)
    → IsChannel ch'
unfolding enqueue send_next
enqueue-IsChannel ch ch' req now out h e =
    ground (arith, All-append (Fits ch.cfg) ch.queue (req ∷ []))

on_data-IsChannel :
    (ch : AlarmChannel) (header : RtaHeader) (p : Priority) (content : RtaData) (now : ℕ)
    → IsChannel ch
    → IsChannel (on_data ch header p content now).0
unfolding on_data send_next
on_data-IsChannel ch header p content now h = ground arith

dispatch-IsChannel :
    (ch : AlarmChannel) (pdu : RtaPdu) (body : RtaBody) (now : ℕ)
    → IsChannel ch
    → IsChannel (dispatch ch pdu body now).0
dispatch-IsChannel ch pdu ack_body now h = on_transport_ack-IsChannel ch pdu.header.ack_seq now h
dispatch-IsChannel ch pdu (data_body d) now h = on_data-IsChannel ch pdu.header pdu.priority d now h
dispatch-IsChannel ch pdu (err_body s) now h = on_err_rta-IsChannel ch s h
dispatch-IsChannel ch pdu nack_body now h = ground arith

-- A frame, whatever its bytes are, keeps the channel's invariant: nothing waits behind an idle
-- channel, the alarms fit what was negotiated, the resends stay within their limit, and the
-- sequence numbers follow one another.
pub on_frame-IsChannel :
    (ch : AlarmChannel) (frame : Bytes) (now : ℕ)
    → IsChannel ch
    → IsChannel (on_frame ch frame now).0
on_frame-IsChannel ch frame now h =
    on_frame_cases (λ r. IsChannel r.0) ch frame now (ground arith)
      (λ pdu p. dispatch-IsChannel ch pdu pdu.body now h)
