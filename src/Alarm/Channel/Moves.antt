-- ===== src/Alarm/Channel/Moves.antt =====
-- What a frame does to the queue of pending alarms: each kind of content of `AlarmChannel::on_frame`.
use pnio_rs.Prelude.{ℕ, ◌≢◌, ◌≡◌, ◌⊎◌, inl, inr, refl, sym, ap, ◌∙◌, arith, true, false, Bool}
use pnio_rs.Prelude.{List, [], ◌∷◌, Bytes, Result, ok, err, bump, ◌==◌, if◌then◌else◌}
use pnio_rs.Eth.Header
use pnio_rs.Cm.Status.{PnioStatus}
use pnio_rs.Cm.Abort.{controller_err_rta}
use pnio_rs.Alarm.Pdu.{
  RtaError, RtaData, notification, alarm_ack, unknown_block, RtaPdu, RtaBody, data_body, ack_body,
  nack_body, err_body, AlarmAck,
}
use pnio_rs.Alarm.Channel.Types.{
  AlarmReq, AlarmAction, send, abort, State, idle, sent_data, await_alarm_ack, AlarmChannel,
}
use pnio_rs.Alarm.Channel.Ops.{
  send_next, on_transport_ack, on_data, on_err_rta, on_frame, dispatch, from_peer, stray, answers,
  finish, settle, on_content,
}
use pnio_rs.Alarm.Channel.View.{flight, pending, verdicts, Unchanged, Answers, Acked, Refused}
use pnio_rs.Alarm.Channel.Cases.{FromPeer, on_frame_cases}
use pnio_rs.Alarm.Fields.Laws.{type_eq_refl, eq_of_type_eq}

pub send_next-pending : (ch : AlarmChannel) (now : ℕ) → Unchanged ch (send_next ch now)
unfolding send_next
send_next-pending ch now = (ground arith, ground arith)

on_transport_ack-pending :
    (ch : AlarmChannel) (n now : ℕ) → Unchanged ch (on_transport_ack ch n now)
unfolding on_transport_ack
on_transport_ack-pending ch n now = (ground arith, ground arith)

finished :
    (ch : AlarmChannel) (req : AlarmReq) (status : PnioStatus) (now : ℕ)
    → flight ch.state ≡ req ∷ []
    → (pending ch ≡ req ∷ pending (finish ch req status now).0)
      × (verdicts (finish ch req status now).1 ≡ AlarmAction.acked req.id status ∷ [])
finished ch req status now e =
    let stats = ch.stats in
    let (kept, quiet) =
      send_next-pending
        (record ch { state = idle; stats = record stats { acked = bump stats.acked } }) now in
    (rw e (ap (◌∷◌ req) (sym kept)), ap (◌∷◌ (AlarmAction.acked req.id status)) quiet)

-- What a frame may do to the queue.
abbrev pub Moved : AlarmChannel → Bytes → AlarmChannel × List AlarmAction → Type 0
Moved ch frame r = Unchanged ch r ⊎ Acked ch frame r ⊎ Refused ch frame r

module _ (ch : AlarmChannel) (frame : Bytes) (pdu : RtaPdu) (now : ℕ)
    (peer : FromPeer ch frame pdu) where
  answered-Moved :
      (b : Bool) (seq : ℕ) (req : AlarmReq) (a : AlarmAck)
      → answers req a ≡ b
      → pdu.header.send_seq ≢ ch.last_rx_seq
      → pdu.body ≡ data_body (alarm_ack a)
      → flight ch.state ≡ req ∷ []
      → Moved ch frame (
          let ch' = record ch { last_rx_seq = seq } in
          if b then finish ch' req a.status now else stray ch')
  answered-Moved true seq req a h new c e =
      let (kept, verdict) = finished (record ch { last_rx_seq = seq }) req a.status now e in
      let answer : Answers ch frame req a.status = record {
        pdu = pdu;
        ack = a;
        from_peer = peer;
        content = c;
        new_number = new;
        same_type = eq_of_type_eq req.notification.alarm_type a.alarm_type (ground arith);
        same_slot = ground arith;
        same_subslot = ground arith;
        same_status = refl;
      } in
      inr (inl (req, a.status, answer, e, kept, verdict))
  answered-Moved false seq req a h new c e = inl (refl, refl)

  settle-Moved :
      (s : State) (seq : ℕ) (a : AlarmAck)
      → pdu.header.send_seq ≢ ch.last_rx_seq
      → pdu.body ≡ data_body (alarm_ack a)
      → flight ch.state ≡ flight s
      → Moved ch frame (settle s (record ch { last_rx_seq = seq }) a now)
  settle-Moved idle seq a new c e = inl (refl, refl)
  settle-Moved (sent_data req n f deadline) seq a new c e =
      answered-Moved (answers req a) seq req a refl new c e
  settle-Moved (await_alarm_ack req deadline) seq a new c e =
      answered-Moved (answers req a) seq req a refl new c e

  content-Moved :
      (seq : ℕ) (d : RtaData)
      → pdu.header.send_seq ≢ ch.last_rx_seq
      → pdu.body ≡ data_body d
      → Moved ch frame (on_content (record ch { last_rx_seq = seq }) d now)
  content-Moved seq (alarm_ack a) new c = settle-Moved ch.state seq a new c refl
  content-Moved seq (notification n) new c = inl (refl, refl)
  content-Moved seq (unknown_block t body) new c = inl (refl, refl)

  data-Moved :
      (b : Bool) (d : RtaData) (ack : Bytes)
      → (pdu.header.send_seq == ch.last_rx_seq) ≡ b
      → pdu.body ≡ data_body d
      → Moved ch frame (
          if b
          then (ch, send ack ∷ [])
          else let (ch', out) =
              on_content (record ch { last_rx_seq = pdu.header.send_seq }) d now in
            (ch', send ack ∷ out))
  data-Moved true d ack e c = inl (refl, refl)
  data-Moved false d ack e c = content-Moved pdu.header.send_seq d (ground arith) c

  dispatch-Moved : (body : RtaBody) → pdu.body ≡ body → Moved ch frame (dispatch ch pdu body now)
  unfolding on_data on_err_rta
  dispatch-Moved ack_body e = inl (on_transport_ack-pending ch pdu.header.ack_seq now)
  dispatch-Moved (data_body d) e = data-Moved (pdu.header.send_seq == ch.last_rx_seq) d _ refl e
  dispatch-Moved (err_body s) e = inr (inr (pdu, s, peer, e, (refl, refl)))
  dispatch-Moved nack_body e = inl (refl, refl)

pub on_frame-Moved :
    (ch : AlarmChannel) (frame : Bytes) (now : ℕ) → Moved ch frame (on_frame ch frame now)
on_frame-Moved ch frame now =
    on_frame_cases (Moved ch frame) ch frame now (inl (refl, refl))
      (λ pdu p. dispatch-Moved ch frame pdu now p pdu.body refl)

dispatched :
    (ch : AlarmChannel) (frame : Bytes) (pdu : RtaPdu) (now : ℕ)
    → FromPeer ch frame pdu
    → on_frame ch frame now ≡ dispatch ch pdu pdu.body now
unfolding on_frame
dispatched ch frame pdu now p =
    ap
      (λ (r : Result RtaError RtaPdu). elim r [
        | ok pdu ↦ from_peer ch pdu (Header.parse frame) now
        | err e ↦ stray ch
      ])
      p.parsed
    ∙ ap (λ q. from_peer ch pdu q now) p.header
    ∙ ap (λ b. if b then dispatch ch pdu pdu.body now else stray ch) p.source

settle-acked :
    (s : State) (ch : AlarmChannel) (req : AlarmReq) (a : AlarmAck) (now : ℕ)
    → flight s ≡ req ∷ []
    → flight ch.state ≡ req ∷ []
    → answers req a ≡ true
    → verdicts (settle s ch a now).1 ≡ AlarmAction.acked req.id a.status ∷ []
settle-acked idle ch req a now e f agrees = absurd (ground arith)
settle-acked (sent_data r seq frame deadline) ch req a now e f agrees =
    let same : r ≡ req = ground arith in rw (same, agrees) (finished ch req a.status now f).1
settle-acked (await_alarm_ack r deadline) ch req a now e f agrees =
    let same : r ≡ req = ground arith in rw (same, agrees) (finished ch req a.status now f).1

pub confirms-verdicts :
    (ch : AlarmChannel) (frame : Bytes) (req : AlarmReq) (status : PnioStatus) (now : ℕ)
    → Answers ch frame req status
    → flight ch.state ≡ req ∷ []
    → verdicts (on_frame ch frame now).1 ≡ AlarmAction.acked req.id status ∷ []
unfolding on_data
confirms-verdicts ch frame req status now a e =
    let pdu = a.pdu in
    let new : (pdu.header.send_seq == ch.last_rx_seq) ≡ false = ground (arith, a.new_number) in
    let agrees : answers req a.ack ≡ true =
      rw (a.same_type, a.same_slot, a.same_subslot)
        (ground (arith, type_eq_refl a.ack.alarm_type)) in
    rw (dispatched ch frame pdu now a.from_peer, a.content, new, a.same_status)
      (settle-acked ch.state (record ch { last_rx_seq = pdu.header.send_seq }) req a.ack now e e
        agrees)

pub ends-verdicts :
    (ch : AlarmChannel) (frame : Bytes) (pdu : RtaPdu) (status : PnioStatus) (now : ℕ)
    → FromPeer ch frame pdu
    → pdu.body ≡ err_body status
    → verdicts (on_frame ch frame now).1 ≡ abort (controller_err_rta status) ∷ []
unfolding on_err_rta
ends-verdicts ch frame pdu status now p e = rw (dispatched ch frame pdu now p, e) refl
