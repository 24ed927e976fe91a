-- ===== src/Alarm/Channel/Retry.antt =====
-- An alarm that the controller never answers: the same frame is sent again `rta_retries` times, one
-- timeout after the other, and then the relationship is aborted.
use pnio_rs.Prelude.{ℕ, zero, suc, ◌+◌, ◌≤◌, ◌<◌, ◌≡◌, arith, List, [], ◌∷◌, ◌++◌, Bytes}
use pnio_rs.Prelude.{replicate, some, none, IsU16, ap, ◌∙◌}
use pnio_rs.Cm.Abort.{alarm_send_failed}
use pnio_rs.Alarm.Channel.Types.{AlarmReq, AlarmAction, send, abort, idle, sent_data, AlarmChannel}
use pnio_rs.Alarm.Channel.Ops.{on_tick, next_deadline, retry_or_abort}

-- The caller's loop, when no frame arrives: it sleeps until the deadline and ticks, `n` times.
abbrev tick_at : AlarmChannel → AlarmChannel × List AlarmAction
tick_at ch = elim (next_deadline ch) [ none ↦ (ch, []) | some d ↦ on_tick ch d ]

pub run_ticks : ℕ → AlarmChannel → AlarmChannel × List AlarmAction
run_ticks zero ch = (ch, [])
run_ticks (suc n) ch =
    let (ch', out) = tick_at ch in let (ch'', more) = run_ticks n ch' in (ch'', out ++ more)

retry_once :
    (ch : AlarmChannel) (req : AlarmReq) (seq : ℕ) (frame : Bytes) (d : ℕ)
    → ch.state ≡ sent_data req seq frame d
    → ch.attempt < ch.cfg.rta_retries
    → IsU16 ch.cfg.rta_retries
    → ((tick_at ch).0.state ≡ sent_data req seq frame (d + ch.cfg.rta_timeout))
      × ((tick_at ch).0.attempt ≡ ch.attempt + 1)
      × ((tick_at ch).0.cfg ≡ ch.cfg)
      × ((tick_at ch).1 ≡ send frame ∷ [])
unfolding next_deadline on_tick retry_or_abort
retry_once ch req seq frame d e h k = (ground arith, ground arith, ground arith, ground arith)

give_up :
    (ch : AlarmChannel) (req : AlarmReq) (seq : ℕ) (frame : Bytes) (d : ℕ)
    → ch.state ≡ sent_data req seq frame d
    → ch.cfg.rta_retries ≤ ch.attempt
    → ((tick_at ch).0.state ≡ idle)
      × ((tick_at ch).0.queue ≡ [])
      × ((tick_at ch).1 ≡ abort alarm_send_failed ∷ [])
unfolding next_deadline on_tick retry_or_abort
give_up ch req seq frame d e h = (ground arith, ground arith, ground arith)

-- With `n` attempts left, `n` ticks at the deadlines resend the frame unchanged `n` times, and one
-- more aborts the relationship and leaves the channel idle and empty.
pub run_ticks_lem :
    (n : ℕ) (ch : AlarmChannel) (req : AlarmReq) (seq : ℕ) (frame : Bytes) (d : ℕ)
    → ch.state ≡ sent_data req seq frame d
    → ch.attempt + n ≡ ch.cfg.rta_retries
    → IsU16 ch.cfg.rta_retries
    → ((run_ticks (suc n) ch).1 ≡ replicate n (send frame) ++ (abort alarm_send_failed ∷ []))
      × ((run_ticks (suc n) ch).0.state ≡ idle)
      × ((run_ticks (suc n) ch).0.queue ≡ [])
unfolding run_ticks
run_ticks_lem zero ch req seq frame d e h k =
    let (s, q, out) = give_up ch req seq frame d e (omega arith) in
    (ap (λ (o : List AlarmAction). o ++ []) out, s, q)
run_ticks_lem (suc n) ch req seq frame d e h k =
    let (s, a, c, out) = retry_once ch req seq frame d e (omega arith) k in
    let ch' : AlarmChannel = (tick_at ch).0 in
    let (outs, idles, empties) =
      run_ticks_lem n ch' req seq frame (d + ch.cfg.rta_timeout) s (ground arith) (ground arith) in
    (
      ap (λ (o : List AlarmAction). o ++ (run_ticks (suc n) ch').1) out
          ∙ ap (◌∷◌ (send frame)) outs,
      idles,
      empties,
    )
