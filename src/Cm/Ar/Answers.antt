-- ===== src/Cm/Ar/Answers.antt =====
-- What the controller's requests do to the AR: retransmitted Connects, writes, and the way to cyclic
-- data.
use pnio_rs.Prelude.{ℕ, ◌≡◌, arith, refl, Bool, true, false, Option, none, some}
use pnio_rs.Prelude.{List, [], ◌∷◌, ◌++◌, ◌||◌, subst, any, Bytes, ok}
use pnio_rs.Rpc.Uuid.{uuid_eq_refl}
use pnio_rs.Cm.Status.{status_ok}
use pnio_rs.Cm.Model.{DeviceModel}
use pnio_rs.Cm.Connect.{ConnectReq, ArParams}
use pnio_rs.Cm.Connect.Validate.{validate}
use pnio_rs.Cm.Connect.Respond.{build_connect_res}
use pnio_rs.Cm.Connect.Accepted.{IsAccepted, validate-ok}
use pnio_rs.Cm.Control.{ControlBlock}
use pnio_rs.Cm.Ar.Types.{
  connected, in_data, Event, connect_req, write_req, prm_end_req, app_ready_rsp, release_req, tick,
  abort_req, Action, respond, call_controller, notify, ArContext, Ar, new,
}
use pnio_rs.Cm.Ar.Ops.{
  Outcome, on, handle_connect, handle_write, handle_prm_end, handle_app_ready_rsp, connect_idle,
  handle_release, handle_tick, handle_abort, established, prm_end_answer, ready_call,
}
use pnio_rs.Cm.Ar.Sequence.{and_then, and_then-eq-some}
use pnio_rs.Cm.Ar.Invariant.{IsAr, Keeps, on-IsAr, is_idle, is_connected, is_sent, is_data}

-- The events of a list, one after the other, each with its time: the AR behind them and all the
-- actions.
unfoldable pub run : Ar → List (Event × ℕ) → Outcome
run ar [] = some (ar, [])
run ar ((ev, now) ∷ evs) = and_then (on ar ev now) (λ ar'. run ar' evs)

-- The context of an AR that the parameters `p` established at `t`.
abbrev pub context_of : DeviceModel → ArParams → ℕ → ArContext
context_of model p t = record {
  params = p;
  records = [];
  connected_at = t;
  connect_res = build_connect_res p model;
}

-- A request that the model accepts, a PrmEnd for the same AR and a positive answer to the
-- ApplicationReady take a fresh AR to cyclic data with the accepted parameters, with these responses,
-- this call and these notifications, whatever the times are.
pub handshake :
    (model : DeviceModel) (req : ConnectReq) (p : ArParams) (ctl : ControlBlock) (t t' t'' : ℕ)
    → validate req model ≡ ok p
    → ctl.ar_uuid ≡ p.ar_uuid
    → run
        (new model)
        ((connect_req req, t) ∷ (prm_end_req ctl, t') ∷ (app_ready_rsp status_ok, t'') ∷ [])
      ≡ some (
        record {
          model = model;
          state = in_data;
          ctx = some (context_of model p t);
          app_ready_attempts = 0;
          app_ready_deadline = none;
          activity_deadline = none;
        },
        respond status_ok (build_connect_res p model)
            ∷ notify connected none
            ∷ prm_end_answer ctl
            ∷ ready_call (context_of model p t)
            ∷ notify in_data none
            ∷ [],
      )
unfolding run on handle_connect connect_idle handle_prm_end handle_app_ready_rsp
handshake model req p ctl t t' t'' h e = ground (arith, uuid_eq_refl p.ar_uuid)

-- The parameters and the cached response of the AR that is established.
abbrev pub session_of : Ar → Option (ArParams × Bytes)
session_of ar = elim ar.ctx [ none ↦ none | some c ↦ some (c.params, c.connect_res) ]

abbrev pub is_abort : Action → Bool
is_abort (respond status b) = false
is_abort (call_controller b) = false
is_abort (notify s none) = false
is_abort (notify s (some reason)) = true

-- An event that reports no abort leaves an established AR its parameters and its response.
on_session :
    (ar ar' : Ar) (acts : List Action) (ev : Event) (now : ℕ) (s : ArParams × Bytes)
    → IsAr ar
    → session_of ar ≡ some s
    → on ar ev now ≡ some (ar', acts)
    → any is_abort acts ≡ false
    → session_of ar' ≡ some s
unfolding on handle_connect handle_write handle_prm_end handle_release handle_app_ready_rsp
    handle_tick handle_abort
on_session _ ar' acts (connect_req req) now s (is_idle model) hs ho ha = ground arith
on_session _ ar' acts (connect_req req) now s (is_connected model c d hc) hs ho ha = ground arith
on_session _ ar' acts (connect_req req) now s (is_sent model c a d hc h1 h3) hs ho ha = ground arith
on_session _ ar' acts (connect_req req) now s (is_data model c hc) hs ho ha = ground arith
on_session ar ar' acts (write_req req) now s h hs ho ha = ground arith
on_session ar ar' acts (prm_end_req req) now s h hs ho ha = ground arith
on_session ar ar' acts (release_req req) now s h hs ho ha = ground arith
on_session ar ar' acts (app_ready_rsp status) now s h hs ho ha = ground arith
on_session ar ar' acts tick now s h hs ho ha = ground arith
on_session ar ar' acts (abort_req reason) now s h hs ho ha = ground arith

any-append : (xs ys : List Action) → any is_abort (xs ++ ys) ≡ any is_abort xs || any is_abort ys
any-append [] ys = refl
any-append (x ∷ xs) ys = ground (arith, any-append xs ys)

run_session :
    (evs : List (Event × ℕ)) (ar ar' : Ar) (acts : List Action) (s : ArParams × Bytes)
    → IsAr ar
    → session_of ar ≡ some s
    → run ar evs ≡ some (ar', acts)
    → any is_abort acts ≡ false
    → IsAr ar' × (session_of ar' ≡ some s)
unfolding run
run_session [] ar ar' acts s h hs hr ha = (subst (λ (o : Outcome). Keeps o) hr h, ground arith)
run_session ((ev, now) ∷ evs) ar ar' acts s h hs hr ha =
    let (r, more, eo, er, ea) = and_then-eq-some (on ar ev now) (λ ar1. run ar1 evs) ar' acts hr in
    let ha1 : any is_abort r.1 ≡ false = ground (arith, any-append r.1 more) in
    let ha2 : any is_abort more ≡ false = ground (arith, any-append r.1 more) in
    run_session evs r.0 ar' more s (subst (λ (o : Outcome). Keeps o) eo (on-IsAr ar ev now h))
      (on_session ar r.0 r.1 ev now s h hs eo ha1) er ha2

resent :
    (ar : Ar) (req : ConnectReq) (p : ArParams) (b : Bytes) (now : ℕ)
    → IsAr ar
    → session_of ar ≡ some (p, b)
    → p.ar_uuid ≡ req.ar.ar_uuid
    → p.session_key ≡ req.ar.session_key
    → on ar (connect_req req) now ≡ some (ar, respond status_ok b ∷ [])
unfolding on handle_connect
resent _ req p b now (is_idle model) hs e e' = absurd (ground arith)
resent _ req p b now (is_connected model c d hc) hs e e' = ground (arith, uuid_eq_refl p.ar_uuid)
resent _ req p b now (is_sent model c a d hc h1 h3) hs e e' = ground (arith, uuid_eq_refl p.ar_uuid)
resent _ req p b now (is_data model c hc) hs e e' = ground (arith, uuid_eq_refl p.ar_uuid)

pub established-IsAr :
    (model : DeviceModel) (req : ConnectReq) (p : ArParams) (t : ℕ)
    → validate req model ≡ ok p
    → IsAr (established (new model) p t)
established-IsAr model req p t h = is_connected model (context_of model p t) _ (record {
  request = req;
  accepted = h;
  cached = refl;
  record_count = omega arith;
  record_bytes = omega arith;
  own_records = tt;
})

-- A Connect that is sent again is answered with the same bytes and leaves the AR alone, whatever
-- events came after the first one, as long as none of them aborted the AR.
pub connect_again :
    (model : DeviceModel) (req : ConnectReq) (p : ArParams) (t t' : ℕ) (evs : List (Event × ℕ))
    (ar : Ar) (acts : List Action)
    → validate req model ≡ ok p
    → run (established (new model) p t) evs ≡ some (ar, acts)
    → any is_abort acts ≡ false
    → on ar (connect_req req) t' ≡ some (ar, respond status_ok (build_connect_res p model) ∷ [])
connect_again model req p t t' evs ar acts h hr ha =
    let a : IsAccepted req model p = validate-ok req model p h in
    let (ok_ar, s) =
      run_session evs (established (new model) p t) ar acts (p, build_connect_res p model)
        (established-IsAr model req p t h) refl hr ha in
    resent ar req p (build_connect_res p model) t' ok_ar s a.same_uuid a.same_session
