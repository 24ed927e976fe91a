-- ===== src/Cm/Manager/Calls.antt =====
-- What each event makes the AR ask of the manager: when it places a call, and what the manager has
-- to know for it.
use pnio_rs.Prelude.{ℕ, arith, Bool, true, false, any, Option, none, some, List, [], ◌∷◌, Result}
use pnio_rs.Prelude.{ok, err, if◌then◌else◌}
use pnio_rs.Cm.Status.{PnioStatus}
use pnio_rs.Cm.Abort.{AbortReason}
use pnio_rs.Cm.Connect.{ConnectReq, ArParams}
use pnio_rs.Cm.Connect.Validate.{validate}
use pnio_rs.Cm.Control.{ControlBlock}
use pnio_rs.Cm.Write.{WriteReq}
use pnio_rs.Cm.Ar.Types.{
  Ar, ArContext, ArState, idle, connected, app_ready_sent, in_data, Action, respond,
  call_controller, notify,
}
use pnio_rs.Cm.Ar.Ops.{
  Outcome, handle_connect, handle_write, handle_prm_end, handle_release, handle_app_ready_rsp,
  handle_tick, handle_abort, answer_connect, connect_idle, connect_in, reconnect, ready_call,
  aborted,
}
use pnio_rs.Cm.Ar.Invariant.{IsAr, is_idle, is_connected, is_sent, is_data}
use pnio_rs.Cm.Manager.Types.{SocketAddr}
use pnio_rs.Cm.Manager.Ops.{opens}

abbrev pub IsSome {ℓ} : {A : Type ℓ} → Option A → Type 0
IsSome none = ⊥
IsSome (some a) = Unit

-- What the manager knows in each state of its AR: the controller's address with an AR, and the
-- number of the call that is not answered yet.
abbrev pub Known : ArState → Option SocketAddr → Option ℕ → Type 0
Known idle addr seq = Unit
Known connected addr seq = IsSome addr
Known app_ready_sent addr seq = IsSome addr × IsSome seq
Known in_data addr seq = IsSome addr

-- No call is placed.
abbrev pub Quiet : List Action → Type 0
Quiet [] = Unit
Quiet (respond status blocks ∷ rest) = Quiet rest
Quiet (notify state reason ∷ rest) = Quiet rest
Quiet (call_controller blocks ∷ rest) = ⊥

-- The actions can be carried out one after the other, and what is known then fits the state.
abbrev CanCall : Bool → Option ℕ → Type 0
CanCall true seq = Unit
CanCall false seq = IsSome seq

abbrev called : Bool → Option ℕ → ℕ → Option ℕ
called true seq n = some n
called false seq n = seq

abbrev pub Applicable :
    Bool → ArState → Option ArContext → Option SocketAddr → Option ℕ → List Action → Type 0
Applicable is_new s c addr seq [] = Known s addr seq
Applicable is_new s c addr seq (respond status blocks ∷ rest) = Applicable is_new s c addr seq rest
Applicable is_new s c addr seq (notify state reason ∷ rest) = Applicable is_new s c addr seq rest
Applicable is_new s c addr seq (call_controller blocks ∷ rest) =
    IsSome addr
    × IsSome c
    × CanCall is_new seq
    × ((n : ℕ) → Applicable is_new s c addr (called is_new seq n) rest)

pub Quiet-Applicable :
    (is_new : Bool) (s : ArState) (c : Option ArContext) (addr : Option SocketAddr) (seq : Option ℕ)
    (acts : List Action)
    → Quiet acts
    → Known s addr seq
    → Applicable is_new s c addr seq acts
Quiet-Applicable is_new s c addr seq [] q k = k
Quiet-Applicable is_new s c addr seq (respond status blocks ∷ rest) q k =
    Quiet-Applicable is_new s c addr seq rest q k
Quiet-Applicable is_new s c addr seq (notify state reason ∷ rest) q k =
    Quiet-Applicable is_new s c addr seq rest q k
Quiet-Applicable is_new s c addr seq (call_controller blocks ∷ rest) q k = absurd q

-- An event that places no call, and leaves the manager knowing what the state asks for.
abbrev pub Silent : Option SocketAddr → Option ℕ → Outcome → Type 0
Silent addr seq none = ⊥
Silent addr seq (some r) = Quiet r.1 × Known r.0.state addr seq

module _ (addr : Option SocketAddr) (seq : Option ℕ) where
  pub write-Silent :
      (ar : Ar) (req : WriteReq) (now : ℕ)
      → IsAr ar
      → Known ar.state addr seq
      → Silent addr seq (handle_write ar req now)
  unfolding handle_write
  write-Silent _ req now (is_idle model) k = ground arith
  write-Silent _ req now (is_connected model c d hc) k = ground arith
  write-Silent _ req now (is_sent model c a d hc h1 h3) k = ground arith
  write-Silent _ req now (is_data model c hc) k = ground arith

  pub release-Silent :
      (ar : Ar) (req : ControlBlock)
      → IsAr ar
      → Known ar.state addr seq
      → Silent addr seq (handle_release ar req)
  unfolding handle_release
  release-Silent _ req (is_idle model) k = ground arith
  release-Silent _ req (is_connected model c d hc) k = ground arith
  release-Silent _ req (is_sent model c a d hc h1 h3) k = ground arith
  release-Silent _ req (is_data model c hc) k = ground arith

  pub app_ready_rsp-Silent :
      (ar : Ar) (status : PnioStatus)
      → IsAr ar
      → Known ar.state addr seq
      → Silent addr seq (some (handle_app_ready_rsp ar status))
  unfolding handle_app_ready_rsp
  app_ready_rsp-Silent _ status (is_idle model) k = ground arith
  app_ready_rsp-Silent _ status (is_connected model c d hc) k = ground arith
  app_ready_rsp-Silent _ status (is_sent model c a d hc h1 h3) k = ground arith
  app_ready_rsp-Silent _ status (is_data model c hc) k = ground arith

  pub abort-Silent :
      (ar : Ar) (reason : AbortReason)
      → IsAr ar
      → Known ar.state addr seq
      → Silent addr seq (some (handle_abort ar reason))
  unfolding handle_abort
  abort-Silent _ reason (is_idle model) k = ground arith
  abort-Silent _ reason (is_connected model c d hc) k = ground arith
  abort-Silent _ reason (is_sent model c a d hc h1 h3) k = ground arith
  abort-Silent _ reason (is_data model c hc) k = ground arith

-- The actions of a handler can be carried out.
abbrev pub AppliesTo : Bool → Option SocketAddr → Option ℕ → Outcome → Type 0
AppliesTo is_new addr seq none = ⊥
AppliesTo is_new addr seq (some r) = Applicable is_new r.0.state r.0.ctx addr seq r.1

pub Silent-AppliesTo :
    (is_new : Bool) (addr : Option SocketAddr) (seq : Option ℕ) (o : Outcome)
    → Silent addr seq o
    → AppliesTo is_new addr seq o
Silent-AppliesTo is_new addr seq none h = absurd h
Silent-AppliesTo is_new addr seq (some r) h =
    Quiet-Applicable is_new r.0.state r.0.ctx addr seq r.1 h.0 h.1

module _ (addr : Option SocketAddr) (seq : Option ℕ) where
  pub prm_end-AppliesTo :
      (ar : Ar) (req : ControlBlock) (now : ℕ)
      → IsAr ar
      → Known ar.state addr seq
      → AppliesTo true addr seq (handle_prm_end ar req now)
  unfolding handle_prm_end
  prm_end-AppliesTo _ req now (is_idle model) k = ground arith
  prm_end-AppliesTo _ req now (is_connected model c d hc) k =
      let placed : Applicable true app_ready_sent (some c) addr seq (ready_call c ∷ []) =
        (k, tt, tt, λ n. (k, tt)) in
      ground (arith, placed)
  prm_end-AppliesTo _ req now (is_sent model c a d hc h1 h3) k = ground arith
  prm_end-AppliesTo _ req now (is_data model c hc) k = ground arith

  pub tick-AppliesTo :
      (ar : Ar) (now : ℕ)
      → IsAr ar
      → Known ar.state addr seq
      → AppliesTo false addr seq (handle_tick ar now)
  unfolding handle_tick
  tick-AppliesTo _ now (is_idle model) k = k
  tick-AppliesTo _ now (is_connected model c d hc) k = ground arith
  tick-AppliesTo _ now (is_sent model c a d hc h1 h3) k =
      let placed : Applicable false app_ready_sent (some c) addr seq (ready_call c ∷ []) =
        (k.0, tt, k.1, λ n. k) in
      ground (arith, placed)
  tick-AppliesTo _ now (is_data model c hc) k = k

-- What a Connect leaves: the address and no outstanding call when the AR was opened, and what was
-- known before when it was not.
abbrev pub ConnectKnown : SocketAddr → Option SocketAddr → Option ℕ → Ar × List Action → Type 0
ConnectKnown from addr seq r =
    Quiet r.1
    × (if any opens r.1 then Known r.0.state (some from) none else Known r.0.state addr seq)

abbrev pub ConnectSilent : SocketAddr → Option SocketAddr → Option ℕ → Outcome → Type 0
ConnectSilent from addr seq none = ⊥
ConnectSilent from addr seq (some r) = ConnectKnown from addr seq r

module _ (from : SocketAddr) (addr : Option SocketAddr) (seq : Option ℕ) where
  answer-Known :
      (ar : Ar) (v : Result PnioStatus ArParams) (now : ℕ)
      → Known ar.state addr seq
      → ConnectKnown from addr seq (answer_connect ar v now)
  answer-Known ar (ok params) now k = (tt, tt)
  answer-Known ar (err status) now k = (tt, k)

  idle-Known :
      (ar : Ar) (req : ConnectReq) (now : ℕ)
      → Known ar.state addr seq
      → ConnectKnown from addr seq (connect_idle ar req now)
  unfolding connect_idle
  idle-Known ar req now k = answer-Known ar (validate req ar.model) now k

  reconnect-Known :
      (ar : Ar) (req : ConnectReq) (now : ℕ) → ConnectKnown from addr seq (reconnect ar req now)
  reconnect-Known ar req now = idle-Known (aborted ar) req now tt

  in-Known :
      (ar : Ar) (c : ArContext) (req : ConnectReq) (now : ℕ)
      → Known ar.state addr seq
      → ConnectKnown from addr seq (connect_in ar c req now)
  in-Known ar c req now k = ground (arith, reconnect-Known ar req now)

  pub connect-Silent :
      (ar : Ar) (req : ConnectReq) (now : ℕ)
      → IsAr ar
      → Known ar.state addr seq
      → ConnectSilent from addr seq (handle_connect ar req now)
  unfolding handle_connect
  connect-Silent _ req now (is_idle model) k = idle-Known _ req now k
  connect-Silent _ req now (is_connected model c d hc) k = in-Known _ c req now k
  connect-Silent _ req now (is_sent model c a d hc h1 h3) k = in-Known _ c req now k
  connect-Silent _ req now (is_data model c hc) k = in-Known _ c req now k
