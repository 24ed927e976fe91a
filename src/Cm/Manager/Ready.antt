-- ===== src/Cm/Manager/Ready.antt =====
-- The manager's invariant, and that the actions of the AR are carried out without a panic.
use pnio_rs.Prelude.{◌≤◌, ◌≡◌, ◌≢◌, arith, refl, Bool, true, false, Option, none, some}
use pnio_rs.Prelude.{List, [], ◌∷◌, Bytes, length, drop, ok, err, ◌>>=◌}
use pnio_rs.Prelude.{length-append, length-drop}
use pnio_rs.Rpc.Errors.{panic}
use pnio_rs.Im.Laws.{IsStore}
use pnio_rs.Cm.Ar.Types.{Action, respond, call_controller, notify}
use pnio_rs.Cm.Ar.Invariant.{IsAr}
use pnio_rs.Cm.Manager.Types.{Cm, CmOutput, RespondCtx, Key, cache_capacity}
use pnio_rs.Cm.Manager.Ops.{Turn, Acted, apply, apply_one, build_call_pdu, cache_insert}
use pnio_rs.Cm.Manager.Calls.{IsSome, Known, Applicable}

-- What does not depend on the state: the AR keeps its own invariant, the I&M records have their
-- lengths, and the cache holds four responses at most.
pub record IsBase (cm : Cm) : Type 0 where
  pub ar_fits : IsAr cm.ar
  pub im_fits : IsStore cm.im
  pub cache_bound : length cm.cache ≤ cache_capacity

-- With it, the manager knows the controller's address when there is an AR, and the number of the
-- call when ApplicationReady was sent.
pub record IsCm (cm : Cm) : Type 0 where
  pub base : IsBase cm
  pub known : Known cm.ar.state cm.controller_addr cm.current_call_seq

abbrev pub Fine : Turn → Type 0
Fine (ok r) = IsCm r.0
Fine (err e) = e ≢ panic

abbrev pub Ready : Bool → Cm × List Action → Type 0
Ready is_new r =
    IsBase r.0
    × Applicable is_new r.0.ar.state r.0.ar.ctx r.0.controller_addr r.0.current_call_seq r.1

cache_insert-bound :
    (cache : List (Key × Bytes)) (key : Key) (pdu : Bytes)
    → length cache ≤ cache_capacity
    → length (cache_insert cache key pdu) ≤ cache_capacity
unfolding cache_insert
cache_insert-bound cache key pdu h = ground (
  arith,
  length-append (drop 1 cache) ((key, pdu) ∷ []),
  length-append cache ((key, pdu) ∷ []),
  length-drop 1 cache,
)

of_IsSome {ℓ} : {A : Type ℓ} (o : Option A) → IsSome o → (a : A) × (o ≡ some a)
of_IsSome none h = absurd h
of_IsSome (some a) h = (a, refl)

-- One action leaves the rest applicable.
abbrev AppliedOne : Bool → List Action → Turn → Type 0
AppliedOne is_new rest (ok r) = Ready is_new (r.0, rest)
AppliedOne is_new rest (err e) = e ≢ panic

apply_one-Ready :
    (cm : Cm) (action : Action) (rest : List Action) (ctx : Option (RespondCtx × Key))
    (is_new : Bool) (out : CmOutput)
    → Ready is_new (cm, action ∷ rest)
    → AppliedOne is_new rest (apply_one cm action ctx is_new out)
unfolding apply_one build_call_pdu
apply_one-Ready cm (respond status blocks) rest none is_new out (b, a) = (b, a)
apply_one-Ready cm (respond status blocks) rest (some (ctx, key)) is_new out (b, a) = (
  record {
    ar_fits = b.ar_fits;
    im_fits = b.im_fits;
    cache_bound = cache_insert-bound cm.cache key _ b.cache_bound;
  },
  a,
)
apply_one-Ready cm (notify state reason) rest ctx is_new out (b, a) = (b, a)
apply_one-Ready cm (call_controller blocks) rest ctx true out (b, (sa, sc, cs, k)) =
    let (addr, ea) = of_IsSome cm.controller_addr sa in
    let (c, ec) = of_IsSome cm.ar.ctx sc in ground (arith, k cm.call_seq)
apply_one-Ready cm (call_controller blocks) rest ctx false out (b, (sa, sc, cs, k)) =
    let (addr, ea) = of_IsSome cm.controller_addr sa in
    let (c, ec) = of_IsSome cm.ar.ctx sc in
    let (n, en) = of_IsSome cm.current_call_seq cs in ground (arith, k n)

bind-Fine :
    (is_new : Bool) (rest : List Action) (m : Turn) (f : Cm × CmOutput → Turn)
    → AppliedOne is_new rest m
    → ((r : Cm × CmOutput) → Ready is_new (r.0, rest) → Fine (f r))
    → Fine (m >>= f)
bind-Fine is_new rest (ok r) f h k = k r h
bind-Fine is_new rest (err e) f h k = h

pub apply-Fine :
    (acts : List Action) (cm : Cm) (ctx : Option (RespondCtx × Key)) (is_new : Bool)
    (out : CmOutput)
    → Ready is_new (cm, acts)
    → Fine (apply cm acts ctx is_new out)
unfolding apply
apply-Fine [] cm ctx is_new out (b, a) = record { base = b; known = a }
apply-Fine (act ∷ rest) cm ctx is_new out h =
    bind-Fine is_new rest (apply_one cm act ctx is_new out) _
      (apply_one-Ready cm act rest ctx is_new out h) (λ r hr. apply-Fine rest r.0 ctx is_new r.1 hr)

-- The actions of a step can be carried out behind it.
abbrev pub StepsReady : Bool → Acted → Type 0
StepsReady is_new (ok r) = Ready is_new r
StepsReady is_new (err e) = e ≢ panic

pub then-Fine :
    (is_new : Bool) (m : Acted) (ctx : Option (RespondCtx × Key)) (out : CmOutput)
    → StepsReady is_new m
    → Fine (m >>= λ (r : Cm × List Action). apply r.0 r.1 ctx is_new out)
then-Fine is_new (ok r) ctx out h = apply-Fine r.1 r.0 ctx is_new out h
then-Fine is_new (err e) ctx out h = h
