-- ===== src/Cm/Manager/Cached.antt =====
-- What the actions of a request leave in the cache.
use pnio_rs.Prelude.{◌≡◌, arith, ap, ◌∙◌, Bool, true, false, Option, none}
use pnio_rs.Prelude.{some, List, [], ◌∷◌, ◌++◌, Bytes, drop, ok}
use pnio_rs.Prelude.{==_self, append-nil, append_assoc, >>=-eq-ok}
use pnio_rs.Rpc.Uuid.{uuid_eq_refl}
use pnio_rs.Rpc.Errors.{unwrap}
use pnio_rs.Cm.Ar.Types.{Action, respond, call_controller, notify}
use pnio_rs.Cm.Manager.Types.{Cm, CmOutput, Outgoing, SocketAddr, RespondCtx, Key}
use pnio_rs.Cm.Manager.Pdu.{build_response_pdu}
use pnio_rs.Cm.Manager.Ops.{
  key_eq, cache_lookup, cache_insert, pushed, apply, apply_one, build_call_pdu,
}
use pnio_rs.Cm.Manager.Answered.{Answered, NoAnswer}

key_eq_refl : (key : Key) → key_eq key key ≡ true
key_eq_refl key = ground (arith, uuid_eq_refl key.0, ==_self key.1)

lookup-append :
    (cache : List (Key × Bytes)) (key : Key) (pdu : Bytes)
    → cache_lookup cache key ≡ none
    → cache_lookup (cache ++ ((key, pdu) ∷ [])) key ≡ some pdu
unfolding cache_lookup
lookup-append [] key pdu h = ground (arith, key_eq_refl key)
lookup-append (e ∷ es) key pdu h = ground (arith, lookup-append es key pdu)

lookup-drop :
    (cache : List (Key × Bytes)) (key : Key)
    → cache_lookup cache key ≡ none
    → cache_lookup (drop 1 cache) key ≡ none
unfolding cache_lookup
lookup-drop [] key h = h
lookup-drop (e ∷ es) key h = ground arith

lookup-insert :
    (cache : List (Key × Bytes)) (key : Key) (pdu : Bytes)
    → cache_lookup cache key ≡ none
    → cache_lookup (cache_insert cache key pdu) key ≡ some pdu
unfolding cache_insert
lookup-insert cache key pdu h = ground (
  arith,
  lookup-append cache key pdu,
  lookup-append (drop 1 cache) key pdu,
  lookup-drop cache key,
)

-- The output grows at its end, and the cache stays.
record Extends (cm : Cm) (out : CmOutput) (cm' : Cm) (out' : CmOutput) : Type 0 where
  pub same_cache : cm'.cache ≡ cm.cache
  pub added : List Outgoing
  pub sent : out'.send ≡ out.send ++ added

build_call_cache :
    (cm : Cm) (blocks : Bytes) (is_new : Bool) (r : Bytes × Cm)
    → build_call_pdu cm blocks is_new ≡ ok r
    → r.1.cache ≡ cm.cache
unfolding build_call_pdu
build_call_cache cm blocks true r h = ground arith
build_call_cache cm blocks false r h = ground arith

call_one :
    (cm cm' : Cm) (blocks : Bytes) (ctx : Option (RespondCtx × Key)) (is_new : Bool)
    (out out' : CmOutput)
    → apply_one cm (call_controller blocks) ctx is_new out ≡ ok (cm', out')
    → Extends cm out cm' out'
unfolding apply_one
call_one cm cm' blocks ctx is_new out out' h =
    let (to, et, ht) = >>=-eq-ok (unwrap cm.controller_addr) _ h in
    let (r, er, hr) = >>=-eq-ok (build_call_pdu cm blocks is_new) _ ht in
    record {
      same_cache = ground (arith, build_call_cache cm blocks is_new r er);
      added = record { bytes = r.0; to = to } ∷ [];
      sent = ground arith;
    }

Extends-trans :
    {cm cm1 cm2 : Cm} {out out1 out2 : CmOutput}
    → Extends cm out cm1 out1
    → Extends cm1 out1 cm2 out2
    → Extends cm out cm2 out2
Extends-trans {out = out} a b = record {
  same_cache = b.same_cache ∙ a.same_cache;
  added = a.added ++ b.added;
  sent =
      b.sent
      ∙ ap (λ (o : List Outgoing). o ++ b.added) a.sent
      ∙ append_assoc out.send a.added b.added;
}

-- Behind the answer nothing is answered any more.
apply-NoAnswer :
    (acts : List Action) (cm cm' : Cm) (ctx : Option (RespondCtx × Key)) (is_new : Bool)
    (out out' : CmOutput)
    → NoAnswer acts
    → apply cm acts ctx is_new out ≡ ok (cm', out')
    → Extends cm out cm' out'
unfolding apply
apply-NoAnswer [] cm cm' ctx is_new out out' q h = record {
  same_cache = ground arith;
  added = [];
  sent = ground (arith, append-nil out.send);
}
apply-NoAnswer (respond status blocks ∷ rest) cm cm' ctx is_new out out' q h = absurd q
apply-NoAnswer (notify state reason ∷ rest) cm cm' ctx is_new out out' q h =
    let later =
      apply-NoAnswer rest cm cm' ctx is_new
        (record out { notices = out.notices ++ ((state, reason) ∷ []) }) out' q
        (unfold apply_one in h) in
    record { same_cache = later.same_cache; added = later.added; sent = later.sent }
apply-NoAnswer (call_controller blocks ∷ rest) cm cm' ctx is_new out out' q h =
    let (r, er, hr) = >>=-eq-ok (apply_one cm (call_controller blocks) ctx is_new out) _ h in
    Extends-trans (call_one cm r.0 blocks ctx is_new out r.1 er)
      (apply-NoAnswer rest r.0 cm' ctx is_new r.1 out' q hr)

-- The answer is in the cache behind the actions, and is what is sent first.
pub record Cached (cm : Cm) (key : Key) (from : SocketAddr) (out out' : CmOutput) : Type 0 where
  pub bytes : Bytes
  pub others : List Outgoing
  pub found : cache_lookup cm.cache key ≡ some bytes
  pub first : out'.send ≡ out.send ++ (record { bytes = bytes; to = from } ∷ others)

pub apply-Answered :
    (acts : List Action) (cm cm' : Cm) (ctx : RespondCtx) (key : Key) (is_new : Bool)
    (out out' : CmOutput)
    → Answered acts
    → cache_lookup cm.cache key ≡ none
    → apply cm acts (some (ctx, key)) is_new out ≡ ok (cm', out')
    → Cached cm' key ctx.from out out'
unfolding apply
apply-Answered [] cm cm' ctx key is_new out out' q c h = absurd q
apply-Answered (respond status blocks ∷ rest) cm cm' ctx key is_new out out' q c h =
    let pdu = build_response_pdu ctx status blocks in
    let later =
      apply-NoAnswer rest (record cm { cache = cache_insert cm.cache key pdu }) cm'
        (some (ctx, key)) is_new (pushed out pdu ctx.from) out' q (unfold apply_one in h) in
    record {
      bytes = pdu;
      others = later.added;
      found =
          ap (λ (cache : List (Key × Bytes)). cache_lookup cache key) later.same_cache
          ∙ lookup-insert cm.cache key pdu c;
      first = later.sent ∙ append_assoc out.send _ later.added;
    }
apply-Answered (notify state reason ∷ rest) cm cm' ctx key is_new out out' q c h =
    let later =
      apply-Answered rest cm cm' ctx key is_new
        (record out { notices = out.notices ++ ((state, reason) ∷ []) }) out' q c
        (unfold apply_one in h) in
    record { bytes = later.bytes; others = later.others; found = later.found; first = later.first }
apply-Answered (call_controller blocks ∷ rest) cm cm' ctx key is_new out out' q c h = absurd q
