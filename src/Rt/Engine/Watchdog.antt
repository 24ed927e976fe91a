-- ===== src/Rt/Engine/Watchdog.antt =====
-- The consumer's watchdog.
use pnio_rs.Prelude.{
  ℕ, ◌-◌, ◌≤◌, ◌<◌, ◌≡◌, arith, refl, ap, ◌∙◌, some, List, [], ◌∷◌, ◌++◌, map, All,
}
use pnio_rs.Rt.Engine.{
  RtEngine, WatchdogVerdict, within, expired, stopped, fine, overdue, check_watchdog,
}

-- The checks at the given times, one after the other: the verdicts.
pub verdicts : RtEngine → List ℕ → List WatchdogVerdict
verdicts e [] = []
verdicts e (now ∷ times) = let (e', v) = check_watchdog e now in v ∷ verdicts e' times

-- At `now` the watchdog's time has run out since a frame at `t`.
abbrev pub IsLate : RtEngine → ℕ → ℕ → Type 0
IsLate e t now = e.layout.output_cr.watchdog < now - t

abbrev pub InTime : RtEngine → ℕ → ℕ → Type 0
InTime e t now = now - t ≤ e.layout.output_cr.watchdog

stays_overdue :
    (us : List ℕ) (e : RtEngine) (t w : ℕ)
    → e.last_rx ≡ some t
    → e.watchdog_state ≡ overdue
    → e.layout.output_cr.watchdog ≡ w
    → All (λ u. w < u - t) us
    → verdicts e us ≡ map (λ u. stopped) us
unfolding verdicts check_watchdog
stays_overdue [] e t w h k lw l = refl
stays_overdue (u ∷ us) e t w h k lw (l, ls) = ground (arith, stays_overdue us e t w h k lw ls)

expires :
    (u : ℕ) (us : List ℕ) (e : RtEngine) (t : ℕ)
    → e.last_rx ≡ some t
    → e.watchdog_state ≡ fine
    → IsLate e t u
    → All (IsLate e t) us
    → verdicts e (u ∷ us) ≡ expired ∷ map (λ u. stopped) us
unfolding verdicts check_watchdog
expires u us e t h k l ls =
    let e' : RtEngine = (check_watchdog e u).0 in
    let first : (check_watchdog e u).1 ≡ expired = ground arith in
    let seen : e'.last_rx ≡ some t = ground arith in
    let late : e'.watchdog_state ≡ overdue = ground arith in
    let same : e'.layout.output_cr.watchdog ≡ e.layout.output_cr.watchdog = ground arith in
    ap (λ v. v ∷ verdicts e' us) first
    ∙ ap (λ (vs : List WatchdogVerdict). expired ∷ vs)
        (stays_overdue us e' t e.layout.output_cr.watchdog seen late same ls)

-- While the last frame is recent enough the checks report nothing; the first late check reports the
-- expiry, and those behind it report only that the provider has stopped, so an expiry is reported
-- once.
pub verdicts_lem :
    (ts : List ℕ) (u : ℕ) (us : List ℕ) (e : RtEngine) (t : ℕ)
    → e.last_rx ≡ some t
    → e.watchdog_state ≡ fine
    → All (InTime e t) ts
    → IsLate e t u
    → All (IsLate e t) us
    → verdicts e (ts ++ (u ∷ us)) ≡ map (λ n. within) ts ++ (expired ∷ map (λ n. stopped) us)
unfolding verdicts check_watchdog
verdicts_lem [] u us e t h k i l ls = expires u us e t h k l ls
verdicts_lem (n ∷ ts) u us e t h k (i, is) l ls =
    ground (arith, verdicts_lem ts u us (record e { watchdog_state = fine }) t h refl is l ls)
