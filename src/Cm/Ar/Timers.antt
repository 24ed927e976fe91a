-- ===== src/Cm/Ar/Timers.antt =====
-- The AR's deadlines: what a tick does before and at `next_deadline`, and the ApplicationReady
-- calls that are never answered.
use pnio_rs.Prelude.{ℕ, zero, suc, ◌+◌, ◌≤◌, ◌<◌, ◌≡◌, arith, refl, ap, ◌∙◌, none, some}
use pnio_rs.Prelude.{[], ◌∷◌, ◌++◌, replicate}
use pnio_rs.Cm.Abort.{app_ready_failed}
use pnio_rs.Cm.Model.{DeviceModel}
use pnio_rs.Cm.Ar.Types.{app_ready_sent, tick, ArContext, Ar, new, app_ready_timeout}
use pnio_rs.Cm.Ar.Ops.{Outcome, on, handle_tick, next_deadline, ready_call, abort_action}
use pnio_rs.Cm.Ar.Sequence.{and_then}
use pnio_rs.Cm.Ar.Invariant.{IsAr, is_idle, is_connected, is_sent, is_data}

-- A tick that comes before the deadline, or when none is armed, does nothing.
pub on-tick_early :
    (ar : Ar) (now : ℕ)
    → IsAr ar
    → ((d : ℕ) → next_deadline ar ≡ some d → now < d)
    → on ar tick now ≡ some (ar, [])
unfolding on handle_tick next_deadline
on-tick_early _ now (is_idle model) early = refl
on-tick_early _ now (is_connected model c d hc) early = ground (arith, early d refl)
on-tick_early _ now (is_sent model c a d hc h1 h3) early = ground (arith, early d refl)
on-tick_early _ now (is_data model c hc) early = refl

-- A tick at the deadline or later does something: it calls the controller again or aborts.
pub on-tick_due :
    (ar : Ar) (now d : ℕ)
    → IsAr ar
    → next_deadline ar ≡ some d
    → d ≤ now
    → ¬ (on ar tick now ≡ some (ar, []))
unfolding on handle_tick next_deadline
on-tick_due _ now d (is_idle model) e h same = ground arith
on-tick_due _ now d (is_connected model c d' hc) e h same = ground arith
on-tick_due _ now d (is_sent model c a d' hc h1 h3) e h same = ground arith
on-tick_due _ now d (is_data model c hc) e h same = ground arith

-- The loop of the device while nothing arrives: it sleeps until `next_deadline` and ticks.
abbrev tick_at : Ar → Outcome
tick_at ar = elim (next_deadline ar) [ none ↦ some (ar, []) | some d ↦ on ar tick d ]

-- `n` turns of the loop.
pub run_deadlines : ℕ → Ar → Outcome
run_deadlines zero ar = some (ar, [])
run_deadlines (suc n) ar = and_then (tick_at ar) (λ ar'. run_deadlines n ar')

-- The AR that has called the controller `attempts` times and waits until `deadline`.
abbrev pub waiting : DeviceModel → ArContext → ℕ → ℕ → Ar
waiting model c attempts deadline = record {
  model = model;
  state = app_ready_sent;
  ctx = some c;
  app_ready_attempts = attempts;
  app_ready_deadline = some deadline;
  activity_deadline = none;
}

module _ (model : DeviceModel) (c : ArContext) where
  call_again :
      (a d : ℕ)
      → a < 3
      → tick_at (waiting model c a d)
        ≡ some (waiting model c (a + 1) (d + app_ready_timeout), ready_call c ∷ [])
  unfolding on handle_tick next_deadline
  call_again a d h = ground arith

  give_up :
      (a d : ℕ)
      → 3 ≤ a
      → tick_at (waiting model c a d) ≡ some (new model, abort_action app_ready_failed ∷ [])
  unfolding on handle_tick next_deadline
  give_up a d h = ground arith

  -- An ApplicationReady that is never answered is called again, with the same blocks, until three
  -- calls were made, and the next deadline aborts the AR and reports it. `n` calls are left.
  pub run_deadlines_lem :
      (n a d : ℕ)
      → a + n ≡ 3
      → run_deadlines (suc n) (waiting model c a d)
        ≡ some (new model, replicate n (ready_call c) ++ (abort_action app_ready_failed ∷ []))
  unfolding run_deadlines
  run_deadlines_lem zero a d h =
      ap (λ (o : Outcome). and_then o (λ ar'. run_deadlines 0 ar')) (give_up a d (omega arith))
  run_deadlines_lem (suc n) a d h =
      ap (λ (o : Outcome). and_then o (λ ar'. run_deadlines (suc n) ar'))
        (call_again a d (omega arith))
      ∙ ap (λ (o : Outcome). and_then (some (new model, ready_call c ∷ [])) (λ ar'. o))
          (run_deadlines_lem n (a + 1) (d + app_ready_timeout) (omega arith))
