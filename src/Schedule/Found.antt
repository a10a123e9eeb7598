-- ===== src/Schedule/Found.antt =====
-- graphrun/src/schedule.rs: a schedule says that something is ready only where something unclaimed is.
use graphrun.Prelude.{
  ℕ, ◌≡◌, ◌≢◌, refl, sym, ap, ◌∙◌, Bool, true, false, not, ◌&&◌, ◌||◌, ◌==◌, Option, none, some,
  List, [], ◌∷◌, nat_eq, arith, all, any, filter, map, All, Bool-cases, inl, inr,
}
use graphrun.Map
use graphrun.Domain.State.{State, RunState, ActivationState, WaitState, ClaimState, is_ready}
use graphrun.Domain.Ready.{
  unclaimed_ready, ready_activations, is_unclaimed, lease_over, no_pending_wait,
}
use graphrun.Schedule.{
  RunSchedule, waits_on, is_passed_over, look_at, scan_activations, scan_run, schedule_of,
  from_state, from_run, earliest,
}
use graphrun.Schedule.WakeUps.{IsHeld, IsStored, unclaimed_at, scan_passed, scan_looked, All-filter}

module _ (s : State) (now_ms : ℕ) where
  free_of_waits :
      (act : ActivationState) (ws : List WaitState)
      → any (waits_on act) ws ≡ false
      → all (λ w. not (w.activation == act.id) || not w.pending) ws ≡ true
  unfolding any all
  free_of_waits act [] h = refl
  free_of_waits act (w ∷ ws) h = ground (arith, free_of_waits act ws)

  looked-claimed :
      (act : ActivationState)
      → IsStored s now_ms act
      → IsHeld s now_ms act
      → is_passed_over s act ≡ false
      → lease_over act.claim now_ms ≡ false
  unfolding is_passed_over
  looked-claimed act stored held looked =
      let at = unclaimed_at s now_ms act stored in
      ground (arith, at, held, looked, free_of_waits act (Map.values s.waits))

  look_at-ready :
      (claim : Option ClaimState) (found : Bool × Option ℕ)
      → lease_over claim now_ms ≡ false
      → (look_at now_ms claim found).0 ≡ found.0
  look_at-ready none found h = cc h
  look_at-ready (some claim) (ready, deadline) h = ground arith

  scan-ready :
      (acts : List ActivationState) (found : Bool × Option ℕ)
      → All (IsStored s now_ms) acts
      → All (IsHeld s now_ms) acts
      → (scan_activations s now_ms acts found).0 ≡ found.0
  unfolding scan_activations
  scan-ready [] found stored held = refl
  scan-ready (act ∷ acts) found stored held = elim (Bool-cases (is_passed_over s act)) [
    | inl passed ↦
        ap (λ x. x.0) (scan_passed s now_ms now_ms act acts found passed)
        ∙ scan-ready acts found stored.1 held.1
    | inr looked ↦
        ap (λ x. x.0) (scan_looked s now_ms now_ms act acts found looked)
        ∙ scan-ready acts (look_at now_ms act.claim found) stored.1 held.1
        ∙ look_at-ready act.claim found (looked-claimed act stored.0 held.0 looked)
  ]

  all-IsHeld :
      (run : ℕ) (acts : List ActivationState)
      → filter (is_unclaimed s now_ms) (
          map
            (λ act. act.id)
            (filter
              (no_pending_wait s)
              (filter (λ act. act.run == run && is_ready act.status) acts)))
        ≡ []
      → All (IsHeld s now_ms) (filter (λ act. act.run == run) acts)
  unfolding filter
  all-IsHeld run [] none_left = tt
  all-IsHeld run (act ∷ acts) none_left = ground (arith, all-IsHeld run acts)

  found_ready :
      (run : ℕ)
      → All (IsStored s now_ms) (Map.values s.activations)
      → unclaimed_ready s run now_ms ≡ []
      → (scan_run s run now_ms).0 ≡ false
  unfolding scan_activations earliest unclaimed_ready ready_activations
  found_ready run stored none_left =
      scan-ready (filter (λ act. act.run == run) (Map.values s.activations)) _
        (All-filter s now_ms (λ act. act.run == run) (Map.values s.activations) stored)
        (all-IsHeld run (Map.values s.activations) none_left)

  by_run :
      (run generation source_revision : ℕ) (progress : Bool) (schedule : RunSchedule)
      (o : Option RunState)
      → from_run s run progress now_ms generation source_revision o ≡ some schedule
      → schedule.ready ≡ (scan_run s run now_ms).0
  by_run run generation source_revision progress schedule none e = cc e
  by_run run generation source_revision progress schedule (some current) e =
      let same : schedule_of progress generation source_revision (scan_run s run now_ms)
          ≡ schedule =
        ground arith in
      sym (ap (λ x. x.ready) same)

  -- Where every activation is stored under its id: if a schedule says that something is ready, then
  -- at the time that it was made for some activation of the run is ready, with no pending wait, no
  -- intervention and no running lease.
  pub from_state_finds :
      (run generation source_revision : ℕ) (progress : Bool) (schedule : RunSchedule)
      → All (IsStored s now_ms) (Map.values s.activations)
      → from_state s run progress now_ms generation source_revision ≡ some schedule
      → schedule.ready ≡ true
      → unclaimed_ready s run now_ms ≢ []
  unfolding from_state
  from_state_finds run generation source_revision progress schedule stored e ready none_left =
      let said = by_run run generation source_revision progress schedule (Map.get run s.runs) e in
      cc (ready, said, found_ready run stored none_left)
