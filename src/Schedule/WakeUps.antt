-- ===== src/Schedule/WakeUps.antt =====
-- graphrun/src/schedule.rs: no activation and no wait of a run is missed before its deadline.
use graphrun.Prelude.{
  ℕ, ◌≡◌, refl, sym, ap, ◌∙◌, Bool, true, false, not, ◌&&◌, ◌||◌, ◌==◌, Option, none, some, List,
  [], ◌∷◌, nat_eq, arith, all, any, filter, filter_kept, filter_dropped, map, ltb, All, Bool-cases,
  inl, inr, if◌then◌else◌,
}
use mathlib.Core.Path.{subst}
use graphrun.Map
use graphrun.Domain.State.{State, RunState, ActivationState, WaitState, ClaimState, is_ready}
use graphrun.Domain.Follow.{pending_in}
use graphrun.Domain.Ready.{
  unclaimed_ready, ready_activations, is_unclaimed, lease_over, no_pending_wait,
}
use graphrun.Schedule.{
  RunSchedule, earlier, earliest, waits_on, is_passed_over, look_at, scan_activations, scan_run,
  schedule_of, from_state, from_run,
}

-- The time comes before the deadline, where there is one.
abbrev pub before : Option ℕ → ℕ → Bool
before none time = true
before (some deadline) time = ltb time deadline

before-earlier :
    (a b : Option ℕ) (time : ℕ)
    → before (earlier a b) time ≡ true
    → (before a time ≡ true) × (before b time ≡ true)
before-earlier none b time h = (refl, h)
before-earlier (some a) none time h = (h, refl)
before-earlier (some a) (some b) time h = (ground (arith, h), ground (arith, h))

module _ (s : State) (time : ℕ) where
  -- No worker can claim the activation.
  abbrev pub IsHeld : ActivationState → Type 0
  IsHeld act =
      (is_ready act.status && (no_pending_wait s act && is_unclaimed s time act.id)) ≡ false

  abbrev pub IsStored : ActivationState → Type 0
  IsStored act = Map.get act.id s.activations ≡ some act

  no_wait :
      (act : ActivationState) (ws : List WaitState)
      → any (waits_on act) ws ≡ true
      → all (λ w. not (w.activation == act.id) || not w.pending) ws ≡ false
  unfolding any all
  no_wait act [] h = cc h
  no_wait act (w ∷ ws) h = ground (arith, no_wait act ws)

  passed-IsHeld : (act : ActivationState) → is_passed_over s act ≡ true → IsHeld act
  unfolding is_passed_over is_unclaimed
  passed-IsHeld act h = ground (arith, h, no_wait act (Map.values s.waits))

  pub unclaimed_at :
      (act : ActivationState)
      → IsStored act
      → is_unclaimed s time act.id
        ≡ (if Map.contains_key act.id s.interventions then false else lease_over act.claim time)
  unfolding is_unclaimed
  unclaimed_at act stored = rw (stored) refl

  leased-IsHeld :
      (act : ActivationState) → IsStored act → lease_over act.claim time ≡ false → IsHeld act
  leased-IsHeld act stored over = rw (unclaimed_at act stored, over) (ground arith)

  look-IsHeld :
      (act : ActivationState) (now_ms : ℕ) (claim : Option ClaimState) (found : Bool × Option ℕ)
      → (look_at now_ms claim found).0 ≡ false
      → before (look_at now_ms claim found).1 time ≡ true
      → (found.0 ≡ false) × (before found.1 time ≡ true) × (lease_over claim time ≡ false)
  look-IsHeld act now_ms none found r d = cc r
  look-IsHeld act now_ms (some claim) (ready, deadline) r d =
      elim (Bool-cases (ltb now_ms claim.lease_expiry_ms)) [
        | inr over ↦ ground arith
        | inl running ↦
            let (deadline_later, lease_later) =
              before-earlier deadline (some claim.lease_expiry_ms) time (ground arith) in
            (ground arith, deadline_later, ground (arith, lease_later))
      ]

  pub scan_passed :
      (now_ms : ℕ) (act : ActivationState) (acts : List ActivationState) (found : Bool × Option ℕ)
      → is_passed_over s act ≡ true
      → scan_activations s now_ms (act ∷ acts) found ≡ scan_activations s now_ms acts found
  unfolding scan_activations
  scan_passed now_ms act acts found passed = rw (passed, scan_activations) refl

  pub scan_looked :
      (now_ms : ℕ) (act : ActivationState) (acts : List ActivationState) (found : Bool × Option ℕ)
      → is_passed_over s act ≡ false
      → scan_activations s now_ms (act ∷ acts) found
        ≡ scan_activations s now_ms acts (look_at now_ms act.claim found)
  unfolding scan_activations
  scan_looked now_ms act acts found looked = rw (looked, scan_activations) refl

  -- Nothing is ready, and the time comes before the deadline.
  abbrev IsWaiting : Bool × Option ℕ → Type 0
  IsWaiting found = (found.0 ≡ false) × (before found.1 time ≡ true)

  scan_activations-IsHeld :
      (now_ms : ℕ) (acts : List ActivationState) (found : Bool × Option ℕ)
      → All IsStored acts
      → IsWaiting (scan_activations s now_ms acts found)
      → IsWaiting found × All IsHeld acts
  unfolding scan_activations
  scan_activations-IsHeld now_ms [] found stored h = (h, tt)
  scan_activations-IsHeld now_ms (act ∷ acts) found stored h =
      elim (Bool-cases (is_passed_over s act)) [
        | inl passed ↦
            let (waiting, rest) =
              scan_activations-IsHeld now_ms acts found stored.1
                (subst IsWaiting (scan_passed now_ms act acts found passed) h) in
            (waiting, (passed-IsHeld act passed, rest))
        | inr looked ↦
            let (waiting, rest) =
              scan_activations-IsHeld now_ms acts (look_at now_ms act.claim found) stored.1
                (subst IsWaiting (scan_looked now_ms act acts found looked) h) in
            let (ready, deadline, leased) =
              look-IsHeld act now_ms act.claim found waiting.0 waiting.1 in
            ((ready, deadline), (leased-IsHeld act stored.0 leased, rest))
      ]

  none_ready :
      (run : ℕ) (acts : List ActivationState)
      → All IsHeld (filter (λ act. act.run == run) acts)
      → filter (is_unclaimed s time) (
          map
            (λ act. act.id)
            (filter
              (no_pending_wait s)
              (filter (λ act. act.run == run && is_ready act.status) acts)))
        ≡ []
  unfolding filter
  none_ready run [] held = refl
  none_ready run (act ∷ acts) held = elim (Bool-cases (act.run == run)) [
    | inr other ↦ rw (other) (
        none_ready run acts
          (subst (All IsHeld) (filter_dropped (λ a. a.run == run) act acts other) held))
    | inl of_run ↦
        let (mine, others) =
          subst (All IsHeld) (filter_kept (λ a. a.run == run) act acts of_run) held in
        let rest = none_ready run acts others in
        elim (Bool-cases (is_ready act.status)) [
          | inr not_ready ↦ rw (of_run, not_ready) rest
          | inl ready ↦ elim (Bool-cases (no_pending_wait s act)) [
            | inr waits ↦ rw (of_run, ready, filter, waits) rest
            | inl free ↦
                let unclaimed : is_unclaimed s time act.id ≡ false = ground (arith, mine) in
                rw (of_run, ready, filter, free, filter, unclaimed) rest
          ]
        ]
  ]

  -- A pending wait of the run has run out.
  abbrev pub is_overdue : ℕ → WaitState → Bool
  is_overdue run w = pending_in run w && not (before w.deadline_ms time)

  none_overdue :
      (run : ℕ) (ws : List WaitState)
      → before (earliest (map (λ w. w.deadline_ms) (filter (pending_in run) ws))) time ≡ true
      → All (λ w. is_overdue run w ≡ false) ws
  unfolding filter earliest
  none_overdue run [] h = tt
  none_overdue run (w ∷ ws) h = elim (Bool-cases (pending_in run w)) [
    | inr other ↦ (
      rw (other) refl,
      none_overdue run ws (
          subst (λ xs. before (earliest (map (λ w. w.deadline_ms) xs)) time ≡ true)
            (filter_dropped (pending_in run) w ws other) h),
    )
    | inl pending ↦
        let (mine, rest) =
          before-earlier w.deadline_ms
            (earliest (map (λ w. w.deadline_ms) (filter (pending_in run) ws))) time
            (subst (λ xs. before (earliest (map (λ w. w.deadline_ms) xs)) time ≡ true)
              (filter_kept (pending_in run) w ws pending) h) in
        (rw (pending, mine) refl, none_overdue run ws rest)
  ]

  pub All-filter :
      (p : ActivationState → Bool) (acts : List ActivationState)
      → All IsStored acts
      → All IsStored (filter p acts)
  unfolding filter
  All-filter p [] h = tt
  All-filter p (act ∷ acts) h = elim (Bool-cases (p act)) [
    | inl kept ↦ rw (kept, filter) (h.0, All-filter p acts h.1)
    | inr dropped ↦ rw (dropped, filter) (All-filter p acts h.1)
  ]

  scheduled :
      (run now_ms : ℕ)
      → All IsStored (Map.values s.activations)
      → IsWaiting (scan_run s run now_ms)
      → (unclaimed_ready s run time ≡ []) × All (λ w. is_overdue run w ≡ false) (Map.values s.waits)
  unfolding scan_activations earliest unclaimed_ready ready_activations
  scheduled run now_ms stored h =
      let (waiting, held) =
        scan_activations-IsHeld now_ms (filter (λ act. act.run == run) (Map.values s.activations)) _
          (All-filter (λ act. act.run == run) (Map.values s.activations) stored) h in
      (
        none_ready run (Map.values s.activations) held,
        none_overdue run (Map.values s.waits) waiting.1,
      )

  by_schedule :
      (found : Bool × Option ℕ) (progress : Bool) (generation source_revision : ℕ)
      (schedule : RunSchedule)
      → schedule_of progress generation source_revision found ≡ schedule
      → schedule.ready ≡ false
      → before schedule.deadline_ms time ≡ true
      → IsWaiting found
  by_schedule (ready, deadline) progress generation source_revision schedule e quiet early = (
    ap (λ x. x.ready) e ∙ quiet,
    subst (λ o. before o time ≡ true) (sym (ap (λ x. x.deadline_ms) e)) early,
  )

  by_run :
      (run now_ms generation source_revision : ℕ) (progress : Bool) (schedule : RunSchedule)
      (o : Option RunState)
      → from_run s run progress now_ms generation source_revision o ≡ some schedule
      → schedule.ready ≡ false
      → before schedule.deadline_ms time ≡ true
      → IsWaiting (scan_run s run now_ms)
  by_run run now_ms generation source_revision progress schedule none e quiet early = cc e
  by_run run now_ms generation source_revision progress schedule (some current) e quiet early =
      let same : schedule_of progress generation source_revision (scan_run s run now_ms)
          ≡ schedule =
        ground arith in
      by_schedule (scan_run s run now_ms) progress generation source_revision schedule same quiet
        early

  -- Where every activation is stored under its id: after a schedule of a run with nothing ready was
  -- made, no worker can claim an activation of the run and no pending wait of the run has run out,
  -- in the same state at any time before the deadline of the schedule.
  pub from_state_wakes :
      (run now_ms generation source_revision : ℕ) (progress : Bool) (schedule : RunSchedule)
      → All IsStored (Map.values s.activations)
      → from_state s run progress now_ms generation source_revision ≡ some schedule
      → schedule.ready ≡ false
      → before schedule.deadline_ms time ≡ true
      → (unclaimed_ready s run time ≡ []) × All (λ w. is_overdue run w ≡ false) (Map.values s.waits)
  unfolding from_state
  from_state_wakes run now_ms generation source_revision progress schedule stored e quiet early =
      scheduled run now_ms stored (
        by_run run now_ms generation source_revision progress schedule (Map.get run s.runs) e quiet
          early)
