-- ===== src/Domain/Progress/Ended.antt =====
-- graphrun/src/domain.rs: a run that has ended makes no progress.
use graphrun.Prelude.{ℕ, ◌≡◌, refl, false, Option, none, some, [], nat_eq, arith, ==_refl}
use graphrun.Map
use graphrun.Map.Laws.{get-modify, map_option}
use graphrun.Error.{ok}
use graphrun.Value.{Value}
use graphrun.Ir.{FailError}
use graphrun.Externals.{Externals, IdGen}
use graphrun.Domain.Event.{DomainEvent, run_succeeded, run_failed}
use graphrun.Domain.State.{State, RunState, RunStatus, is_active}
use graphrun.Domain.Evolve.{evolve}
use graphrun.Domain.Evolve.Scopes.{succeed_run, fail_run}
use graphrun.Domain.Progress.{next_progress, rounds, decide_progress}

-- The two events that end a run.
pub data Ends (run : ℕ) : DomainEvent → Type 0 where
  by_success : (output : Value) → Ends run (run_succeeded run output)
  by_failure : (error : FailError) → Ends run (run_failed run error)

module _ (ext : Externals) (run time : ℕ) (ids : IdGen) where
  idle_run :
      (s : State) (r : RunState)
      → Map.get run s.runs ≡ some r
      → is_active r.status ≡ false
      → decide_progress ext run time s ids ≡ ok ([], ids)
  unfolding decide_progress rounds next_progress
  idle_run s r found ended = rw (found, ended, decide_progress, rounds, next_progress) refl

  unknown_run :
      (s : State) → Map.get run s.runs ≡ none → decide_progress ext run time s ids ≡ ok ([], ids)
  unfolding decide_progress rounds next_progress
  unknown_run s missing = rw (missing, decide_progress, rounds, next_progress) refl

  in_ended :
      (t : State) (r : Option RunState) (f : RunState → RunState)
      → Map.get run t.runs ≡ map_option f r
      → ((x : RunState) → is_active (f x).status ≡ false)
      → decide_progress ext run time t ids ≡ ok ([], ids)
  in_ended t none f at ended = unknown_run t at
  in_ended t (some x) f at ended = idle_run t (f x) at (ended x)

  run_succeeded-ends :
      (s t : State) (output : Value)
      → evolve s (run_succeeded run output) ≡ ok t
      → decide_progress ext run time t ids ≡ ok ([], ids)
  unfolding evolve succeed_run
  run_succeeded-ends s t output e =
      in_ended t (Map.get run s.runs) (λ r. record r { status = RunStatus.succeeded output })
        (ground (
          arith,
          e,
          ==_refl run,
          get-modify run run (λ r. record r { status = RunStatus.succeeded output }) s.runs,
        ))
        (λ x. refl)

  run_failed-ends :
      (s t : State) (error : FailError)
      → evolve s (run_failed run error) ≡ ok t
      → decide_progress ext run time t ids ≡ ok ([], ids)
  unfolding evolve fail_run
  run_failed-ends s t error e =
      in_ended t (Map.get run s.runs) (λ r. record r { status = RunStatus.failed error })
        (ground (
          arith,
          e,
          ==_refl run,
          get-modify run run (λ r. record r { status = RunStatus.failed error }) s.runs,
        ))
        (λ x. refl)

  -- Once the success or the failure of a run is applied, its progress is decided to be no event.
  pub ended_run-rests :
      (s t : State) (e : DomainEvent)
      → Ends run e
      → evolve s e ≡ ok t
      → decide_progress ext run time t ids ≡ ok ([], ids)
  ended_run-rests s t e (by_success output) moved = run_succeeded-ends s t output moved
  ended_run-rests s t e (by_failure error) moved = run_failed-ends s t error moved
