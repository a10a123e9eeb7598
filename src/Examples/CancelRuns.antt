-- ===== src/Examples/CancelRuns.antt =====
-- A run that owes two compensations is abandoned, and a run that waits for a signal is cancelled.
use graphrun.Prelude.{◌≡◌, refl, true, none, some, List, [], ◌∷◌, nat_eq, string_eq, find, filter}
use graphrun.Map
use graphrun.Error.{ok}
use graphrun.Domain.Event.{
  DomainEvent, compensation_abandoned, scope_failed, run_failed, wait_cancelled,
}
use graphrun.Ir.{FailError, node_of, ConsumeFrom}
use graphrun.Domain.State.{State, WaitState, ActivationStatus}
use graphrun.Domain.Evolve.{apply_events, evolve, event_owner}
use graphrun.Domain.Contract.{node_at}
use graphrun.Domain.Region.{lookup_region, climb}
use graphrun.Domain.Evolve.Obligations.{abandon_compensation}
use graphrun.Domain.Evolve.Scopes.{fail_run, fail_scope_state}
use graphrun.Domain.Evolve.Waits.{end_wait}
use graphrun.Domain.Follow.{fail_scope, close_pending_waits, close_each}
use graphrun.Domain.Claims.{sort_by, insert_by}
use graphrun.Domain.Cancel.{
  decide_abandon_compensation, abandon, abandonment, cancellation, decide_cancel, cancel_open,
  open_sagas, unresolved_of, root_of,
}
use graphrun.Domain.Cancel.Abandoned.{IsAbandoned, decide_abandon_compensation-IsAbandoned}
use graphrun.Domain.Cancel.Ends.{HasOpenRoot, Ended, decide_cancel-Ended}
use graphrun.Examples.Claims.{ext, idle, run, root_scope}
use graphrun.Examples.SagaRuns.{owing, ids}

abbrev pub given_up : FailError
given_up = abandonment ext (100 ∷ 101 ∷ [])

abbrev pub abandoning : List DomainEvent
abandoning =
    compensation_abandoned 1 "gone" (100 ∷ 101 ∷ [])
    ∷ scope_failed 1 10 given_up
    ∷ run_failed 1 given_up
    ∷ []

abbrev pub abandoned_state : State
abandoned_state =
    fail_run (fail_scope_state (abandon_compensation owing 1 (100 ∷ 101 ∷ [])) 10 given_up) 1
      given_up

the_abandonment : decide_abandon_compensation ext owing 1 "gone" ≡ ok abandoning
unfolding decide_abandon_compensation abandon unresolved_of root_of Map.get Map.values find filter
    fail_scope close_pending_waits close_each sort_by
the_abandonment = refl

it_applies : apply_events owing abandoning ≡ ok abandoned_state
unfolding apply_events event_owner evolve
it_applies = refl

known_run : Map.get 1 owing.runs ≡ some run
unfolding Map.get
known_run = refl

decide_abandon_compensation-IsAbandoned_example : IsAbandoned 1 owing abandoned_state
decide_abandon_compensation-IsAbandoned_example =
    decide_abandon_compensation-IsAbandoned ext owing abandoned_state 1 "gone" run abandoning
      known_run refl the_abandonment it_applies

-- A wait of the run that is open.
abbrev pub paid_wait : WaitState
paid_wait = record {
  id = 30;
  run = 1;
  activation = 100;
  signal = "paid";
  key = "k";
  deadline_ms = none;
  consume_from = ConsumeFrom.buffered;
  opened_sequence = 1;
  pending = true;
}

abbrev pub waits : State
waits = record idle { waits = (30, paid_wait) ∷ [] }

abbrev pub stopped : FailError
stopped = cancellation ext "stop"

abbrev pub stopping : List DomainEvent
stopping = wait_cancelled 1 30 ∷ scope_failed 1 10 stopped ∷ run_failed 1 stopped ∷ []

abbrev pub stopped_state : State
stopped_state =
    fail_run (fail_scope_state (end_wait waits 30 ActivationStatus.failed) 10 stopped) 1 stopped

the_cancellation : decide_cancel ext waits 1 "stop" ids ≡ ok (stopping, ids)
unfolding decide_cancel cancel_open open_sagas root_of Map.get Map.values find filter fail_scope
    close_pending_waits close_each sort_by insert_by node_at lookup_region climb node_of
the_cancellation = refl

stopping_applies : apply_events waits stopping ≡ ok stopped_state
unfolding apply_events event_owner evolve
stopping_applies = refl

no_saga : open_sagas waits 1 ≡ []
unfolding open_sagas Map.values filter node_at lookup_region climb Map.get node_of
no_saga = refl

runs_on : HasOpenRoot waits 1
unfolding root_of Map.values find Map.get
runs_on = record { root = root_scope; is_root_scope = refl; stored = refl; runs_on = refl }

decide_cancel-Ended_example : Ended 1 stopped stopped_state
decide_cancel-Ended_example =
    decide_cancel-Ended ext waits stopped_state 1 "stop" ids run (stopping, ids) known_run no_saga
      runs_on the_cancellation stopping_applies
