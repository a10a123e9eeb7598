-- ===== src/Domain/Evolve.antt =====
-- graphrun/src/domain.rs: `event_owner`, `evolve` and `apply_events`, without the histories that
-- `apply_events` also writes, and without the errors of `io_references` and `append` that come with
-- them.
pub mod Scopes
pub mod Waits
pub mod Obligations
pub mod Claims
use graphrun.Prelude.{ℕ, nat_eq, Option, none, some, List, [], ◌∷◌, find}
use graphrun.Map
use graphrun.Error.{Result, ok, err, panic, failed_precondition, or_fail, ◌>>=◌}
use graphrun.Domain.Event.{
  DomainEvent, run_admitted, scope_opened, scope_completed, scope_failed, activation_opened,
  node_output_recorded, guard_recorded, leaf_succeeded, leaf_failed, wait_opened, wait_satisfied,
  wait_timed_out, wait_cancelled, event_accepted, event_reserved, reservation_released,
  event_expired, obligation_registered, obligation_blocked, compensation_started,
  obligation_transferred, obligation_released, session_registered, worker_registered,
  worker_session_renewed, claim_granted, claim_renewed, claim_cleared, reconciliation_recorded,
  reconciliation_failed, intervention_required, run_succeeded, run_failed, recovery_authorized,
  abort_intent, compensation_abandoned,
}
use graphrun.Domain.State.{State, ActivationStatus, ObligationStatus}
use Scopes.{
  admit, open_scope, complete, fail_scope_state, open_activation, record_output, record_guard,
  leaf_fails, leaf_succeeds, succeed_run, fail_run,
}
use Waits.{open_wait_state, end_wait, satisfy_wait, accept_event, expire_event, set_reservation}
use Obligations.{
  register_obligation, block_obligation, set_status, start_compensation, transfer_obligation,
  abandon_compensation, is_forward,
}
use Claims.{
  register_session, register_worker, renew_session, grant_claim, renew_claim, clear_claim,
  record_reconciliation, authorize_recovery,
}

abbrev owner_of_activation : State → ℕ → Result (Option ℕ)
owner_of_activation s activation = do
  act ←
      or_fail (Map.get activation s.activations) failed_precondition
        "claim lifecycle event has no activation"
  ok (some act.run)

abbrev owner_of_wait : State → ℕ → Result (Option ℕ)
owner_of_wait s wait = do
  w ← or_fail (Map.get wait s.waits) failed_precondition "signal reservation has no wait"
  ok (some w.run)

abbrev owner_of_obligation : State → ℕ → Result (Option ℕ)
owner_of_obligation s activation = do
  o ←
      or_fail (find (is_forward activation) s.obligations) failed_precondition
        "transferred obligation has no run"
  ok (some o.run)

unfoldable pub event_owner : State → DomainEvent → Result (Option ℕ)
event_owner s (run_admitted a) = ok (some a.run)
event_owner s (scope_opened run scope parent role input) = ok (some run)
event_owner s (scope_completed run scope output) = ok (some run)
event_owner s (scope_failed run scope error) = ok (some run)
event_owner s (activation_opened run scope activation node) = ok (some run)
event_owner s (node_output_recorded run scope node output) = ok (some run)
event_owner s (guard_recorded run activation result index carry) = ok (some run)
event_owner s (leaf_succeeded run activation attempt output role) = ok (some run)
event_owner s (leaf_failed run activation attempt code message retry) = ok (some run)
event_owner s (wait_opened w) = ok (some w.run)
event_owner s (wait_satisfied run wait event_id payload) = ok (some run)
event_owner s (wait_timed_out run wait) = ok (some run)
event_owner s (wait_cancelled run wait) = ok (some run)
event_owner s (event_accepted a) = ok (some a.run)
event_owner s (event_expired run event_id) = ok (some run)
event_owner s (obligation_registered run forward handler version input) = ok (some run)
event_owner s (obligation_blocked run forward handler version reason) = ok (some run)
event_owner s (compensation_started c) = ok (some c.run)
event_owner s (run_succeeded run output) = ok (some run)
event_owner s (run_failed run error) = ok (some run)
event_owner s (obligation_released run forward) = ok (some run)
event_owner s (claim_granted g) = ok (some g.run)
event_owner s (reconciliation_recorded run activation outcome output probes) = ok (some run)
event_owner s (reconciliation_failed run activation code message) = ok (some run)
event_owner s (intervention_required run activation reason) = ok (some run)
event_owner s (abort_intent run saga error) = ok (some run)
event_owner s (compensation_abandoned run reason unresolved) = ok (some run)
event_owner s (obligation_transferred forward from_saga to_saga) = owner_of_obligation s forward
event_owner s (claim_renewed activation session generation revision expiry) =
    owner_of_activation s activation
event_owner s (claim_cleared activation) = owner_of_activation s activation
event_owner s (event_reserved wait event_id) = owner_of_wait s wait
event_owner s (reservation_released wait event_id) = owner_of_wait s wait
event_owner s (session_registered session activities capacity expires_ms) = ok none
event_owner s (worker_registered w) = ok none
event_owner s (worker_session_renewed session revision expires_ms) = ok none
event_owner s (recovery_authorized reason) = ok none

unfoldable pub evolve : State → DomainEvent → Result State
evolve s (run_admitted a) = ok (admit s a)
evolve s (scope_opened run scope parent role input) = ok (open_scope s run scope parent role input)
evolve s (scope_completed run scope output) = ok (complete s scope output)
evolve s (scope_failed run scope error) = ok (fail_scope_state s scope error)
evolve s (activation_opened run scope activation node) = open_activation s run scope activation node
evolve s (node_output_recorded run scope node output) = ok (record_output s scope node output)
evolve s (guard_recorded run activation result index carry) =
    ok (record_guard s activation index carry)
evolve s (leaf_succeeded run activation attempt output role) = ok (leaf_succeeds s activation role)
evolve s (leaf_failed run activation attempt code message retry) =
    ok (leaf_fails s activation retry)
evolve s (wait_opened w) = ok (open_wait_state s w)
evolve s (wait_satisfied run wait event_id payload) = ok (satisfy_wait s run wait event_id)
evolve s (wait_timed_out run wait) = ok (end_wait s wait ActivationStatus.succeeded)
evolve s (wait_cancelled run wait) = ok (end_wait s wait ActivationStatus.failed)
evolve s (event_accepted a) = ok (accept_event s a)
evolve s (event_expired run event_id) = ok (expire_event s run event_id)
evolve s (event_reserved wait event_id) = ok (set_reservation s wait event_id (some wait))
evolve s (reservation_released wait event_id) = ok (set_reservation s wait event_id none)
evolve s (obligation_registered run forward handler version input) =
    ok (register_obligation s run forward handler version input)
evolve s (obligation_blocked run forward handler version reason) =
    ok (block_obligation s run forward handler version reason)
evolve s (compensation_started c) = start_compensation s c
evolve s (obligation_transferred forward from_saga to_saga) =
    ok (transfer_obligation s forward to_saga)
evolve s (obligation_released run forward) = ok (set_status s forward ObligationStatus.released)
evolve s (session_registered session activities capacity expires_ms) =
    ok (register_session s session activities capacity expires_ms)
evolve s (worker_registered w) = ok (register_worker s w)
evolve s (worker_session_renewed session revision expires_ms) =
    ok (renew_session s session revision expires_ms)
evolve s (claim_granted g) = ok (grant_claim s g)
evolve s (claim_renewed activation session generation revision expiry) =
    ok (renew_claim s activation revision expiry)
evolve s (claim_cleared activation) = ok (clear_claim s activation)
evolve s (reconciliation_recorded run activation outcome output probes) =
    ok (record_reconciliation s activation outcome probes)
evolve s (reconciliation_failed run activation code message) = ok s
evolve s (intervention_required run activation reason) =
    ok (record s { interventions = Map.insert activation reason s.interventions })
evolve s (run_succeeded run output) = ok (succeed_run s run output)
evolve s (run_failed run error) = ok (fail_run s run error)
evolve s (recovery_authorized reason) = ok (authorize_recovery s)
evolve s (abort_intent run saga error) =
    ok (record s { saga_errors = Map.insert saga error s.saga_errors })
evolve s (compensation_abandoned run reason unresolved) = ok (abandon_compensation s run unresolved)

unfoldable pub apply_events : State → List DomainEvent → Result State
unfolding event_owner evolve
apply_events s [] = ok s
apply_events s (e ∷ es) = do owner ← event_owner s e; t ← evolve s e; apply_events t es
