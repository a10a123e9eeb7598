-- ===== src/Examples/SagaRuns.antt =====
-- A saga with two open obligations: what it compensates first, and how it settles.
use graphrun.Prelude.{
  ◌≡◌, refl, false, none, some, [], ◌∷◌, pos, nat_eq, filter, any, last?, contains, All,
}
use graphrun.Map
use graphrun.Error.{ok}
use graphrun.Value.{Value}
use graphrun.Ir.{FailError}
use graphrun.Externals.{IdGen, next_id, be_bytes, le_bytes, digest16, from_be}
use graphrun.Domain.Event.{CompensationStart, compensation_started}
use graphrun.Domain.State.{State, ActivationState, ActivationStatus, Obligation, ObligationStatus}
use graphrun.Domain.Evolve.{apply_events}
use graphrun.Domain.Sagas.{
  compensate_or_fail, compensate_next, settle_saga_success, owned_in, is_open,
}
use graphrun.Domain.Sagas.Order.{IsNextCompensation, compensate_or_fail-IsNextCompensation}
use graphrun.Domain.Sagas.Settle.{settle_saga_success-settles}
use graphrun.Examples.Claims.{ext, idle, waiting}

abbrev pub saga : ActivationState
saga = record waiting { id = 50; node = "both"; status = ActivationStatus.opened; claim = none }

abbrev pub refund : Obligation
refund = record {
  forward = 100;
  run = 1;
  owner = 50;
  handler = "refund";
  handler_version = 1;
  input = Value.int (pos 5);
  status = ObligationStatus.opened;
}

abbrev pub unship : Obligation
unship = record refund { forward = 101; handler = "unship"; input = Value.int (pos 6) }

abbrev pub owing : State
owing = record idle {
  activations = (50, saga) ∷ idle.activations;
  obligations = refund ∷ unship ∷ [];
}

abbrev pub broken : FailError
broken = record { code = "charge.failed"; message = "no funds" }

abbrev pub ids : IdGen
ids = record { command = 9; n = 0 }

-- The later of the two.
abbrev pub undo : CompensationStart
undo = record {
  run = 1;
  saga = 50;
  forward = 101;
  activation = 9;
  handler = "unship";
  handler_version = 1;
  input = Value.int (pos 6);
  error = broken;
}

the_compensation :
    compensate_or_fail ext owing 50 broken ids
    ≡ ok (compensation_started undo ∷ [], record { command = 9; n = 1 })
unfolding compensate_or_fail compensate_next next_id digest16 be_bytes le_bytes from_be Map.get
    filter any last?
the_compensation = refl

compensate_or_fail-IsNextCompensation_example : IsNextCompensation owing 50 undo
compensate_or_fail-IsNextCompensation_example =
    compensate_or_fail-IsNextCompensation ext owing 50 broken ids undo
      (record { command = 9; n = 1 }) the_compensation

the_saga : Map.get 50 owing.activations ≡ some saga
unfolding Map.get
the_saga = refl

settle_saga_success-settles_example :
    (t : State) × (apply_events owing (settle_saga_success owing 50) ≡ ok t)
    × All (λ o. owned_in is_open 50 o ≡ false) t.obligations
settle_saga_success-settles_example =
    settle_saga_success-settles owing 50 saga the_saga (unfold contains in (refl, (refl, tt)))
