-- ===== src/Domain/Sagas.antt =====
-- graphrun/src/domain.rs: how a saga compensates, fails, or settles.
pub mod Order
pub mod Settle
use graphrun.Prelude.{
  ℕ, String, Bool, true, false, not, ◌&&◌, Option, none, some, List, [], ◌∷◌, ◌++◌, map, ◌==◌,
  nat_eq, if◌then◌else◌, any, filter, last?,
}
use graphrun.Map
use graphrun.Error.{Result, ok, err, panic, unwrap, or_fail, invalid_argument, ◌>>=◌}
use graphrun.Ir.{FailError}
use graphrun.Externals.{Externals, IdGen, next_id}
use graphrun.Domain.Event.{
  DomainEvent, intervention_required, abort_intent, compensation_started, obligation_transferred,
  obligation_released,
}
use graphrun.Domain.State.{State, ActivationState, Obligation, ObligationStatus}
use graphrun.Domain.Region.{parent_saga}
use graphrun.Domain.Ready.{uncertain_forwards}
use graphrun.Domain.Follow.{fail_scope}

abbrev pub is_open : ObligationStatus → Bool
is_open ObligationStatus.opened = true
is_open _ = false

abbrev pub is_compensating : ObligationStatus → Bool
is_compensating (ObligationStatus.compensating a) = true
is_compensating _ = false

abbrev pub is_blocked : ObligationStatus → Bool
is_blocked (ObligationStatus.blocked reason) = true
is_blocked _ = false

abbrev pub is_irreversible : ObligationStatus → Bool
is_irreversible (ObligationStatus.irreversible reason) = true
is_irreversible _ = false

-- An obligation of the saga, in a status.
abbrev pub owned_in : (ObligationStatus → Bool) → ℕ → Obligation → Bool
owned_in status saga o = o.owner == saga && status o.status

unfoldable pub compensating_in_flight : State → ℕ → Bool
compensating_in_flight s saga = any (owned_in is_compensating saga) s.obligations

-- The error of a saga with nothing left to compensate.
abbrev pub final_error : State → ℕ → FailError → FailError
final_error s saga error =
    if any (owned_in is_irreversible saga) s.obligations
    then record { code = "saga.irreversible"; message = error.message }
    else error

unfoldable pub nothing_pending : State → ℕ → ActivationState → FailError → Result (List DomainEvent)
nothing_pending s saga act error =
    if uncertain_forwards s act.run
    then ok
        (if Map.contains_key saga s.saga_errors then [] else abort_intent act.run saga error ∷ [])
    else fail_scope s act.scope (final_error s saga error)

module _ (ext : Externals) where
  -- The last of the open obligations is compensated first.
  unfoldable pub compensate_next :
      State
      → ℕ
      → ActivationState
      → FailError
      → IdGen
      → Option Obligation
      → Result (List DomainEvent × IdGen)
  unfolding nothing_pending
  compensate_next s saga act error ids none = do
    events ← nothing_pending s saga act error
    ok (events, ids)
  compensate_next s saga act error ids (some o) =
      let (activation, rest) = next_id ext ids in
      ok (
        compensation_started (record {
          run = act.run;
          saga = saga;
          forward = o.forward;
          activation = activation;
          handler = o.handler;
          handler_version = o.handler_version;
          input = o.input;
          error = error;
        })
            ∷ [],
        rest,
      )

  unfoldable pub compensate_or_fail :
      State → ℕ → FailError → IdGen → Result (List DomainEvent × IdGen)
  unfolding compensate_next
  compensate_or_fail s saga error ids = do
    act ← or_fail (Map.get saga s.activations) invalid_argument "unknown saga"
    let blocked = any (owned_in is_blocked saga) s.obligations
    let stop = intervention_required act.run saga "compensation input is blocked" ∷ []
    let next =
        compensate_next s saga act error ids (last? (filter (owned_in is_open saga) s.obligations))
    if blocked then ok (stop, ids) else next

abbrev pub hand_over : State → ℕ → Option ℕ → List ℕ → List DomainEvent
hand_over s saga (some parent) owned = map (λ o. obligation_transferred o saga parent) owned
hand_over s saga none owned = elim (Map.get saga s.activations) [
  | none ↦ []
  | some act ↦ map (λ o. obligation_released act.run o) owned
]

-- The open obligations of a saga that succeeds go to the saga around it, or are released.
unfoldable pub settle_saga_success : State → ℕ → List DomainEvent
settle_saga_success s saga =
    hand_over s saga (parent_saga s saga)
      (map (λ o. o.forward) (filter (owned_in is_open saga) s.obligations))
