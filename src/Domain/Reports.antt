-- ===== src/Domain/Reports.antt =====
-- graphrun/src/domain.rs: the commands that report the result, the failure or the reconciliation
-- of an activation, and which failures are tried again.
mod Kept
pub mod Once
pub mod Probes
pub mod Retries
use graphrun.Prelude.{
  ℕ, String, Bool, true, false, not, ◌&&◌, Option, none, some, List, [], ◌∷◌, ◌==◌, max, nat_eq,
  string_eq, ltb, leb, if◌then◌else◌, is_some, is_some_and, contains, saturating_add_32, join_text,
}
use graphrun.Map
use graphrun.Error.{
  Result, ok, to_option, or_fail, refuse_if, unwrap, invalid_argument, failed_precondition, ◌>>=◌,
  ◌>>◌,
}
use graphrun.Limits.{reconciliation_probes}
use graphrun.Value.{Value}
use graphrun.Ids.{compensation, reconciliation, role_eq, activity_key}
use graphrun.Policy.{RetryPolicy, compensation_default}
use graphrun.Ir.{Compensation}
use graphrun.Catalog.{ActivityContract, activity, known_code, retryable_codes}
use graphrun.Externals.{Externals, IdGen}
use graphrun.Domain.Event.{
  DomainEvent, ReconcileOutcome, applied, not_applied, unknown, leaf_failed, claim_cleared,
  obligation_blocked, reconciliation_recorded, intervention_required,
}
use graphrun.Domain.State.{State, RunState, ActivationState, ClaimState, Obligation, is_ready}
use graphrun.Domain.Contract.{forward_policy, compensation_at}
use graphrun.Domain.Evolve.Claims.{is_unknown}
use graphrun.Domain.Sessions.{Decision}
use graphrun.Domain.Ready.{run_is_aborting}
use graphrun.Domain.Follow.{fail_scope}
use graphrun.Domain.Owners.{validate_claim_owner}
use graphrun.Domain.Leaves.{compensated, validate_leaf_output, report_success}

-- A code that the contract knows as one to retry.
unfoldable pub is_retryable_code : ActivityContract → String → Bool
is_retryable_code contract code = is_some_and (known_code contract code) (λ spec. spec.retryable)

-- A policy that lists the code and has an attempt left.
abbrev pub allows : RetryPolicy → ℕ → String → Bool
allows policy attempts code =
    contains policy.errors code && ltb (max attempts 1) policy.max_attempts

abbrev pub retries_with : ℕ → String → ActivityContract × RetryPolicy → Bool
retries_with attempts code p = is_retryable_code p.0 code && allows p.1 attempts code

unfoldable pub forward_error_retryable : State → ActivationState → String → Bool
unfolding forward_policy is_retryable_code
forward_error_retryable s act code =
    is_some_and (forward_policy s act) (retries_with act.attempts code)

unfoldable pub obligation_handler_retryable : RunState → Obligation → String → Bool
unfolding is_retryable_code
obligation_handler_retryable run o code =
    is_some_and (to_option (activity run.catalog (activity_key o.handler o.handler_version)))
      (λ contract. is_retryable_code contract code)

abbrev policy_or_default : ActivityContract → Option RetryPolicy → RetryPolicy
policy_or_default contract none = compensation_default (retryable_codes contract)
policy_or_default contract (some policy) = policy

-- The node's own compensation is the one that names the policy; `other` is the answer without one.
unfoldable pub compensation_retryable : RunState → Option Compensation → ℕ → String → Bool → Bool
unfolding is_retryable_code
compensation_retryable run (some (Compensation.activity key input timeout retry)) attempts code
      other =
    is_some_and (to_option (activity run.catalog key)) (λ contract.
      is_retryable_code contract code && allows (policy_or_default contract retry) attempts code)
compensation_retryable run _ attempts code other = other

unfoldable pub compensation_error_retryable : State → ℕ → String → Bool
unfolding compensation_retryable obligation_handler_retryable compensation_at compensated
compensation_error_retryable s activation code =
    is_some_and (Map.get activation s.activations) (λ act.
      is_some_and (Map.get act.run s.runs) (λ run. is_some_and (compensated s activation) (λ o.
        compensation_retryable run (compensation_at s o.forward) act.attempts code
          (obligation_handler_retryable run o code))))

-- The leaf that a result is for.
unfoldable pub awaiting : State → ℕ → ℕ → Result ActivationState
awaiting s run activation = do
  act ← or_fail (Map.get activation s.activations) invalid_argument "unknown activation"
  refuse_if (not (act.run == run)) invalid_argument "activation does not belong to run"
  refuse_if (not (is_ready act.status)) invalid_argument "activation is not awaiting a result"
  ok act

abbrev blocked_events : ℕ → String → String → Option Obligation → List DomainEvent
blocked_events run code message none = []
blocked_events run code message (some o) =
    obligation_blocked run o.forward o.handler o.handler_version
      (join_text code (join_text ": " message))
    ∷ []

abbrev pub failed_leaf : ℕ → ℕ → ActivationState → String → String → Bool → DomainEvent
failed_leaf run activation act code message retry =
    leaf_failed run activation (max act.attempts 1) code message retry

unfoldable pub report_compensation_error :
    State → ℕ → ℕ → ActivationState → String → String → Decision
unfolding compensation_error_retryable compensated
report_compensation_error s run activation act code message =
    let retry = compensation_error_retryable s activation code in
    failed_leaf run activation act code message retry
    ∷ (if retry
        then claim_cleared activation ∷ []
        else blocked_events run code message (compensated s activation))

unfoldable pub report_forward_error :
    State → ℕ → ℕ → ActivationState → String → String → Result Decision
unfolding forward_error_retryable
report_forward_error s run activation act code message = do
  let retry = forward_error_retryable s act code
  let failure = failed_leaf run activation act code message retry
  let final = do
    events ← fail_scope s act.scope (record { code = code; message = message })
    ok (failure ∷ events)
  if retry then ok (failure ∷ claim_cleared activation ∷ []) else final

unfoldable pub decide_report_error : State → ℕ → ℕ → String → String → Result Decision
unfolding awaiting report_compensation_error report_forward_error
decide_report_error s run activation code message = do
  act ← awaiting s run activation
  let final = report_forward_error s run activation act code message
  let undone = report_compensation_error s run activation act code message
  if act.role == compensation then ok undone else final

-- A claim whose lease still runs is only reported on by its owner.
abbrev live_claim : ℕ → Option ClaimState → Bool
live_claim time none = false
live_claim time (some claim) = ltb time claim.lease_expiry_ms

module _ (ext : Externals) where
  unfoldable pub decide_report : State → ℕ → ℕ → Value → ℕ → IdGen → Result (Decision × IdGen)
  unfolding awaiting
  decide_report s run activation output time ids = do
    act ← awaiting s run activation
    refuse_if (live_claim time act.claim) failed_precondition "activation is claimed"
    report_success ext s run activation output ids

  unfoldable pub decide_report_assigned :
      State → ℕ → ℕ → Value → ℕ → ℕ → ℕ → ℕ → IdGen → Result (Decision × IdGen)
  decide_report_assigned s run activation output session generation revision time ids = do
    claim ← validate_claim_owner s run activation session generation revision time
    refuse_if (claim.role == reconciliation) failed_precondition
        "reconciliation claim must use reconcile"
    report_success ext s run activation output ids

  abbrev validate_output : State → ActivationState → Option Value → Result (Unit {0})
  validate_output s act none = ok tt
  validate_output s act (some output) = validate_leaf_output ext s act output

  abbrev is_applied : ReconcileOutcome → Bool
  is_applied applied = true
  is_applied _ = false

  abbrev differ : Bool → Bool → Bool
  differ true b = not b
  differ false b = b

  abbrev pub not_applied_message : String
  not_applied_message = "forward effect conclusively did not apply"

  -- What follows the record of a probe.
  unfoldable pub after_probe :
      State
      → ℕ
      → ℕ
      → ActivationState
      → ReconcileOutcome
      → Option Value
      → ℕ
      → IdGen
      → Result (Decision × IdGen)
  after_probe s run activation act applied output probes ids = do
    value ← unwrap output
    report_success ext s run activation value ids
  after_probe s run activation act not_applied output probes ids = ok (
    claim_cleared activation
        ∷ (if run_is_aborting s run
            then failed_leaf run activation act "not_applied" not_applied_message false ∷ []
            else []),
    ids,
  )
  after_probe s run activation act unknown output probes ids = ok (
    if leb reconciliation_probes probes
        then intervention_required run activation "reconciliation probes exhausted"
          ∷ claim_cleared activation
          ∷ []
        else [],
    ids,
  )

  unfoldable pub decide_reconcile :
      State
      → ℕ
      → ℕ
      → ℕ
      → ℕ
      → ℕ
      → ReconcileOutcome
      → Option Value
      → ℕ
      → IdGen
      → Result (Decision × IdGen)
  unfolding awaiting after_probe
  decide_reconcile s run activation session generation revision outcome output time ids = do
    act ← awaiting s run activation
    claim ← validate_claim_owner s run activation session generation revision time
    refuse_if (not (claim.role == reconciliation)) failed_precondition
        "claim is not a reconciliation probe"
    refuse_if (differ (is_applied outcome) (is_some output)) invalid_argument
        "applied reconciliation requires output; other outcomes forbid it"
    validate_output s act output
    refuse_if (is_unknown outcome && claim.unknown_reported) failed_precondition
        "unknown reconciliation already reported for claim"
    let probes = saturating_add_32 claim.probes 1
    r ← after_probe s run activation act outcome output probes ids
    ok (reconciliation_recorded run activation outcome output probes ∷ r.0, r.1)
