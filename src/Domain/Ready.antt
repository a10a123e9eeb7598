-- ===== src/Domain/Ready.antt =====
-- graphrun/src/domain.rs: which activations of a run wait for a worker, and in which role.
use graphrun.Prelude.{
  ℕ, Bool, true, false, not, ◌&&◌, ◌||◌, Option, none, some, List, map, ◌==◌, nat_eq, option_eq,
  string_eq, ltb, leb, if◌then◌else◌, is_some, is_some_and, any, all, filter, length,
  saturating_add,
}
use graphrun.Map
use graphrun.Ids.{ExecutionRole, forward, compensation, reconciliation, role_eq}
use graphrun.Catalog.{Recovery, manual, retry_safe, ActivityContract}
use graphrun.WorkerContract.{capability_eq}
use graphrun.Domain.State.{State, ActivationState, ClaimState, is_ready, is_active}
use graphrun.Domain.Contract.{contract_of}

unfoldable pub active_runs : State → List ℕ
active_runs s = map (λ r. r.id) (filter (λ r. is_active r.status) (Map.values s.runs))

abbrev pub no_pending_wait : State → ActivationState → Bool
no_pending_wait s act =
    all (λ w. not (w.activation == act.id) || not w.pending) (Map.values s.waits)

unfoldable pub ready_activations : State → ℕ → List ℕ
ready_activations s run =
    map (λ act. act.id)
      (filter (no_pending_wait s)
        (filter (λ act. act.run == run && is_ready act.status) (Map.values s.activations)))

abbrev pub lease_over : Option ClaimState → ℕ → Bool
lease_over none time = true
lease_over (some claim) time = leb claim.lease_expiry_ms time

unfoldable pub is_unclaimed : State → ℕ → ℕ → Bool
is_unclaimed s time id =
    if Map.contains_key id s.interventions
    then false
    else is_some_and (Map.get id s.activations) (λ act. lease_over act.claim time)

unfoldable pub unclaimed_ready : State → ℕ → ℕ → List ℕ
unfolding ready_activations is_unclaimed
unclaimed_ready s run time = filter (is_unclaimed s time) (ready_activations s run)

abbrev pub has_live_claim : ℕ → ℕ → ActivationState → Bool
has_live_claim session time act =
    is_ready act.status
    && is_some_and act.claim (λ c. c.session == session && ltb time c.lease_expiry_ms)

-- The claims that a session holds. The source counts them in 32 bits.
unfoldable pub worker_in_flight : State → ℕ → ℕ → ℕ
worker_in_flight s session time =
    length (filter (has_live_claim session time) (Map.values s.activations))

unfoldable pub run_is_aborting : State → ℕ → Bool
run_is_aborting s run =
    any (λ saga. is_some_and (Map.get saga s.activations) (λ act. act.run == run))
      (Map.keys s.saga_errors)

abbrev past_timeout : Option ℕ → ℕ → ℕ → Bool
past_timeout none admitted time = false
past_timeout (some ms) admitted time =
    if admitted == 0 then false else leb (saturating_add admitted ms) time

unfoldable pub run_past_deadline : State → ℕ → ℕ → Bool
run_past_deadline s run time =
    is_some_and (Map.get run s.runs) (λ r. past_timeout r.policy.run_timeout_ms r.admitted_ms time)

unfoldable pub uncertain_forwards : State → ℕ → Bool
uncertain_forwards s run =
    any
      (λ act.
        act.run == run
        && (act.role == forward
            && (is_ready act.status
                && (is_some act.claim || Map.contains_key act.id s.interventions))))
      (Map.values s.activations)

abbrev is_manual : Recovery → Bool
is_manual manual = true
is_manual retry_safe = false

abbrev role_of_contract : Bool → Option ActivityContract → ExecutionRole
role_of_contract aborting none = forward
role_of_contract aborting (some contract) =
    if not (is_some contract.reconciler)
    then forward
    else if is_manual contract.recovery || aborting
    then reconciliation
    else forward

-- The role in which a claim on the activation is granted.
unfoldable pub grant_role : State → ActivationState → ℕ → ExecutionRole
grant_role s act time =
    if act.role == compensation
    then compensation
    else if not (is_some_and act.claim (λ c. leb c.lease_expiry_ms time))
    then forward
    else role_of_contract (run_is_aborting s act.run) (contract_of s act)
