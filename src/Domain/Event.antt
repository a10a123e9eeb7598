-- ===== src/Domain/Event.antt =====
-- graphrun/src/domain.rs: the events of the engine. Constructor arguments stand in the order of
-- the source's fields; the longest events carry a record.
use graphrun.Prelude.{ℕ, String, Bool, Option, List}
use graphrun.Value.{Value}
use graphrun.Ids.{ExecutionRole}
use graphrun.Ir.{ConsumeFrom, FailError}
use graphrun.Policy.{CapturedRunPolicy}

pub data ScopeRole : Type 0 where
  root : ScopeRole
  loop_body foreach_item : ℕ → ℕ → ScopeRole
  parallel_branch choose_body : ℕ → String → ScopeRole
  saga_body : ℕ → ScopeRole

pub data ReconcileOutcome : Type 0 where
  applied not_applied unknown : ReconcileOutcome

-- worker_contract.rs.
pub record WorkerCapability : Type 0 where
  pub activity_name : String
  pub activity_version : ℕ
  pub role : ExecutionRole
  pub codec_version : ℕ
  pub input_schema_digest : String
  pub output_schema_digest : String
  pub contract_digest : String

pub record Admission : Type 0 where
  pub run : ℕ
  pub definition_id : String
  pub definition_version : ℕ
  pub input : Value
  pub root : ℕ
  pub policy : CapturedRunPolicy
  pub admitted_ms : ℕ

pub record WaitOpening : Type 0 where
  pub run : ℕ
  pub wait : ℕ
  pub activation : ℕ
  pub signal : String
  pub key : String
  pub deadline_ms : Option ℕ
  pub consume_from : ConsumeFrom

pub record Acceptance : Type 0 where
  pub run : ℕ
  pub event_id : ℕ
  pub signal : String
  pub key : String
  pub payload : Value
  pub sequence : ℕ
  pub accepted_ms : ℕ
  pub expires_ms : ℕ

pub record CompensationStart : Type 0 where
  pub run : ℕ
  pub saga : ℕ
  pub forward : ℕ
  pub activation : ℕ
  pub handler : String
  pub handler_version : ℕ
  pub input : Value
  pub error : FailError

pub record WorkerRegistration : Type 0 where
  pub session : ℕ
  pub principal_id : String
  pub capabilities : List WorkerCapability
  pub capacity : ℕ
  pub protocol_min : ℕ
  pub protocol_max : ℕ
  pub expires_ms : ℕ

pub record Grant : Type 0 where
  pub run : ℕ
  pub scope : ℕ
  pub activation : ℕ
  pub handler : String
  pub handler_version : ℕ
  pub input : Value
  pub attempt : ℕ
  pub session : ℕ
  pub generation : ℕ
  pub revision : ℕ
  pub lease_expiry_ms : ℕ
  pub attempt_deadline_ms : ℕ
  pub effect_key : ℕ
  pub role : ExecutionRole

pub data DomainEvent : Type 0 where
  run_admitted : Admission → DomainEvent
  scope_opened : ℕ → ℕ → Option ℕ → ScopeRole → Value → DomainEvent
  scope_completed : ℕ → ℕ → Value → DomainEvent
  scope_failed : ℕ → ℕ → FailError → DomainEvent
  activation_opened : ℕ → ℕ → ℕ → String → DomainEvent
  node_output_recorded : ℕ → ℕ → String → Value → DomainEvent
  guard_recorded : ℕ → ℕ → Bool → ℕ → Value → DomainEvent
  leaf_succeeded : ℕ → ℕ → ℕ → Value → ExecutionRole → DomainEvent
  leaf_failed : ℕ → ℕ → ℕ → String → String → Bool → DomainEvent
  wait_opened : WaitOpening → DomainEvent
  wait_satisfied : ℕ → ℕ → ℕ → Value → DomainEvent
  wait_timed_out wait_cancelled : ℕ → ℕ → DomainEvent
  event_accepted : Acceptance → DomainEvent
  event_reserved reservation_released : ℕ → ℕ → DomainEvent
  event_expired : ℕ → ℕ → DomainEvent
  obligation_registered : ℕ → ℕ → String → ℕ → Value → DomainEvent
  obligation_blocked : ℕ → ℕ → String → ℕ → String → DomainEvent
  compensation_started : CompensationStart → DomainEvent
  obligation_transferred : ℕ → ℕ → ℕ → DomainEvent
  obligation_released : ℕ → ℕ → DomainEvent
  session_registered : ℕ → List String → ℕ → ℕ → DomainEvent
  worker_registered : WorkerRegistration → DomainEvent
  worker_session_renewed : ℕ → ℕ → ℕ → DomainEvent
  claim_granted : Grant → DomainEvent
  claim_renewed : ℕ → ℕ → ℕ → ℕ → ℕ → DomainEvent
  claim_cleared : ℕ → DomainEvent
  reconciliation_recorded : ℕ → ℕ → ReconcileOutcome → Option Value → ℕ → DomainEvent
  reconciliation_failed : ℕ → ℕ → String → String → DomainEvent
  intervention_required : ℕ → ℕ → String → DomainEvent
  run_succeeded : ℕ → Value → DomainEvent
  run_failed : ℕ → FailError → DomainEvent
  recovery_authorized : String → DomainEvent
  abort_intent : ℕ → ℕ → FailError → DomainEvent
  compensation_abandoned : ℕ → String → List ℕ → DomainEvent
