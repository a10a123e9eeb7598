-- ===== src/Domain/State.antt =====
-- graphrun/src/domain.rs: the replicated state, without its receipts, publications and histories.
use graphrun.Prelude.{ℕ, String, Bool, Option, List, true, false, is_some_and, not}
use graphrun.Map.{Map}
use graphrun.Value.{Value}
use graphrun.Ids.{ExecutionRole}
use graphrun.Ir.{ConsumeFrom, FailError, Definition}
use graphrun.Policy.{CapturedRunPolicy}
use graphrun.Catalog.{Catalog}
use graphrun.Domain.Event.{ScopeRole, WorkerCapability}

pub data RunStatus : Type 0 where
  active : RunStatus
  succeeded : Value → RunStatus
  failed : FailError → RunStatus

pub record RunState : Type 0 where
  pub id : ℕ
  pub definition : Definition
  pub catalog : Catalog
  pub input : Value
  pub policy : CapturedRunPolicy
  pub status : RunStatus
  pub root : ℕ
  pub next_sequence : ℕ
  pub next_ready_order : ℕ
  pub admitted_ms : ℕ
  pub terminal_ms : ℕ

pub data ScopeStatus : Type 0 where
  opened : ScopeStatus
  completed : Value → ScopeStatus
  failed : FailError → ScopeStatus

pub record ScopeState : Type 0 where
  pub id : ℕ
  pub run : ℕ
  pub parent : Option ℕ
  pub role : ScopeRole
  pub input : Value
  pub status : ScopeStatus
  pub outputs : Map String Value
  pub current : Option String

pub data ActivationStatus : Type 0 where
  opened ready succeeded failed : ActivationStatus

pub record ClaimState : Type 0 where
  pub session : ℕ
  pub generation : ℕ
  pub revision : ℕ
  pub lease_expiry_ms : ℕ
  pub attempt_deadline_ms : ℕ
  pub effect_key : ℕ
  pub role : ExecutionRole
  pub probes : ℕ
  pub unknown_reported : Bool

pub record ActivationState : Type 0 where
  pub id : ℕ
  pub run : ℕ
  pub scope : ℕ
  pub node : String
  pub status : ActivationStatus
  pub role : ExecutionRole
  pub claim : Option ClaimState
  pub attempts : ℕ
  pub ready_order : ℕ

pub record WorkerSession : Type 0 where
  pub id : ℕ
  pub activities : List String
  pub capacity : ℕ
  pub expires_ms : ℕ
  pub principal_id : String
  pub capabilities : List WorkerCapability
  pub revision : ℕ
  pub protocol_min : ℕ
  pub protocol_max : ℕ

pub data ObligationStatus : Type 0 where
  opened : ObligationStatus
  compensating : ℕ → ObligationStatus
  compensated released : ObligationStatus
  blocked irreversible : String → ObligationStatus
  abandoned : ObligationStatus

pub record Obligation : Type 0 where
  pub forward : ℕ
  pub run : ℕ
  pub owner : ℕ
  pub handler : String
  pub handler_version : ℕ
  pub input : Value
  pub status : ObligationStatus

pub record WaitState : Type 0 where
  pub id : ℕ
  pub run : ℕ
  pub activation : ℕ
  pub signal : String
  pub key : String
  pub deadline_ms : Option ℕ
  pub consume_from : ConsumeFrom
  pub opened_sequence : ℕ
  pub pending : Bool

pub record InboxEntry : Type 0 where
  pub event_id : ℕ
  pub signal : String
  pub key : String
  pub payload : Value
  pub sequence : ℕ
  pub reserved_wait : Option ℕ
  pub consumed : Bool
  pub accepted_ms : ℕ
  pub expires_ms : ℕ
  pub run : Option ℕ

pub record RecoveryHold : Type 0 where
  pub reason : String
  pub authorized : Bool

pub record State : Type 0 where
  pub runs : Map ℕ RunState
  pub scopes : Map ℕ ScopeState
  pub activations : Map ℕ ActivationState
  pub waits : Map ℕ WaitState
  pub inbox : List InboxEntry
  pub loop_carry : Map ℕ (Value × ℕ)
  pub foreach_items : Map ℕ (List Value)
  pub foreach_done : Map ℕ (List (ℕ × Value))
  pub parallel_done : Map ℕ (Map String Value)
  pub obligations : List Obligation
  pub saga_errors : Map ℕ FailError
  pub sessions : Map ℕ WorkerSession
  pub next_generation : ℕ
  pub fair_cursor : Option ℕ
  pub interventions : Map ℕ String
  pub recovery : Option RecoveryHold

-- `matches!` on the status of an activation, a run, a scope or an obligation.
abbrev pub is_ready : ActivationStatus → Bool
is_ready ActivationStatus.ready = true
is_ready _ = false

abbrev pub is_opened : ActivationStatus → Bool
is_opened ActivationStatus.opened = true
is_opened _ = false

abbrev pub has_succeeded : ActivationStatus → Bool
has_succeeded ActivationStatus.succeeded = true
has_succeeded _ = false

abbrev pub is_active : RunStatus → Bool
is_active RunStatus.active = true
is_active _ = false

abbrev pub is_opened_scope : ScopeStatus → Bool
is_opened_scope ScopeStatus.opened = true
is_opened_scope _ = false

abbrev pub is_root : ScopeRole → Bool
is_root ScopeRole.root = true
is_root _ = false

-- `execution_suspended`.
unfoldable pub execution_suspended : State → Bool
execution_suspended s = is_some_and s.recovery (λ hold. not hold.authorized)
