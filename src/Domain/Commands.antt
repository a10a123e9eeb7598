-- ===== src/Domain/Commands.antt =====
-- graphrun/src/domain.rs: commands, and the receipts that the state keeps of them. The bodies that
-- publication.rs, history.rs and the upgrade of formats read are without their contents.
pub mod Identity
pub mod Keys
pub mod Dispatch
pub mod Apply
pub mod Answers
pub mod Replay
use graphrun.Prelude.{ℕ, String, Option, List}
use graphrun.Map.{Map}
use graphrun.Value.{Value}
use graphrun.Ir.{Definition}
use graphrun.Catalog.{Catalog}
use graphrun.Domain.Event.{DomainEvent, ReconcileOutcome, WorkerCapability}
use graphrun.Domain.State.{State}

pub data WorkerResult : Type 0 where
  success : Value → WorkerResult
  error : String → String → WorkerResult

pub data WorkerProbe : Type 0 where
  observed : ReconcileOutcome → Option Value → WorkerProbe
  error : String → String → WorkerProbe

-- The claim that a worker speaks for: session, generation and revision.
pub record ClaimRef : Type 0 where
  pub session : ℕ
  pub generation : ℕ
  pub revision : ℕ

-- Constructor arguments stand in the order of the source's fields, a claim's three in a record.
pub data CommandBody : Type 0 where
  prepare_writer_format activate_writer_format : CommandBody
  authenticated : String → CommandBody → CommandBody
  publication prune_history : CommandBody
  start : ℕ → Definition → Value → Catalog → CommandBody
  report_leaf : ℕ → ℕ → Value → CommandBody
  report_error : ℕ → ℕ → String → String → CommandBody
  resolve_blocked : ℕ → ℕ → Value → CommandBody
  signal : ℕ → ℕ → String → String → Value → CommandBody
  resolve_timer : ℕ → ℕ → CommandBody
  progress : ℕ → CommandBody
  cancel : ℕ → String → CommandBody
  register_session : ℕ → List String → ℕ → CommandBody
  renew_local_session : ℕ → CommandBody
  register_worker : ℕ → String → List WorkerCapability → ℕ → ℕ → ℕ → CommandBody
  renew_worker_session : ℕ → ℕ → CommandBody
  claim : ℕ → ℕ → CommandBody
  renew : ℕ → ℕ → ℕ → ℕ → CommandBody
  report_assigned : ℕ → ℕ → Value → ClaimRef → CommandBody
  report_worker : ℕ → ℕ → ClaimRef → String → WorkerResult → CommandBody
  reconcile : ℕ → ℕ → ClaimRef → ReconcileOutcome → Option Value → CommandBody
  reconcile_worker : ℕ → ℕ → ClaimRef → String → WorkerProbe → CommandBody
  acknowledge_recovery : String → CommandBody
  abandon_compensation : ℕ → String → CommandBody

pub record Command : Type 0 where
  pub id : ℕ
  pub body : CommandBody
  pub time : ℕ

-- The fields of `State` that hold receipts.
pub record Receipts : Type 0 where
  pub commands : Map ℕ (List DomainEvent)
  pub command_actors : Map ℕ String
  pub command_external_ids : Map ℕ ℕ
  pub authenticated_request_digests : Map ℕ String
  pub worker_command_digests : Map ℕ String
  pub command_times : Map ℕ ℕ
  pub engine_time_watermark_ms : ℕ

-- The whole state, as far as commands change it.
pub record Machine : Type 0 where
  pub state : State
  pub receipts : Receipts
