-- ===== src/Domain.antt =====
-- graphrun/src/domain.rs: the deterministic state machine behind the engine.
pub mod Event
pub mod State
pub mod Region
pub mod Evolve
pub mod Eval
pub mod Contract
pub mod Sessions
pub mod Ready
pub mod Claims
pub mod Owners
pub mod Follow
pub mod Sagas
pub mod Signals
pub mod Leaves
pub mod Reports
pub mod Cancel
pub mod Progress
pub mod Commands
pub mod Tombstones
