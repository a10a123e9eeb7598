-- ===== src/Lib.antt =====
-- graphrun runs workflows. A definition is a graph of nodes in nested regions; a replicated state
-- machine decides on commands and applies the events of its decisions; worker sessions claim the
-- activations that are ready, run them, and report. This library models the state machine and the
-- data it works on.
--
-- The parts, and the files that model them (paths of the source are from the repository's root):
--   - Domain/Event, Domain/State: the events and the state of graphrun/src/domain.rs. Maps are
--     association lists (Map), ids and 64-bit counters are numbers, saturating additions are written
--     out (Prelude/Words).
--   - Domain/Evolve and its children: `event_owner`, `evolve` and `apply_events`, one function for each
--     group of match arms: Scopes (runs, scopes, activations, leaf results), Waits (waits and the inbox),
--     Obligations (compensation), Claims (sessions and claims).
--   - Domain/Sessions, Domain/Claims, Domain/Owners, Domain/Ready, Domain/Contract: the decisions of graphrun/src/domain.rs
--     for workers: `decide_register`, `decide_register_worker`, `decide_renew_worker_session`,
--     `decide_acknowledge_recovery`, `decide_claim`, `decide_renew`, `validate_claim_owner`, and what they
--     ask of the state. A decision is a list of events or an error; `apply_events` applies it.
--   - Domain/Region, Domain/Follow, Domain/Eval: `lookup_region`, `saga_owner`, `open_node`, `follow_next`,
--     `fail_scope`, `eval_ctx`, `eval_binding` and `eval_condition`.
--   - Domain/Sagas: `compensate_or_fail` and `settle_saga_success`.
--   - Domain/Signals: `decide_signal`, `decide_timer`, `pending_wait` and `reserved_or_eligible`. What the
--     tombstone of a signal's event says is an argument of `decide_signal`.
--   - Domain/Tombstones: `ArtifactRef` and `SignalTombstone` of graphrun/src/history.rs, the tombstone
--     that `append` keeps of an accepted signal, `apply_noting`, which is `apply_events` with the
--     tombstones, and `tombstone_answer`, the argument of `decide_signal`. `hex::decode` is a parameter.
--   - Domain/Leaves, Domain/Reports, Domain/Cancel: the reports of results, failures and probes
--     (`decide_report`, `decide_report_assigned`, `decide_report_error`, `decide_reconcile`), and
--     `decide_cancel`, `decide_abandon_compensation` and `decide_resolve_blocked`.
--   - Domain/Progress and its children: `decide_progress` and `next_progress`; Bodies (scopes of a node and
--     its end), Loops (`progress_while`, `progress_repeat`), Items (`progress_foreach`), Branches
--     (`progress_parallel`, `progress_choose`, `progress_saga`), Due (`due_wait`, `open_wait`).
--     The ids of a command are passed on from step to step.
--   - Domain/Commands and its children: `CommandBody`, the receipts among the fields of `State`, the
--     identity of requests (Identity, with the names of principals of graphrun/src/tls.rs), `decide`
--     (Dispatch), `activity_key` (Keys) and `apply_command` (Apply). The derived serialisers of requests
--     are a parameter.
--   - Schedule: `RunSchedule` of graphrun/src/schedule.rs, which says when a run is looked at again.
--   - Clock: the monitor, the authority and `joint_quorum` of graphrun/src/clock.rs. A call returns the
--     authority after it and its result; what the clocks and the storage answer are arguments.
--   - Time, Policy, Limits, Ids, Error: graphrun/src/time.rs, policy.rs, limits.rs, ids.rs, error.rs.
--   - Value, Schema, Catalog, Binding, Ir, WorkerContract: graphrun/src/value.rs, schema.rs, catalog.rs,
--     binding.rs, ir.rs, worker_contract.rs.
--   - Externals: what packages provide, as a record that the definitions take: SHA-256, hexadecimal text,
--     the JSON text of a string, the validator of schemas, and two derived serialisers.
--   - Examples: runs of the definitions.
--
-- The event handlers, the clock and the values call nothing of each other; the decisions read the
-- state, the catalog and the context of a scope, and the events they return reach the state only by
-- `evolve`. Claims rest on Ready (what waits for a worker), Eval (the input of an activity) and
-- WorkerContract (the capability that a remote worker needs).
--
-- Bounds and fuel. `decide_claim` repeats its pass over the runs until the cap is reached or a pass
-- grants nothing. Each repeated pass has made a grant, so as many passes as the cap are enough. The
-- climb from a scope to the root takes one more step than there are scopes: a longer one would visit a
-- scope twice, where the source does not return. `decide_progress` makes the 32 rounds of the source.
-- The search for the next item of a foreach takes one more step than there are indices in use, and
-- more are never needed. Every other loop is structural.
--
-- A panic (`unwrap` of nothing) is an outcome of its own. Error messages are the literals and format
-- strings of the source, not filled in.
--
-- Counts that the source makes in 32 bits are not bounded where they count what the state holds: the
-- claims of a session (`worker_in_flight`) and the index of the next item of a foreach. They differ
-- beyond 2^32 claims or items.
--
-- Not modelled: histories, checkpoints and publications (so `apply_events` is without the entries that
-- it appends to a history, and without the errors of `io_references` and `append` on the way, such as an
-- event of a run that is not retained or a value that cannot be captured; where it succeeds in the
-- source, the state after it is the one here), `start_run` and `commit_command` with publications and
-- retention, the deadline of retention in schedule.rs, the network sampling of voters, the compiler and
-- builder of definitions, storage, and everything that is asynchronous I/O over packages: the engine,
-- the cluster, the daemons of workers, and the clients.
pub mod Prelude
pub mod Map
pub mod Maybe
pub mod Error
pub mod Limits
pub mod Policy
pub mod Time
pub mod Clock
pub mod Value
pub mod Ids
pub mod Schema
pub mod Binding
pub mod Ir
pub mod Catalog
pub mod Externals
pub mod WorkerContract
pub mod Domain
pub mod Examples
pub mod Schedule
