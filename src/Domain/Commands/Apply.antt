-- ===== src/Domain/Commands/Apply.antt =====
-- graphrun/src/domain.rs: `apply_command` and `apply_command_with_actor`, without the checkpoints of
-- histories. A call returns the state after it, also where it fails: the events before the one that
-- does not apply have changed it.
use graphrun.Prelude.{ℕ, String, Bool, Option, none, some, List, [], ◌∷◌, max, nat_eq}
use graphrun.Map
use graphrun.Error.{Result, ok, err, panic, ◌>>=◌, ◌>>◌}
use graphrun.Externals.{Externals}
use graphrun.Domain.Event.{DomainEvent, run_succeeded, run_failed}
use graphrun.Domain.State.{State}
use graphrun.Domain.Evolve.{evolve, event_owner}
use graphrun.Domain.Sessions.{Decision}
use graphrun.Domain.Commands.{Command, Receipts, Machine}
use graphrun.Domain.Commands.Identity.{
  Requests, into_cause, prepare_command, worker_request_digest, verify_worker_retry,
}
use graphrun.Domain.Commands.Dispatch.{decide}

-- A state and the outcome of the call that led to it.
abbrev pub Outcome : Type 0 → Type 0
Outcome M = M × Result (List DomainEvent)

abbrev pub evolve_owned : State → DomainEvent → Result State
evolve_owned s e = do owner ← event_owner s e; evolve s e

-- The events one after the other, up to the first that does not apply.
unfoldable pub apply_each : State → List DomainEvent → State × Result (Unit {0})
apply_each s [] = (s, ok tt)
apply_each s (e ∷ es) = elim (evolve_owned s e) [
  | ok t ↦ apply_each t es
  | err failure ↦ (s, err failure)
  | panic ↦ (s, panic)
]

-- When a run ended.
unfoldable pub note_terminal : ℕ → List DomainEvent → State → State
note_terminal time [] s = s
note_terminal time (run_succeeded run output ∷ es) s =
    note_terminal time es
      (record s { runs = Map.modify run (λ r. record r { terminal_ms = time }) s.runs })
note_terminal time (run_failed run error ∷ es) s =
    note_terminal time es
      (record s { runs = Map.modify run (λ r. record r { terminal_ms = time }) s.runs })
note_terminal time (e ∷ es) s = note_terminal time es s

abbrev insert_some {ℓ} : {V : Type ℓ} → ℕ → Option V → Map.Map ℕ V → Map.Map ℕ V
insert_some id none m = m
insert_some id (some v) m = Map.insert id v m

-- The principal of a command, the id that it asked for, and the digest of its request.
pub record Cause : Type 0 where
  pub actor : Option String
  pub external_id : ℕ
  pub digest : Option String

-- The receipt of a command.
unfoldable pub with_receipt :
    Receipts → Command → Cause → Option String → List DomainEvent → Receipts
with_receipt r c cause worker_digest events = record r {
  commands = Map.insert c.id events r.commands;
  command_actors = insert_some c.id cause.actor r.command_actors;
  command_external_ids = elim cause.actor [
    | none ↦ r.command_external_ids
    | some actor ↦ Map.insert c.id cause.external_id r.command_external_ids
  ];
  authenticated_request_digests = elim cause.actor [
    | none ↦ r.authenticated_request_digests
    | some actor ↦ insert_some c.id cause.digest r.authenticated_request_digests
  ];
  command_times = Map.insert c.id c.time r.command_times;
  worker_command_digests = insert_some c.id worker_digest r.worker_command_digests;
}

-- Every run that an event is of is known.
unfoldable pub owners_known : State → List DomainEvent → Result (Unit {0})
owners_known s [] = ok tt
owners_known s (e ∷ es) = do owner ← event_owner s e; owners_known s es

module _ (ext : Externals) (rq : Requests) (m : Machine) (tombstone : Option (Result Bool)) where
  -- Time never runs back.
  abbrev pub at_watermark : Command → Command
  at_watermark c = record c { time = max c.time m.receipts.engine_time_watermark_ms }

  abbrev pub advanced : Command → Machine
  advanced c = record m {
    receipts = record m.receipts { engine_time_watermark_ms = (at_watermark c).time };
  }

  -- What is recorded once the events are applied.
  abbrev pub record_applied :
      Command
      → Cause
      → Option String
      → List DomainEvent
      → State × Result (Unit {0})
      → Outcome Machine
  record_applied c cause worker_digest events (s, ok passed) =
      let ended = note_terminal (at_watermark c).time events s in
      (
        record {
          state = ended;
          receipts = with_receipt (advanced c).receipts (at_watermark c) cause worker_digest events;
        },
        owners_known ended events >> ok events,
      )
  record_applied c cause worker_digest events (s, err failure) =
      (record (advanced c) { state = s }, err failure)
  record_applied c cause worker_digest events (s, panic) =
      (record (advanced c) { state = s }, panic)

  abbrev pub record_decision : Command → Cause → Option String → Result Decision → Outcome Machine
  record_decision c cause worker_digest (ok events) =
      record_applied c cause worker_digest events (apply_each m.state events)
  record_decision c cause worker_digest (err failure) = (advanced c, err failure)
  record_decision c cause worker_digest panic = (advanced c, panic)

  -- A command with a receipt is answered from it.
  abbrev pub from_receipt :
      Command → Cause → Option String → Option (List DomainEvent) → Outcome Machine
  from_receipt c cause worker_digest (some events) =
      (m, verify_worker_retry m.receipts c.id worker_digest >> ok events)
  from_receipt c cause worker_digest none =
      record_decision c cause worker_digest (decide ext (advanced c) tombstone (at_watermark c))

  abbrev pub with_worker_digest : Command → Cause → Result (Option String) → Outcome Machine
  with_worker_digest c cause (ok worker_digest) =
      from_receipt c cause worker_digest (Map.get c.id m.receipts.commands)
  with_worker_digest c cause (err failure) = (m, err failure)
  with_worker_digest c cause panic = (m, panic)

  unfoldable pub apply_command_with_actor : Command → Cause → Outcome Machine
  unfolding apply_each note_terminal with_receipt owners_known decide
  apply_command_with_actor c cause =
      with_worker_digest c cause (worker_request_digest ext rq c.body)

  abbrev pub apply_prepared : Option String → Result (Command × ℕ × Option String) → Outcome Machine
  apply_prepared actor (ok (c, external_id, digest)) =
      apply_command_with_actor c
        (record { actor = actor; external_id = external_id; digest = digest })
  apply_prepared actor (err failure) = (m, err failure)
  apply_prepared actor panic = (m, panic)

  abbrev pub apply_caused : Result (Command × Option String) → Outcome Machine
  apply_caused (ok (c, actor)) = apply_prepared actor (prepare_command ext rq m.receipts c actor)
  apply_caused (err failure) = (m, err failure)
  apply_caused panic = (m, panic)

  unfoldable pub apply_command : Command → Outcome Machine
  unfolding apply_command_with_actor
  apply_command c = apply_caused (into_cause c)
