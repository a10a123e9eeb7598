-- ===== src/Examples/CommandRuns.antt =====
-- A worker's report under a principal, sent twice.
use graphrun.Prelude.{
  ℕ, ◌≡◌, refl, none, some, List, [], pos, nat_eq, string_eq, option_eq, all, any,
}
use graphrun.Map
use graphrun.Error.{Result, ok, err, panic}
use graphrun.Value.{Value, Json}
use graphrun.Value.Canonical.{canonical_json, write_canonical}
use graphrun.Catalog.{activity, schema_json, validate_value}
use graphrun.Externals.{next_id, be_bytes, le_bytes, digest16, from_be}
use graphrun.Ir.{find_node, node_of, next_of}
use graphrun.Domain.Event.{DomainEvent}
use graphrun.Domain.Contract.{activity_at, contract_of, node_at}
use graphrun.Domain.Region.{body_of, climb, lookup_region, opener, is_activity_node}
use graphrun.Domain.Evolve.{evolve, event_owner}
use graphrun.Domain.Evolve.Scopes.{leaf_succeeds, record_output, open_activation}
use graphrun.Domain.Owners.{validate_claim_owner}
use graphrun.Domain.Ready.{run_is_aborting}
use graphrun.Domain.Follow.{follow_next, open_node}
use graphrun.Domain.Leaves.{
  validate_leaf_output, compensation_events, obligation_events, report_forward, report_success,
}
use graphrun.Domain.Reports.{decide_report_assigned}
use graphrun.Domain.Commands.{Command, Receipts, Machine, authenticated, report_assigned}
use graphrun.Domain.Commands.Identity.{
  Requests, into_cause, prepare_command, verify_command_identity, authenticated_request_digest,
  authenticated_command_id, is_principal, worker_request_digest, verify_worker_retry,
}
use graphrun.Domain.Commands.Dispatch.{decide, dispatch}
use graphrun.Domain.Commands.Apply.{
  apply_command, apply_command_with_actor, apply_each, note_terminal, with_receipt, owners_known,
}
use graphrun.Domain.Commands.Answers.{sent_at}
use graphrun.Domain.Commands.Replay.{apply_command-replays}
use graphrun.Examples.Claims.{ext}
use graphrun.Examples.ReportRuns.{working}

abbrev rq : Requests
rq = record { body_json = λ body. Json.null; start_json = λ d v c. Json.null }

abbrev pub no_receipts : Receipts
no_receipts = record {
  commands = [];
  command_actors = [];
  command_external_ids = [];
  authenticated_request_digests = [];
  worker_command_digests = [];
  command_times = [];
  engine_time_watermark_ms = 1900;
}

abbrev pub machine : Machine
machine = record { state = working; receipts = no_receipts }

-- The report of session 7, as the principal "w1" sends it at a time.
abbrev pub report_at : ℕ → Command
report_at time = record {
  id = 77;
  body = authenticated "w1" (
      report_assigned 1 100 (Value.int (pos 5))
        (record { session = 7; generation = 5; revision = 1 }));
  time = time;
}

abbrev pub inner : Command
inner = record {
  id = 77;
  body =
      report_assigned 1 100 (Value.int (pos 5))
        (record { session = 7; generation = 5; revision = 1 });
  time = 2000;
}

abbrev events_or_none : Result (List DomainEvent) → List DomainEvent
events_or_none (ok events) = events
events_or_none (err e) = []
events_or_none panic = []

abbrev pub applied : Machine × Result (List DomainEvent)
applied = apply_command ext rq machine none (report_at 2000)

the_cause : (time : ℕ) → into_cause (report_at time) ≡ ok (sent_at time inner, some "w1")
unfolding into_cause is_principal all
the_cause time = refl

the_first :
    apply_command ext rq machine none (report_at 2000) ≡ (applied.0, ok (events_or_none applied.1))
unfolding apply_command into_cause is_principal prepare_command verify_command_identity
    authenticated_request_digest authenticated_command_id worker_request_digest verify_worker_retry
    canonical_json write_canonical apply_command_with_actor apply_each note_terminal with_receipt
    owners_known decide dispatch decide_report_assigned validate_claim_owner report_success
    validate_leaf_output report_forward compensation_events obligation_events run_is_aborting
    follow_next open_node activity_at contract_of node_at lookup_region climb opener body_of
    find_node node_of next_of activity validate_value schema_json next_id be_bytes le_bytes digest16
    from_be is_activity_node evolve event_owner leaf_succeeds record_output open_activation any all
    Map.get Map.keys Map.insert Map.modify Map.map_values Map.contains_key
the_first = refl

apply_command-replays_example :
    apply_command ext rq applied.0 none (report_at 2500)
    ≡ (applied.0, ok (events_or_none applied.1))
apply_command-replays_example =
    apply_command-replays ext rq machine applied.0 none none (events_or_none applied.1)
      (report_at 2000) (report_at 2500) inner 2500 (some "w1") (λ id fresh. unfold Map.get in refl)
      (the_cause 2000) (the_cause 2500) the_first
