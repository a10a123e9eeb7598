-- ===== src/Examples/ReportRuns.antt =====
-- Reports on a claimed activation: a result, a failure that is tried again, and a last probe.
use graphrun.Prelude.{
  ◌≡◌, ◌≢◌, refl, true, none, some, List, [], ◌∷◌, ◌⊎◌, pos, nat_eq, string_eq, find, any, contains,
  arith,
}
use graphrun.Map
use graphrun.Error.{Result, ok, err, panic}
use graphrun.Value.{Value}
use graphrun.Ids.{forward, reconciliation}
use graphrun.Schema.{SchemaRef}
use graphrun.Binding.{Binding}
use graphrun.Policy.{RetryPolicy, forward_backoff}
use graphrun.Ir.{Region, Nodes, Node, PathSeg, find_node, node_of, next_of}
use graphrun.Catalog.{async, pure, retry_safe, activity, known_code, schema_json, validate_value}
use graphrun.Externals.{IdGen, next_id, be_bytes, le_bytes, digest16, from_be}
use graphrun.Domain.Event.{
  DomainEvent, leaf_succeeded, leaf_failed, node_output_recorded, activation_opened, claim_cleared,
  unknown, reconciliation_recorded, intervention_required,
}
use graphrun.Domain.State.{State, RunState, ActivationState, ClaimState}
use graphrun.Domain.Contract.{activity_at, contract_of, node_at, forward_policy}
use graphrun.Domain.Region.{body_of, climb, lookup_region, opener}
use graphrun.Domain.Evolve.{apply_events, evolve, event_owner}
use graphrun.Domain.Evolve.Scopes.{leaf_succeeds, record_output, open_activation}
use graphrun.Domain.Owners.{validate_claim_owner}
use graphrun.Domain.Ready.{run_is_aborting}
use graphrun.Domain.Follow.{follow_next, open_node}
use graphrun.Domain.Leaves.{
  validate_leaf_output, compensation_events, obligation_events, report_forward, report_success,
}
use graphrun.Domain.Reports.{
  awaiting, after_probe, decide_reconcile, decide_report_assigned, decide_report_error,
  forward_error_retryable, is_retryable_code, report_forward_error,
}
use graphrun.Domain.Reports.Once.{IsReport, decide_report_assigned_once}
use graphrun.Domain.Reports.Probes.{IsProbe, decide_reconcile-IsProbe}
use graphrun.Domain.Reports.Retries.{IsRetried, IsFinal, decide_report_error_retries}
use graphrun.Examples.Claims.{ext, idle, run, charge, catalog, waiting, taken}
use graphrun.Examples.SagaRuns.{ids}

abbrev five : Value
five = Value.int (pos 5)

-- The activation under a claim of session 7.
abbrev claimed_by : ClaimState → ActivationState
claimed_by claim = record waiting { claim = some claim; attempts = 2 }

abbrev held_by : ClaimState → State
held_by claim = record idle { activations = (100, claimed_by claim) ∷ []; next_generation = 5 }

abbrev pub working : State
working = held_by taken

abbrev pub result : List DomainEvent
result =
    leaf_succeeded 1 100 1 five forward
    ∷ node_output_recorded 1 10 "work" five
    ∷ activation_opened 1 10 9 "end"
    ∷ []

abbrev pub left : IdGen
left = record { command = 9; n = 1 }

the_report : decide_report_assigned ext working 1 100 five 7 5 1 2000 ids ≡ ok (result, left)
unfolding decide_report_assigned validate_claim_owner report_success validate_leaf_output
    report_forward compensation_events obligation_events run_is_aborting follow_next open_node
    activity_at contract_of node_at lookup_region climb opener body_of find_node node_of next_of
    activity validate_value schema_json next_id be_bytes le_bytes digest16 from_be any Map.get
    Map.keys
the_report = refl

-- The state that a call returned, or the one given.
abbrev pub state_or : State → Result State → State
state_or s (ok t) = t
state_or s (err e) = s
state_or s panic = s

abbrev pub reported : State
reported = state_or working (apply_events working result)

the_application : apply_events working result ≡ ok reported
unfolding apply_events evolve event_owner leaf_succeeds record_output open_activation Map.get
    Map.modify
the_application = refl

the_new_id : (next_id ext ids).0 ≡ 9
unfolding next_id be_bytes le_bytes digest16 from_be
the_new_id = refl

the_new_id_is_new : (next_id ext ids).0 ≢ 100
the_new_id_is_new h = omega (arith, h, the_new_id)

decide_report_assigned_once_example :
    IsReport ext working 1 100 five ids the_new_id_is_new 7 5 1 2000 result
    × ¬ (decide_report_assigned ext reported 1 100 five 7 5 1 2100 ids ≡ ok (result, left))
decide_report_assigned_once_example =
    decide_report_assigned_once ext working 1 100 five ids the_new_id_is_new 7 5 1 2000
      (result, left) (result, left) reported five 7 5 1 2100 ids the_report the_application

-- A probe of a claim that was probed twice.
abbrev pub probe_claim : ClaimState
probe_claim = record taken { role = reconciliation; probes = 2 }

abbrev pub probing : State
probing = held_by probe_claim

abbrev pub last_probe : List DomainEvent
last_probe =
    reconciliation_recorded 1 100 unknown none 3
    ∷ intervention_required 1 100 "reconciliation probes exhausted"
    ∷ claim_cleared 100
    ∷ []

the_probe : decide_reconcile ext probing 1 100 7 5 1 unknown none 2000 ids ≡ ok (last_probe, ids)
unfolding decide_reconcile awaiting after_probe validate_claim_owner Map.get
the_probe = refl

decide_reconcile-IsProbe_example : IsProbe probing 1 100 7 5 1 2000 99999 last_probe
decide_reconcile-IsProbe_example =
    decide_reconcile-IsProbe ext probing 1 100 7 5 1 2000 ids (last_probe, ids) 99999 the_probe

-- A node that retries the code "busy", and a contract that knows it as one to retry.
abbrev pub busy_retry : RetryPolicy
busy_retry = record { errors = "busy" ∷ []; max_attempts = 3; backoff = forward_backoff }

abbrev pub retrying_node : Node
retrying_node = Node.activity charge (Binding.literal five) none busy_retry none "end"

abbrev pub retrying_run : RunState
retrying_run = record run {
  definition = record run.definition {
    root =
        Region.region (PathSeg.root ∷ []) SchemaRef.integer SchemaRef.integer "work"
          (Nodes.with_node "work" retrying_node Nodes.no_nodes);
  };
  catalog = record catalog {
    activities =
        (
          charge,
          record {
            key = charge;
            input_schema = SchemaRef.integer;
            output_schema = SchemaRef.integer;
            execution = async;
            effects = pure;
            recovery = retry_safe;
            error_codes = record { code = "busy"; retryable = true } ∷ [];
            reconciler = none;
          },
        )
        ∷ [];
  };
}

abbrev pub retrying : State
retrying = record working { runs = (1, retrying_run) ∷ [] }

abbrev pub retried : List DomainEvent
retried = leaf_failed 1 100 2 "busy" "try later" true ∷ claim_cleared 100 ∷ []

the_error : decide_report_error retrying 1 100 "busy" "try later" ≡ ok retried
unfolding decide_report_error awaiting report_forward_error forward_error_retryable
    is_retryable_code forward_policy activity_at node_at lookup_region climb opener body_of
    find_node node_of activity known_code find contains Map.get
the_error = refl

the_held : Map.get 100 retrying.activations ≡ some (claimed_by taken)
unfolding Map.get
the_held = refl

decide_report_error_retries_example :
    IsRetried retrying 1 100 (claimed_by taken) "busy" "try later" retried
    ⊎ IsFinal retrying 1 100 (claimed_by taken) "busy" "try later" retried
decide_report_error_retries_example =
    decide_report_error_retries retrying 1 100 (claimed_by taken) "busy" "try later" retried
      the_held refl the_error
