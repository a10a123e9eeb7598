-- ===== src/Examples/Claims.antt =====
-- A run with one activity, a local worker session that claims it, and what follows from that.
use graphrun.Prelude.{
  ◌≡◌, refl, true, false, none, some, List, [], ◌∷◌, pos, nat_eq, filter, all, any, contains, find,
  arith, ◌+◌, ◌↔◌, string_eq,
}
use graphrun.Map
use graphrun.Error.{ok}
use graphrun.Value.{Value, Json}
use graphrun.Ids.{forward, ActivityKey}
use graphrun.Schema.{SchemaRef}
use graphrun.Binding.{Binding}
use graphrun.Policy.{forward_default, defaults}
use graphrun.Ir.{Region, Nodes, Node, PathSeg}
use graphrun.Catalog.{Catalog, async, pure, retry_safe}
use graphrun.Externals.{Externals}
use graphrun.Domain.Event.{
  DomainEvent, Grant, claim_granted, claim_renewed, session_registered, ScopeRole,
}
use graphrun.Domain.State.{
  State, RunState, RunStatus, ScopeState, ScopeStatus, ActivationState, ActivationStatus,
  WorkerSession, ClaimState,
}
use graphrun.Ir.{find_node, node_of}
use graphrun.Catalog.{activity, schema_json, validate_value}
use graphrun.Externals.{be_bytes, digest16, from_be, to_hex}
use graphrun.WorkerContract.{contract_schemas}
use graphrun.Domain.Contract.{activity_at, contract_of, node_at}
use graphrun.Domain.Eval.{eval_binding, eval_ctx, eval_ref}
use graphrun.Domain.Region.{body_of, climb, lookup_region}
use graphrun.Domain.Ready.{
  worker_in_flight, active_runs, unclaimed_ready, grant_role, run_past_deadline, run_is_aborting,
  is_unclaimed, ready_activations,
}
use graphrun.Domain.Evolve.{apply_events, evolve, event_owner}
use graphrun.Domain.Evolve.Claims.{grant_claim, register_session, renew_claim}
use graphrun.Domain.Claims.Limits.{IsClaimBatch, decide_claim-IsClaimBatch}
use graphrun.Domain.Claims.Capacity.{IsWithin, decide_claim-IsWithin, decide_claim-steals_nothing}
use graphrun.Domain.Claims.Fencing.{
  IsOwned, validate_claim_owner_exact, decide_renew-IsOwned, decide_renew-fences,
}
use graphrun.Domain.Claims.Superseded.{
  Steps, stay, step, IsFenced, Steps-IsFenced, grant-fences, decide_claim-Steps,
}
use graphrun.Domain.Claims.{
  decide_claim, claim_loop, claim_pass, rotate_past, sort_by, insert_by, split_past, select,
  claimed_activity, claimed_forward, claimed_in_role, grant_for, grant_found, grant_selected,
  stable_effect_key, worker_matches,
}
use graphrun.Domain.Owners.{decide_renew, validate_claim_owner}

abbrev pub ext : Externals
ext = record {
  sha256 = λ bytes. bytes;
  hex = λ bytes. "00";
  json_text = λ s. [];
  is_valid = λ schema value. ok true;
  activity_json = λ c. Json.null;
  bound_json = λ c r. Json.null;
}

abbrev pub charge : ActivityKey
charge = record { name = "charge"; version = 1 }

abbrev pub work : Node
work = Node.activity charge (Binding.literal (Value.int (pos 5))) none forward_default none "end"

abbrev pub flow : Region
flow =
    Region.region (PathSeg.root ∷ []) SchemaRef.integer SchemaRef.integer "work"
      (Nodes.with_node "work" work Nodes.no_nodes)

abbrev pub catalog : Catalog
catalog = record {
  schemas = [];
  activities =
      (
        charge,
        record {
          key = charge;
          input_schema = SchemaRef.integer;
          output_schema = SchemaRef.integer;
          execution = async;
          effects = pure;
          recovery = retry_safe;
          error_codes = [];
          reconciler = none;
        },
      )
      ∷ [];
  reconcilers = [];
}

abbrev pub run : RunState
run = record {
  id = 1;
  definition = record {
    id = "flow";
    version = 1;
    input_schema = SchemaRef.integer;
    output_schema = SchemaRef.integer;
    signals = [];
    run_timeout_ms = none;
    root = flow;
  };
  catalog = catalog;
  input = Value.null;
  policy = defaults none;
  status = RunStatus.active;
  root = 10;
  next_sequence = 0;
  next_ready_order = 1;
  admitted_ms = 0;
  terminal_ms = 0;
}

abbrev pub root_scope : ScopeState
root_scope = record {
  id = 10;
  run = 1;
  parent = none;
  role = ScopeRole.root;
  input = Value.null;
  status = ScopeStatus.opened;
  outputs = [];
  current = some "work";
}

-- A claim of another session, out of its lease at 900.
abbrev pub lost : ClaimState
lost = record {
  session = 8;
  generation = 3;
  revision = 1;
  lease_expiry_ms = 900;
  attempt_deadline_ms = 300000;
  effect_key = 0;
  role = forward;
  probes = 0;
  unknown_reported = false;
}

abbrev pub live : ClaimState
live = record lost { generation = 4; lease_expiry_ms = 31000 }

abbrev pub waiting : ActivationState
waiting = record {
  id = 100;
  run = 1;
  scope = 10;
  node = "work";
  status = ActivationStatus.ready;
  role = forward;
  claim = some lost;
  attempts = 1;
  ready_order = 1;
}

abbrev pub held : ActivationState
held = record waiting { id = 101; claim = some live }

abbrev pub worker : WorkerSession
worker = record {
  id = 7;
  activities = "*" ∷ [];
  capacity = 2;
  expires_ms = 20000;
  principal_id = "";
  capabilities = [];
  revision = 0;
  protocol_min = 0;
  protocol_max = 0;
}

abbrev pub idle : State
idle = record {
  runs = (1, run) ∷ [];
  scopes = (10, root_scope) ∷ [];
  activations = (100, waiting) ∷ (101, held) ∷ [];
  waits = [];
  inbox = [];
  loop_carry = [];
  foreach_items = [];
  foreach_done = [];
  parallel_done = [];
  obligations = [];
  saga_errors = [];
  sessions = (7, worker) ∷ [];
  next_generation = 4;
  fair_cursor = none;
  interventions = [];
  recovery = none;
}

abbrev pub grant : Grant
grant = record {
  run = 1;
  scope = 10;
  activation = 100;
  handler = "charge";
  handler_version = 1;
  input = Value.int (pos 5);
  attempt = 2;
  session = 7;
  generation = 5;
  revision = 1;
  lease_expiry_ms = 31000;
  attempt_deadline_ms = 301000;
  effect_key = 137504381707329874182601026768904352813;
  role = forward;
}

abbrev pub claimed : List DomainEvent
claimed = session_registered 7 ("*" ∷ []) 2 31000 ∷ claim_granted grant ∷ []

-- The session claims the activation that the other one lost.
the_claim : decide_claim ext idle 7 5 1000 ≡ ok claimed
unfolding decide_claim claim_loop claim_pass rotate_past sort_by insert_by split_past select
    claimed_activity claimed_forward claimed_in_role grant_for grant_found grant_selected
    stable_effect_key worker_matches worker_in_flight active_runs unclaimed_ready grant_role
    run_past_deadline run_is_aborting is_unclaimed ready_activations body_of climb lookup_region
    eval_binding eval_ctx eval_ref activity_at contract_of node_at contract_schemas be_bytes
    digest16 from_be to_hex activity schema_json validate_value find_node node_of filter all any
    contains find Map.get Map.values Map.keys Map.contains_key
the_claim = refl

-- The state after the claim.
abbrev pub busy : State
busy = grant_claim (register_session idle 7 ("*" ∷ []) 2 31000) grant

abbrev pub taken : ClaimState
taken = record {
  session = 7;
  generation = 5;
  revision = 1;
  lease_expiry_ms = 31000;
  attempt_deadline_ms = 301000;
  effect_key = grant.effect_key;
  role = forward;
  probes = 0;
  unknown_reported = false;
}

the_application : apply_events idle claimed ≡ ok busy
unfolding apply_events evolve event_owner
the_application = refl

the_owner : validate_claim_owner busy 1 100 7 5 1 2000 ≡ ok taken
unfolding validate_claim_owner grant_claim register_session Map.get Map.insert Map.modify
the_owner = refl

abbrev pub renewal : List DomainEvent
renewal = claim_renewed 100 7 5 2 32000 ∷ []

the_renewal : decide_renew busy 7 100 5 1 2000 ≡ ok renewal
unfolding decide_renew grant_claim register_session Map.get Map.insert Map.modify
the_renewal = refl

decide_claim-IsClaimBatch_example : IsClaimBatch ext idle 7 1000 5 claimed
decide_claim-IsClaimBatch_example = decide_claim-IsClaimBatch ext idle 7 1000 5 claimed the_claim

decide_claim-IsWithin_example :
    (t : State) × (apply_events idle claimed ≡ ok t) × IsWithin idle 7 5 1000 t
decide_claim-IsWithin_example = decide_claim-IsWithin ext idle 7 5 1000 claimed the_claim

the_held : is_unclaimed idle 1000 101 ≡ false
unfolding is_unclaimed Map.get Map.contains_key
the_held = refl

decide_claim-steals_nothing_example :
    (t : State) × (apply_events idle claimed ≡ ok t)
    × (Map.get 101 t.activations ≡ Map.get 101 idle.activations)
decide_claim-steals_nothing_example =
    decide_claim-steals_nothing ext idle 7 5 1000 claimed the_claim 101 the_held

decide_claim-Steps_example : (t : State) × (apply_events idle claimed ≡ ok t) × Steps idle t
decide_claim-Steps_example = decide_claim-Steps ext idle 7 5 1000 claimed (omega arith) the_claim

idle-IsFenced : IsFenced idle
unfolding Map.get
idle-IsFenced = record { word = omega arith; issued = λ a. ground arith }

the_grant_step : Steps idle (grant_claim idle grant)
the_grant_step =
    step {s = idle} {t = grant_claim idle grant} (claim_granted grant) refl (unfold evolve in refl)
      stay

Steps-IsFenced_example : IsFenced (grant_claim idle grant)
Steps-IsFenced_example = Steps-IsFenced idle (grant_claim idle grant) the_grant_step idle-IsFenced

grant-fences_example : ¬ (validate_claim_owner (grant_claim idle grant) 1 100 8 3 1 800 ≡ ok lost)
grant-fences_example =
    grant-fences idle (grant_claim idle grant) (grant_claim idle grant) grant 3 1 8 1 800 lost
      (omega arith) (omega arith) refl (unfold evolve in refl) stay

validate_claim_owner_exact_example :
    (validate_claim_owner busy 1 100 7 5 1 2000 ≡ ok taken) ↔ IsOwned busy 1 100 7 5 1 2000 taken
validate_claim_owner_exact_example = validate_claim_owner_exact busy 1 100 7 5 1 2000 taken

abbrev pub running : ActivationState
running = record waiting { claim = some taken; attempts = 2 }

the_running : Map.get 100 busy.activations ≡ some running
unfolding grant_claim register_session Map.get Map.insert Map.modify
the_running = refl

decide_renew-IsOwned_example :
    (t : State) × (claim : ClaimState) × (apply_events busy renewal ≡ ok t)
    × IsOwned t 1 100 7 5 2 2000 claim
    × (claim.lease_expiry_ms ≡ 2000 + 30000)
decide_renew-IsOwned_example =
    decide_renew-IsOwned busy 7 100 5 1 2000 renewal 1 running (omega arith) the_running refl refl
      the_renewal

the_renewed : apply_events busy renewal ≡ ok (renew_claim busy 100 2 32000)
unfolding apply_events evolve event_owner
the_renewed = rw (the_running) refl

decide_renew-fences_example :
    ¬ (validate_claim_owner (renew_claim busy 100 2 32000) 1 100 7 5 1 2500 ≡ ok taken)
decide_renew-fences_example =
    decide_renew-fences busy 7 100 5 1 2000 renewal (renew_claim busy 100 2 32000) 1 2500 taken
      (omega arith) the_renewal the_renewed
