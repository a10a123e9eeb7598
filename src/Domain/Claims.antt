-- ===== src/Domain/Claims.antt =====
-- graphrun/src/domain.rs: how a worker session claims ready activations.
pub mod Batch
pub mod Limits
pub mod Enough
pub mod Superseded
pub mod Generations
pub mod Fencing
pub mod Capacity
use graphrun.Prelude.{
  ℕ, zero, suc, ◌+◌, ◌-◌, ◌%◌, min, String, Bool, true, false, not, ◌&&◌, ◌||◌, Option, none, some,
  List, [], ◌∷◌, ◌++◌, map, ◌==◌, nat_eq, option_eq, string_eq, ltb, leb, if◌then◌else◌,
  is_some_and, any, filter, length, contains, saturating_add, saturating_add_32, find,
}
use graphrun.Map
use graphrun.Error.{
  Result, ok, err, panic, fail, invalid, invalid_argument, failed_precondition, unauthenticated,
  or_fail, unwrap, refuse_if, ◌>>=◌, ◌>>◌,
}
use graphrun.Limits.{
  claim_batch, session_lease, reconciliation_attempt_timeout, compensation_attempt_timeout,
  forward_attempt_timeout,
}
use graphrun.Value.{Value}
use graphrun.Ids.{
  ExecutionRole, forward, compensation, reconciliation, role_eq, ActivityKey, activity_key, next,
}
use graphrun.Ir.{Region, Node, node_of}
use graphrun.Catalog.{Catalog, activity, validate_value}
use graphrun.Externals.{Externals, digest16, be_bytes, ascii}
use graphrun.WorkerContract.{capability_for, capability_eq, contract_schemas, role_name}
use graphrun.Domain.Event.{DomainEvent, Grant, session_registered, claim_granted, claim_renewed}
use graphrun.Domain.State.{State, ActivationState, ClaimState, WorkerSession, RunState, is_ready}
use graphrun.Domain.Region.{lookup_region}
use graphrun.Domain.Contract.{ActivityNode, activity_node}
use graphrun.Domain.Eval.{eval_ctx, eval_binding}
use graphrun.Domain.Evolve.Scopes.{compensated_by}
use graphrun.Domain.Sessions.{Decision, lease_from}
use graphrun.Domain.Ready.{
  active_runs, unclaimed_ready, worker_in_flight, run_is_aborting, run_past_deadline, grant_role,
}

-- The order in which the activations of a run are offered.
abbrev place : State → ℕ → ℕ
place s id = elim (Map.get id s.activations) [ none ↦ 0 | some act ↦ act.ready_order ]

abbrev offered_before : State → ℕ → ℕ → Bool
offered_before s a b = ltb (place s a) (place s b) || (place s a == place s b && leb a b)

-- `sort_by_key` and `sort`, as insertion sorts.
unfoldable pub insert_by : (ℕ → ℕ → Bool) → ℕ → List ℕ → List ℕ
insert_by before x [] = x ∷ []
insert_by before x (y ∷ ys) = if before x y then x ∷ y ∷ ys else y ∷ insert_by before x ys

unfoldable pub sort_by : (ℕ → ℕ → Bool) → List ℕ → List ℕ
unfolding insert_by
sort_by before [] = []
sort_by before (x ∷ xs) = insert_by before x (sort_by before xs)

-- The runs up to `last` go behind the others: `partition_point`, `% len` and `rotate_left`.
unfoldable pub split_past : ℕ → List ℕ → List ℕ × List ℕ
split_past last [] = ([], [])
split_past last (run ∷ runs) =
    let (done, rest) = split_past last runs in
    if leb run last then (run ∷ done, rest) else ([], run ∷ runs)

unfoldable pub rotate_past : Option ℕ → List ℕ → List ℕ
unfolding split_past
rotate_past none runs = runs
rotate_past (some last) runs = let (done, rest) = split_past last runs in rest ++ done

module _ (ext : Externals) where
  unfoldable pub stable_effect_key : ℕ → ℕ → ExecutionRole → ℕ
  unfolding digest16 be_bytes
  stable_effect_key run activation role = digest16 ext (
      ascii "graphrun.effect-key/v1"
      ++ (0 ∷ be_bytes 16 run ++ (be_bytes 16 activation ++ ascii (role_name role))))

  abbrev key_in_role : Catalog → ActivityKey → ExecutionRole → Result ActivityKey
  key_in_role catalog key reconciliation = do
    contract ← activity catalog key
    or_fail contract.reconciler invalid_argument "missing reconciliation contract"
  key_in_role catalog key _ = ok key

  unfoldable pub claimed_forward :
      State → ActivationState → RunState → ExecutionRole → Result (ActivityKey × Value)
  claimed_forward s act run role = do
    region ← or_fail (lookup_region s act.scope) invalid_argument "missing activity scope"
    node ← or_fail (node_of region act.node) invalid_argument "missing activity node"
    a ← or_fail (activity_node node) invalid_argument "ready node is not an activity"
    scope ← or_fail (Map.get act.scope s.scopes) invalid_argument "missing activity scope state"
    ctx ← eval_ctx ext s scope
    bound ← eval_binding a.input ctx
    key ← key_in_role run.catalog a.key role
    ok (key, bound)

  unfoldable pub claimed_in_role :
      State → ActivationState → RunState → ℕ → ExecutionRole → Result (ActivityKey × Value)
  unfolding claimed_forward
  claimed_in_role s act run activation compensation = do
    o ←
        or_fail (find (compensated_by activation) s.obligations) invalid_argument
          "missing compensation obligation"
    ok (activity_key o.handler o.handler_version, o.input)
  claimed_in_role s act run activation role = claimed_forward s act run role

  unfoldable pub claimed_activity : State → ℕ → ExecutionRole → Result (ActivityKey × Value)
  unfolding claimed_in_role
  claimed_activity s activation role = do
    act ← or_fail (Map.get activation s.activations) invalid_argument "missing activation"
    run ← or_fail (Map.get act.run s.runs) invalid_argument "missing run"
    claimed_in_role s act run activation role

  abbrev handles : List String → String → Bool
  handles activities name = any (λ a. a == "*" || a == name) activities

  unfoldable pub worker_matches : State → WorkerSession → ℕ → ExecutionRole → Result Bool
  worker_matches s worker activation role = do
    act ← or_fail (Map.get activation s.activations) invalid_argument "missing activation"
    run ← or_fail (Map.get act.run s.runs) invalid_argument "missing run"
    (key, input) ← claimed_activity s activation role
    if worker.principal_id == "" then ok (handles worker.activities key.name) else (do
      required ← capability_for ext run.catalog key role
      ok (contains worker.capabilities required))

  -- A forward claim is not granted for a run past its deadline, or one that is being aborted.
  abbrev held_back : State → ℕ → ℕ → ExecutionRole → Bool
  held_back s run time role =
      role == forward && (run_past_deadline s run time || run_is_aborting s run)

  -- The first ready activation of a run that is not yet granted and that the worker can run.
  unfoldable pub select : State → WorkerSession → ℕ → ℕ → List ℕ → List ℕ → Result (Option ℕ)
  select s worker run time granted_ids [] = ok none
  select s worker run time granted_ids (id ∷ ids) =
      let rest = select s worker run time granted_ids ids in
      elim (Map.get id s.activations) [
        | none ↦ rest
        | some act ↦
            let role = grant_role s act time in
            if contains granted_ids id || held_back s run time role
            then rest
            else (do fits ← worker_matches s worker id role; if fits then ok (some id) else rest)
      ]

  abbrev timeout_of : ExecutionRole → ℕ
  timeout_of reconciliation = reconciliation_attempt_timeout
  timeout_of compensation = compensation_attempt_timeout
  timeout_of forward = forward_attempt_timeout

  -- A reconciliation keeps the effect key of the claim that it asks about.
  abbrev effect_key_for : Option ClaimState → ℕ → ℕ → ExecutionRole → ℕ
  effect_key_for none run activation role = stable_effect_key run activation role
  effect_key_for (some claim) run activation role =
      if role == reconciliation then claim.effect_key else stable_effect_key run activation role

  unfoldable pub grant_for : State → ℕ → ℕ → ℕ → ℕ → ℕ → ActivationState → Result Grant
  unfolding stable_effect_key
  grant_for s session time granted run activation act = do
    let role = grant_role s act time
    (handler, input) ← claimed_activity s activation role
    run_state ← or_fail (Map.get run s.runs) invalid_argument "missing run"
    (input_schema, output_schema) ← contract_schemas run_state.catalog handler role
    validate_value ext.is_valid run_state.catalog input_schema input
    ok (record {
      run = run;
      scope = act.scope;
      activation = activation;
      handler = handler.name;
      handler_version = handler.version;
      input = input;
      attempt = saturating_add_32 act.attempts 1;
      session = session;
      generation = saturating_add s.next_generation (granted + 1);
      revision = 1;
      lease_expiry_ms = lease_from time;
      attempt_deadline_ms = saturating_add time (timeout_of role);
      effect_key = effect_key_for act.claim run activation role;
      role = role;
    })

  -- The grant of a selected activation, with what follows it; `skip` where there is none.
  unfoldable pub grant_found {ℓ} :
      {R : Type ℓ}
      → State
      → ℕ
      → ℕ
      → ℕ
      → ℕ
      → ℕ
      → Option ActivationState
      → Result R
      → (Grant → Result R)
      → Result R
  grant_found s session time granted run activation none skip more = skip
  grant_found s session time granted run activation (some act) skip more =
      grant_for s session time granted run activation act >>= more

  unfoldable pub grant_selected {ℓ} :
      {R : Type ℓ} → State → ℕ → ℕ → ℕ → ℕ → Option ℕ → Result R → (Grant → Result R) → Result R
  unfolding grant_found
  grant_selected s session time granted run none skip more = skip
  grant_selected s session time granted run (some activation) skip more =
      grant_found s session time granted run activation (Map.get activation s.activations) skip more

  -- One pass over the runs: at most one grant for each, behind those made so far.
  unfoldable pub claim_pass :
      State → WorkerSession → ℕ → ℕ → ℕ → List ℕ → List Grant → Bool → Result (List Grant × Bool)
  claim_pass s worker session time cap [] granted progressed = ok (granted, progressed)
  claim_pass s worker session time cap (run ∷ runs) granted progressed =
      let skip = claim_pass s worker session time cap runs granted progressed in
      let more =
        λ (g : Grant). claim_pass s worker session time cap runs (granted ++ g ∷ []) true in
      if leb cap (length granted) then ok (granted, progressed) else (do
        selected ←
            select s worker run time (map (λ g. g.activation) granted)
              (sort_by (offered_before s) (unclaimed_ready s run time))
        grant_selected s session time (length granted) run selected skip more)

  abbrev pub next_pass : Result (List Grant) → List Grant × Bool → Result (List Grant)
  next_pass more (granted, true) = more
  next_pass more (granted, false) = ok granted

  -- `while granted < cap`, until a pass makes no grant.
  unfoldable pub claim_loop :
      ℕ → State → WorkerSession → ℕ → ℕ → ℕ → List ℕ → List Grant → Result (List Grant)
  claim_loop zero s worker session time cap runs granted = ok granted
  claim_loop (suc fuel) s worker session time cap runs granted =
      if leb cap (length granted) then ok granted else (do
        r ← claim_pass s worker session time cap runs granted false
        let more = claim_loop fuel s worker session time cap runs r.0
        next_pass more r)

  -- What a session may claim at once.
  abbrev claim_cap : State → WorkerSession → ℕ → ℕ → ℕ → ℕ
  claim_cap s worker session capacity time =
      min (min capacity (worker.capacity - worker_in_flight s session time)) claim_batch

  abbrev own_renewal : WorkerSession → ℕ → ℕ → List DomainEvent
  own_renewal worker session time =
      if worker.principal_id == ""
      then session_registered session worker.activities worker.capacity (lease_from time) ∷ []
      else []

  -- A pass that goes on makes a grant, so `cap` passes are enough.
  unfoldable pub decide_claim : State → ℕ → ℕ → ℕ → Result Decision
  decide_claim s session capacity time = do
    worker ← or_fail (Map.get session s.sessions) unauthenticated "unknown session"
    refuse_if (leb worker.expires_ms time) failed_precondition "session expired"
    let cap = claim_cap s worker session capacity time
    let runs = rotate_past s.fair_cursor (sort_by leb (active_runs s))
    granted ← claim_loop cap s worker session time cap runs []
    ok (own_renewal worker session time ++ map claim_granted granted)
