-- ===== src/Domain/Leaves.antt =====
-- graphrun/src/domain.rs: what the result of a leaf is checked against, and the events that it
-- leads to. The message of an error is its format string, also where it becomes a reason.
use graphrun.Prelude.{
  ℕ, String, Option, none, some, List, [], ◌∷◌, ◌++◌, ◌==◌, not, nat_eq, if◌then◌else◌, find,
}
use graphrun.Map
use graphrun.Error.{
  Result, ok, err, panic, to_option, or_fail, refuse_if, invalid_argument, ◌>>=◌, ◌>>◌,
}
use graphrun.Value.{Value}
use graphrun.Ids.{forward, compensation, role_eq, activity_key}
use graphrun.Ir.{Compensation}
use graphrun.Catalog.{ActivityContract, activity, validate_value}
use graphrun.Externals.{Externals, IdGen}
use graphrun.Domain.Event.{
  DomainEvent, leaf_succeeded, node_output_recorded, obligation_registered, obligation_blocked,
}
use graphrun.Domain.State.{State, RunState, ActivationState, Obligation}
use graphrun.Domain.Contract.{ActivityNode, activity_at, contract_of}
use graphrun.Domain.Eval.{EvalCtx, eval_ctx, eval_binding}
use graphrun.Domain.Evolve.Scopes.{compensated_by}
use graphrun.Domain.Sessions.{Decision}
use graphrun.Domain.Ready.{run_is_aborting}
use graphrun.Domain.Follow.{follow_next}

-- The obligation that an activation compensates.
unfoldable pub compensated : State → ℕ → Option Obligation
compensated s activation = find (compensated_by activation) s.obligations

unfoldable pub decide_compensation_result : State → ℕ → ℕ → Value → Result Decision
unfolding compensated
decide_compensation_result s run activation output = do
  o ←
      or_fail (compensated s activation) invalid_argument
        "compensation activation has no obligation"
  refuse_if (not (o.run == run)) invalid_argument "compensation does not belong to run"
  ok (leaf_succeeded run activation 1 output compensation ∷ [])

module _ (ext : Externals) where
  unfoldable pub validate_compensation :
      State → RunState → ActivationState → Value → Result (Unit {0})
  unfolding compensated
  validate_compensation s run act output = do
    o ← or_fail (compensated s act.id) invalid_argument "compensation obligation missing"
    contract ← activity run.catalog (activity_key o.handler o.handler_version)
    validate_value ext.is_valid run.catalog contract.output_schema output

  abbrev validate_against : RunState → Option ActivityContract → Value → Result (Unit {0})
  validate_against run none output = ok tt
  validate_against run (some contract) output =
      validate_value ext.is_valid run.catalog contract.output_schema output

  abbrev validate_in : State → ActivationState → Option RunState → Value → Result (Unit {0})
  validate_in s act none output = ok tt
  validate_in s act (some run) output =
      let checked = validate_compensation s run act output in
      if act.role == compensation then checked else validate_against run (contract_of s act) output

  unfoldable pub validate_leaf_output : State → ActivationState → Value → Result (Unit {0})
  unfolding validate_compensation
  validate_leaf_output s act output = validate_in s act (Map.get act.run s.runs) output

  -- An evaluation that panics is not an input.
  abbrev pub registered : ActivationState → String → ℕ → Result Value → Result (List DomainEvent)
  registered act handler version (ok bound) =
      ok (obligation_registered act.run act.id handler version bound ∷ [])
  registered act handler version (err e) =
      ok (obligation_blocked act.run act.id handler version e.message ∷ [])
  registered act handler version panic = panic

  -- The forward input is evaluated once more, and left out if that fails.
  abbrev pub forward_ctx : EvalCtx → ActivityNode → Value → EvalCtx
  forward_ctx ctx node output = record ctx {
    forward_input = to_option (eval_binding node.input ctx);
    forward_output = some output;
  }

  unfoldable pub obligation_events :
      State
      → ActivationState
      → ActivityNode
      → Option Compensation
      → Value
      → Result (List DomainEvent)
  obligation_events s act node none output = ok []
  obligation_events s act node (some (Compensation.irreversible reason)) output =
      ok (obligation_blocked act.run act.id "irreversible" 1 reason ∷ [])
  obligation_events s act node (some (Compensation.activity key input timeout retry)) output =
      elim (Map.get act.scope s.scopes) [
        | none ↦ ok []
        | some scope ↦ do
          ctx ← eval_ctx ext s scope
          registered act key.name key.version (eval_binding input (forward_ctx ctx node output))
      ]

  unfoldable pub compensation_events : State → ActivationState → Value → Result (List DomainEvent)
  unfolding obligation_events
  compensation_events s act output = elim (activity_at s act) [
    | none ↦ ok []
    | some node ↦ obligation_events s act node node.compensation output
  ]

  -- The result of a forward leaf; a run that is being aborted goes no further.
  unfoldable pub report_forward :
      State → ℕ → ℕ → ActivationState → Value → IdGen → Result (Decision × IdGen)
  unfolding compensation_events
  report_forward s run activation act output ids = do
    owed ← compensation_events s act output
    let done =
        leaf_succeeded run activation 1 output forward
        ∷ node_output_recorded run act.scope act.node output
        ∷ owed
    let further = do r ← follow_next ext s act.scope act.node ids; ok (done ++ r.0, r.1)
    if run_is_aborting s run then ok (done, ids) else further

  unfoldable pub report_success : State → ℕ → ℕ → Value → IdGen → Result (Decision × IdGen)
  unfolding validate_leaf_output decide_compensation_result report_forward
  report_success s run activation output ids = do
    act ← or_fail (Map.get activation s.activations) invalid_argument "unknown activation"
    validate_leaf_output s act output
    let compensated_leaf = do
      events ← decide_compensation_result s run activation output
      ok (events, ids)
    let forward_leaf = report_forward s run activation act output ids
    if act.role == compensation then compensated_leaf else forward_leaf
