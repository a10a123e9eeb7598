-- ===== src/Domain/Contract.antt =====
-- graphrun/src/domain.rs: the activity at an activation's node, and its contract.
use graphrun.Prelude.{ℕ, String, Option, none, some, nat_eq}
use graphrun.Map
use graphrun.Maybe.{◌>>=◌}
use graphrun.Error.{to_option}
use graphrun.Ids.{ActivityKey}
use graphrun.Policy.{RetryPolicy}
use graphrun.Binding.{Binding}
use graphrun.Ir.{Node, Compensation, node_of}
use graphrun.Catalog.{ActivityContract, activity}
use graphrun.Domain.State.{State, ActivationState}
use graphrun.Domain.Region.{lookup_region}

-- The fields of `Node::Activity` that the engine reads.
pub record ActivityNode : Type 0 where
  pub key : ActivityKey
  pub input : Binding
  pub retry : RetryPolicy
  pub compensation : Option Compensation

abbrev pub activity_node : Node → Option ActivityNode
activity_node (Node.activity key input timeout retry compensation next) =
    some (record { key = key; input = input; retry = retry; compensation = compensation })
activity_node _ = none

-- `lookup_region(…)` and the node of the activation in it.
unfoldable pub node_at : State → ℕ → String → Option Node
node_at s scope node = do region ← lookup_region s scope; node_of region node

unfoldable pub activity_at : State → ActivationState → Option ActivityNode
unfolding node_at
activity_at s act = do node ← node_at s act.scope act.node; activity_node node

-- The contract of the activity, where all of the way to it is there.
unfoldable pub contract_of : State → ActivationState → Option ActivityContract
unfolding activity_at
contract_of s act = do
  run ← Map.get act.run s.runs
  a ← activity_at s act
  to_option (activity run.catalog a.key)

-- The contract of the activity at a leaf's node, and its retry policy.
unfoldable pub forward_policy : State → ActivationState → Option (ActivityContract × RetryPolicy)
unfolding activity_at
forward_policy s act = do
  run ← Map.get act.run s.runs
  node ← activity_at s act
  contract ← to_option (activity run.catalog node.key)
  some (contract, node.retry)

-- The compensation at the node of the forward activation, where all of the way to it is there.
unfoldable pub compensation_at : State → ℕ → Option Compensation
unfolding activity_at
compensation_at s forward = do
  act ← Map.get forward s.activations
  node ← activity_at s act
  node.compensation
