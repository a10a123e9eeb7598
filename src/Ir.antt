-- ===== src/Ir.antt =====
-- graphrun/src/ir.rs: the graph of a workflow. A region holds its nodes by name, a node holds the
-- regions of its bodies.
use graphrun.Prelude.{
  ℕ, String, Bool, true, false, Option, none, some, List, ◌==◌, string_eq, if◌then◌else◌,
}
use graphrun.Map.{Map}
use graphrun.Ids.{ActivityKey}
use graphrun.Policy.{RetryPolicy}
use graphrun.Schema.{SchemaRef}
use graphrun.Binding.{Binding, Condition}

pub data PathSeg : Type 0 where
  root body default : PathSeg
  node branch case : String → PathSeg

pub data ConsumeFrom : Type 0 where
  buffered after_activation : ConsumeFrom

pub data Compensation : Type 0 where
  activity : ActivityKey → Binding → Option ℕ → Option RetryPolicy → Compensation
  irreversible : String → Compensation

pub record FailError : Type 0 where
  pub code : String
  pub message : String

-- Constructor arguments stand in the order of the source's fields.
mutual
  pub data Region : Type 0 where
    region : List PathSeg → SchemaRef → SchemaRef → String → Nodes → Region

  pub data Nodes : Type 0 where
    no_nodes : Nodes
    with_node : String → Node → Nodes → Nodes

  pub data Node : Type 0 where
    activity : ActivityKey → Binding → Option ℕ → RetryPolicy → Option Compensation → String → Node
    choose : Binding → Cases → Region → String → Node
    delay : Binding → String → Node
    wait_until : Binding → String → Node
    wait_signal : String → Binding → Option ℕ → ConsumeFrom → String → Option String → Node
    complete : Binding → Node
    fail : FailError → Node
    while : Binding → SchemaRef → Condition → ℕ → Region → String → Node
    do_while : Binding → SchemaRef → Condition → ℕ → Region → String → Node
    repeat : Binding → Binding → SchemaRef → ℕ → Region → String → Node
    foreach : Binding → SchemaRef → ℕ → ℕ → Region → String → Node
    parallel : Branches → String → Node
    saga : Binding → Region → String → Node

  pub data Cases : Type 0 where
    no_cases : Cases
    with_case : String → Condition → Region → Cases → Cases

  pub data Branches : Type 0 where
    no_branches : Branches
    with_branch : String → Binding → Region → Branches → Branches

unfoldable pub find_node : String → Nodes → Option Node
find_node k Nodes.no_nodes = none
find_node k (Nodes.with_node j n ns) = if j == k then some n else find_node k ns

unfoldable pub find_case : String → Cases → Option Region
find_case name Cases.no_cases = none
find_case name (Cases.with_case j c r cs) = if j == name then some r else find_case name cs

unfoldable pub find_branch : String → Branches → Option Region
find_branch name Branches.no_branches = none
find_branch name (Branches.with_branch j b r bs) = if j == name then some r else find_branch name bs

-- `region.nodes.get(node)`.
unfoldable pub node_of : Region → String → Option Node
unfolding find_node
node_of (Region.region path input output start nodes) k = find_node k nodes

unfoldable pub start_of : Region → String
start_of (Region.region path input output start nodes) = start

-- The edge of `successors()` that is called "next".
unfoldable pub next_of : Node → Option String
next_of (Node.activity k i t r c next) = some next
next_of (Node.choose i cs d next) = some next
next_of (Node.delay d next) = some next
next_of (Node.wait_until at next) = some next
next_of (Node.wait_signal s k t c next on_timeout) = some next
next_of (Node.complete output) = none
next_of (Node.fail e) = none
next_of (Node.while s h c m b next) = some next
next_of (Node.do_while s h c m b next) = some next
next_of (Node.repeat n s h m b next) = some next
next_of (Node.foreach i h m c b next) = some next
next_of (Node.parallel bs next) = some next
next_of (Node.saga i b next) = some next

abbrev pub is_activity : Node → Bool
is_activity (Node.activity k i t r c next) = true
is_activity _ = false

-- `definition`, without the fields that only the compiler and the publication read.
pub record Definition : Type 0 where
  pub id : String
  pub version : ℕ
  pub input_schema : SchemaRef
  pub output_schema : SchemaRef
  pub signals : Map String SchemaRef
  pub run_timeout_ms : Option ℕ
  pub root : Region
