-- ===== src/Domain/Region.antt =====
-- graphrun/src/domain.rs: the region that a scope runs, and the saga that owns a scope. Both climb
-- from a scope to the scope of its parent activation. The climb takes one more step than there are
-- scopes; a longer one visits a scope twice, where the source never returns.
use graphrun.Prelude.{
  ℕ, zero, suc, String, Bool, false, not, Option, none, some, length, ◌==◌, nat_eq, option_eq,
  string_eq, if◌then◌else◌,
}
use graphrun.Map
use graphrun.Maybe.{◌>>=◌}
use graphrun.Ir.{Region, Node, node_of, find_case, find_branch, is_activity}
use graphrun.Domain.Event.{ScopeRole}
use graphrun.Domain.State.{State}

abbrev single_body : Node → Option Region
single_body (Node.while s h c m b next) = some b
single_body (Node.do_while s h c m b next) = some b
single_body (Node.repeat n s h m b next) = some b
single_body (Node.foreach i h m c b next) = some b
single_body (Node.saga i b next) = some b
single_body _ = none

abbrev branch_body : String → Node → Option Region
branch_body name (Node.parallel bs next) = find_branch name bs
branch_body name _ = none

abbrev case_body : String → Node → Option Region
case_body name (Node.choose i cs default next) =
    if name == "default" then some default else find_case name cs
case_body name _ = none

-- The activation that opened a scope of the role, and how its node holds the scope's region.
unfoldable pub opener : ScopeRole → Option ℕ
opener ScopeRole.root = none
opener (ScopeRole.loop_body a i) = some a
opener (ScopeRole.foreach_item a i) = some a
opener (ScopeRole.saga_body a) = some a
opener (ScopeRole.parallel_branch a name) = some a
opener (ScopeRole.choose_body a name) = some a

unfoldable pub body_of : ScopeRole → Node → Option Region
body_of (ScopeRole.parallel_branch a name) node = branch_body name node
body_of (ScopeRole.choose_body a name) node = case_body name node
body_of _ node = single_body node

unfoldable pub climb : ℕ → State → ℕ → Option Region
unfolding body_of opener
climb zero s scope = none
climb (suc fuel) s scope = do
  scope_state ← Map.get scope s.scopes
  run ← Map.get scope_state.run s.runs
  elim (opener scope_state.role) [
    | none ↦ some run.definition.root
    | some activation ↦ do
      parent ← Map.get activation s.activations
      parent_region ← climb fuel s parent.scope
      node ← node_of parent_region parent.node
      body_of scope_state.role node
  ]

-- `lookup_region` and `region_for_scope`.
unfoldable pub lookup_region : State → ℕ → Option Region
lookup_region s scope = climb (suc (length s.scopes)) s scope

unfoldable pub is_activity_node : State → ℕ → String → Bool
is_activity_node s scope node = elim (lookup_region s scope >>= λ region. node_of region node) [
  | none ↦ false
  | some n ↦ is_activity n
]

-- The saga whose body a scope is, unless it is the one to skip.
unfoldable pub body_owner : ScopeRole → Option ℕ → Option ℕ
body_owner (ScopeRole.saga_body activation) skip =
    if not (skip == some activation) then some activation else none
body_owner _ skip = none

unfoldable pub owner_climb : ℕ → State → ℕ → Option ℕ → Option ℕ
unfolding body_owner
owner_climb zero s scope_id skip = none
owner_climb (suc fuel) s scope_id skip = do
  scope ← Map.get scope_id s.scopes
  elim (body_owner scope.role skip) [
    | some saga ↦ some saga
    | none ↦ do
      parent_act ← scope.parent
      parent ← Map.get parent_act s.activations
      owner_climb fuel s parent.scope skip
  ]

unfoldable pub saga_owner_from_scope : State → ℕ → Option ℕ → Option ℕ
saga_owner_from_scope s scope_id skip = owner_climb (suc (length s.scopes)) s scope_id skip

unfoldable pub saga_owner : State → ℕ → Option ℕ
unfolding saga_owner_from_scope
saga_owner s forward = do
  act ← Map.get forward s.activations
  saga_owner_from_scope s act.scope none

unfoldable pub parent_saga : State → ℕ → Option ℕ
unfolding saga_owner_from_scope
parent_saga s saga = do
  act ← Map.get saga s.activations
  saga_owner_from_scope s act.scope (some saga)
