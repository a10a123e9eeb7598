-- ===== src/Domain/Progress/Bodies.antt =====
-- graphrun/src/domain.rs: the scopes that a structured node opens for its bodies, and how such a
-- node ends. A step is its events and what is left of the ids.
use graphrun.Prelude.{
  ℕ, Option, none, some, List, [], ◌∷◌, ◌==◌, nat_eq, option_eq, find, filter, last?, sort_by_key,
}
use graphrun.Map
use graphrun.Error.{Result, ok, ◌>>=◌}
use graphrun.Value.{Value}
use graphrun.Ir.{Region, FailError, start_of}
use graphrun.Externals.{Externals, IdGen, next_id}
use graphrun.Domain.Event.{
  DomainEvent, ScopeRole, scope_opened, activation_opened, node_output_recorded, scope_completed,
  run_succeeded,
}
use graphrun.Domain.State.{State, ScopeState, ActivationState, is_opened_scope}
use graphrun.Domain.Follow.{follow_next, fail_scope}

abbrev pub Step : Type 0
Step = List DomainEvent × IdGen

-- The scopes that an activation opened.
unfoldable pub children_of : State → ℕ → List ScopeState
children_of s parent = filter (λ c. c.parent == some parent) (Map.values s.scopes)

abbrev pub position : ScopeRole → ℕ
position (ScopeRole.loop_body activation index) = index
position (ScopeRole.foreach_item activation index) = index
position _ = 0

-- An open child, or else the last one by its position.
unfoldable pub child_of : State → ℕ → Option ScopeState
unfolding children_of
child_of s parent = elim (find (λ c. is_opened_scope c.status) (children_of s parent)) [
  | some child ↦ some child
  | none ↦ last? (sort_by_key (λ c. position c.role) (children_of s parent))
]

unfoldable pub complete_scope : ScopeState → Value → List DomainEvent
complete_scope c output =
    scope_completed c.run c.id output
    ∷ elim c.role [ ScopeRole.root ↦ run_succeeded c.run output ∷ [] | _ ↦ [] ]

-- A step that fails a scope.
unfoldable pub fail_step : State → ℕ → FailError → IdGen → Result Step
fail_step s scope error ids = do events ← fail_scope s scope error; ok (events, ids)

module _ (ext : Externals) where
  -- A scope for a body of the activation, and the start of the body in it.
  unfoldable pub open_body : ActivationState → ScopeRole → Region → Value → IdGen → Step
  open_body act role body input ids =
      let (scope, ids1) = next_id ext ids in
      let (start, ids2) = next_id ext ids1 in
      (
        scope_opened act.run scope (some act.id) role input
            ∷ activation_opened act.run scope start (start_of body)
            ∷ [],
        ids2,
      )

  -- The output of a node, and the node after it.
  unfoldable pub finish : State → ActivationState → Value → IdGen → Result Step
  finish s act output ids = do
    r ← follow_next ext s act.scope act.node ids
    ok (node_output_recorded act.run act.scope act.node output ∷ r.0, r.1)
