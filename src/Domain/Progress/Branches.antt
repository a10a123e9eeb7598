-- ===== src/Domain/Progress/Branches.antt =====
-- graphrun/src/domain.rs: `progress_parallel`, `progress_choose` and `progress_saga`.
pub mod Choice
use graphrun.Prelude.{
  ℕ, suc, String, Bool, false, not, ◌&&◌, ◌||◌, Option, none, some, List, [], ◌∷◌, ◌++◌, ◌==◌,
  nat_eq, string_eq, ltb, if◌then◌else◌, find, any, contains, length, is_some_and,
}
use graphrun.Map.{Map}
use graphrun.Map
use graphrun.Error.{Result, ok, unwrap, ◌>>=◌}
use graphrun.Value.{Value, Values}
use graphrun.Binding.{Binding}
use graphrun.Ir.{Region, Branches, Cases, FailError}
use graphrun.Externals.{Externals, IdGen}
use graphrun.Domain.Event.{DomainEvent, ScopeRole}
use graphrun.Domain.State.{State, ScopeState, ScopeStatus, ActivationState, is_opened_scope}
use graphrun.Domain.Eval.{EvalCtx, eval_ctx, eval_binding, eval_condition}
use graphrun.Domain.Follow.{fail_scope}
use graphrun.Domain.Sagas.{compensating_in_flight, compensate_or_fail, settle_saga_success}
use graphrun.Domain.Progress.Bodies.{Step, children_of, child_of, fail_step, open_body, finish}
use graphrun.Domain.Progress.Items.{failure_of, has_failure}

abbrev pub branches_length : Branches → ℕ
branches_length Branches.no_branches = 0
branches_length (Branches.with_branch name input body bs) = suc (branches_length bs)

-- The outputs of the branches, in the order of the node.
unfoldable pub ordered_branches : Branches → Map String Value → Result Values
ordered_branches Branches.no_branches done = ok Values.nil
ordered_branches (Branches.with_branch name input body bs) done = do
  v ← unwrap (Map.get name done)
  vs ← ordered_branches bs done
  ok (Values.cons v vs)

abbrev branch_name : ScopeRole → List String
branch_name (ScopeRole.parallel_branch activation name) = name ∷ []
branch_name _ = []

-- The names of the branches that have a scope.
unfoldable pub names_of : List ScopeState → List String
names_of [] = []
names_of (c ∷ cs) = branch_name c.role ++ names_of cs

-- A claim with a lease: the effect of its activation may still apply.
abbrev is_claimed_in : ℕ → ActivationState → Bool
is_claimed_in scope act =
    act.scope == scope && is_some_and act.claim (λ claim. ltb 0 claim.lease_expiry_ms)

unfoldable pub may_still_apply : State → ℕ → Bool
may_still_apply s scope = any (is_claimed_in scope) (Map.values s.activations)

abbrev pub branch_cancelled : FailError
branch_cancelled = record { code = "branch.cancelled"; message = "sibling branch failed" }

-- The open branches but the failed one fail, other than those whose effect may still apply; whether
-- there are such ones is returned too.
unfoldable pub cancel_branches : State → ℕ → List ScopeState → Result (List DomainEvent × Bool)
unfolding may_still_apply
cancel_branches s failed [] = ok ([], false)
cancel_branches s failed (c ∷ cs) = do
  let concerned = not (c.id == failed) && is_opened_scope c.status
  let uncertain = concerned && may_still_apply s c.id
  let failing = fail_scope s c.id branch_cancelled
  events ← if concerned && not uncertain then failing else ok []
  rest ← cancel_branches s failed cs
  ok (events ++ rest.0, uncertain || rest.1)

abbrev or_no_outputs : Option (Map String Value) → Map String Value
or_no_outputs none = []
or_no_outputs (some done) = done

-- The first case that holds, and otherwise the default.
unfoldable pub choose_case : Cases → Region → EvalCtx → Result (String × Region)
choose_case Cases.no_cases default ctx = ok ("default", default)
choose_case (Cases.with_case name holds body cs) default ctx = do
  let later = choose_case cs default ctx
  chosen ← eval_condition holds ctx
  if chosen then ok (name, body) else later

module _ (ext : Externals) (s : State) (act : ActivationState) where
  -- The first branch that has no scope yet; `rest` where each has one.
  unfoldable pub open_branch : List String → Branches → EvalCtx → IdGen → Result Step → Result Step
  unfolding open_body
  open_branch existing Branches.no_branches ctx ids rest = rest
  open_branch existing (Branches.with_branch name input body bs) ctx ids rest = do
    let later = open_branch existing bs ctx ids rest
    let opened = do
      value ← eval_binding input ctx
      ok (open_body ext act (ScopeRole.parallel_branch act.id name) body value ids)
    if contains existing name then later else opened

  unfoldable pub parallel_failed : IdGen → Option ScopeState → Result Step
  unfolding cancel_branches
  parallel_failed ids none = ok ([], ids)
  parallel_failed ids (some failed) = do
    error ← unwrap (failure_of failed.status)
    cancelled ← cancel_branches s failed.id (children_of s act.id)
    let failing = do events ← fail_scope s act.scope error; ok (cancelled.0 ++ events, ids)
    if cancelled.1 then ok (cancelled.0, ids) else failing

  unfoldable pub progress_parallel : Branches → IdGen → Result Step
  unfolding parallel_failed open_branch ordered_branches names_of finish
  progress_parallel branches ids = do
    let done = or_no_outputs (Map.get act.id s.parallel_done)
    let existing = names_of (children_of s act.id)
    let failures = parallel_failed ids (find has_failure (children_of s act.id))
    let complete = do
      ordered ← ordered_branches branches done
      finish ext s act (Value.array ordered) ids
    let start = do
      scope ← unwrap (Map.get act.scope s.scopes)
      ctx ← eval_ctx ext s scope
      open_branch existing branches ctx ids failures
    let some_left = if ltb (length existing) (branches_length branches) then start else failures
    if length done == branches_length branches then complete else some_left

  unfoldable pub choose_child : Binding → Cases → Region → IdGen → Option ScopeState → Result Step
  unfolding choose_case open_body finish
  choose_child input cases default ids (some child) = elim child.status [
    | ScopeStatus.opened ↦ ok ([], ids)
    | ScopeStatus.failed error ↦ fail_step s act.scope error ids
    | ScopeStatus.completed output ↦ finish ext s act output ids
  ]
  choose_child input cases default ids none = do
    scope ← unwrap (Map.get act.scope s.scopes)
    ctx ← eval_ctx ext s scope
    captured ← eval_binding input ctx
    chosen ← choose_case cases default ctx
    ok (open_body ext act (ScopeRole.choose_body act.id chosen.0) chosen.1 captured ids)

  unfoldable pub progress_choose : Binding → Cases → Region → IdGen → Result Step
  unfolding choose_child
  progress_choose input cases default ids = choose_child input cases default ids (child_of s act.id)

  unfoldable pub saga_child : Binding → Region → IdGen → Option ScopeState → Result Step
  unfolding open_body finish
  saga_child input body ids (some child) = elim child.status [
    | ScopeStatus.opened ↦ ok ([], ids)
    | ScopeStatus.failed error ↦ compensate_or_fail ext s act.id error ids
    | ScopeStatus.completed output ↦ do
      step ← finish ext s act output ids
      ok (settle_saga_success s act.id ++ step.0, step.1)
  ]
  saga_child input body ids none = do
    scope ← unwrap (Map.get act.scope s.scopes)
    ctx ← eval_ctx ext s scope
    captured ← eval_binding input ctx
    ok (open_body ext act (ScopeRole.saga_body act.id) body captured ids)

  abbrev saga_round : Binding → Region → IdGen → Option FailError → Result Step
  saga_round input body ids (some error) = compensate_or_fail ext s act.id error ids
  saga_round input body ids none = saga_child input body ids (child_of s act.id)

  unfoldable pub progress_saga : Binding → Region → IdGen → Result Step
  unfolding saga_child
  progress_saga input body ids =
      let round = saga_round input body ids (Map.get act.id s.saga_errors) in
      if compensating_in_flight s act.id then ok ([], ids) else round
