-- ===== src/Domain/Progress/Loops.antt =====
-- graphrun/src/domain.rs: `progress_while`, `open_loop_body` and `progress_repeat`. Counters wrap
-- at 32 bits.
pub mod Bounds
pub mod Counting
use graphrun.Prelude.{
  ℕ, ◌+◌, ◌%◌, ◌^◌, Bool, not, ◌&&◌, Option, none, some, [], ◌∷◌, ◌==◌, nat_eq, ltb, leb, ℤ, pos,
  negsuc, if◌then◌else◌,
}
use graphrun.Map
use graphrun.Error.{
  Result, ok, unwrap, to_option, invalid, refuse_if, invalid_argument, ◌>>=◌, ◌>>◌,
}
use graphrun.Value.{Value}
use graphrun.Binding.{Binding, Condition}
use graphrun.Ir.{Region, FailError}
use graphrun.Externals.{Externals, IdGen}
use graphrun.Domain.Event.{DomainEvent, ScopeRole, guard_recorded}
use graphrun.Domain.State.{State, ScopeState, ScopeStatus, ActivationState}
use graphrun.Domain.Eval.{EvalCtx, eval_ctx, eval_binding, eval_condition}
use graphrun.Domain.Progress.Bodies.{Step, child_of, fail_step, open_body, finish}

abbrev pub limit_exceeded : FailError
limit_exceeded = record {
  code = "LoopLimitExceeded";
  message = "loop continuation at the iteration limit";
}

abbrev pub in_loop : EvalCtx → Value → ℕ → EvalCtx
in_loop ctx carry index = record ctx { loop_state = some carry; loop_index = some (pos index) }

module _ (ext : Externals) where
  -- The carry of a loop and how far it counts; before the first round, its initial state.
  unfoldable pub carry_of : State → ActivationState → ScopeState → Binding → Result (Value × ℕ)
  carry_of s act scope initial = elim (Map.get act.id s.loop_carry) [
    | some carry ↦ ok carry
    | none ↦ do
      ctx ← eval_ctx ext s scope
      value ← unwrap (to_option (eval_binding initial ctx))
      ok (value, 0)
  ]

  unfoldable pub open_loop_body : ActivationState → Region → Value → ℕ → IdGen → Step
  unfolding open_body
  open_loop_body act body carry index ids =
      open_body ext act (ScopeRole.loop_body act.id index) body carry ids

  abbrev after_guard : DomainEvent → Step → Step
  after_guard guard step = (guard ∷ step.0, step.1)

  module _ (s : State) (act : ActivationState) where
    -- A guard that holds opens the next body, one that fails ends the loop.
    unfoldable pub guarded :
        ScopeState → Condition → Region → Value → ℕ → Bool → IdGen → Result Step
    unfolding open_loop_body finish
    guarded scope condition body carry index go_on ids = do
      let guard = guard_recorded act.run act.id go_on index carry
      let stop = do step ← finish ext s act carry ids; ok (after_guard guard step)
      let more = after_guard guard (open_loop_body act body carry index ids)
      if go_on then ok more else stop

    -- The round after a body that completed.
    unfoldable pub next_round :
        ScopeState → Condition → ℕ → Region → Value → ℕ → IdGen → Result Step
    unfolding guarded
    next_round scope condition max_iterations body carry completed ids = do
      ctx ← eval_ctx ext s scope
      go_on ← eval_condition condition (in_loop ctx carry completed)
      let limited = fail_step s act.scope limit_exceeded ids
      let round = guarded scope condition body carry completed go_on ids
      if go_on && leb max_iterations completed then limited else round

    unfoldable pub first_round :
        ScopeState → Condition → Region → Value → ℕ → Bool → IdGen → Result Step
    unfolding guarded
    first_round scope condition body carry completed do_while ids = do
      ctx ← eval_ctx ext s scope
      let first = open_loop_body act body carry 0 ids
      let round = do
        go_on ← eval_condition condition (in_loop ctx carry completed)
        guarded scope condition body carry 0 go_on ids
      if not (completed == 0) then ok ([], ids) else (if do_while then ok first else round)

    unfoldable pub while_child :
        ScopeState
        → Condition
        → ℕ
        → Region
        → Value
        → ℕ
        → Bool
        → IdGen
        → Option ScopeState
        → Result Step
    unfolding next_round first_round
    while_child scope condition max_iterations body carry completed do_while ids none =
        first_round scope condition body carry completed do_while ids
    while_child scope condition max_iterations body carry completed do_while ids (some child) =
        elim child.status [
          | ScopeStatus.opened ↦ ok ([], ids)
          | ScopeStatus.failed error ↦ fail_step s act.scope error ids
          | ScopeStatus.completed output ↦
              next_round scope condition max_iterations body output ((completed + 1) % 2 ^ 32) ids
        ]

    unfoldable pub progress_while : Binding → Condition → ℕ → Region → Bool → IdGen → Result Step
    unfolding carry_of while_child
    progress_while initial condition max_iterations body do_while ids = do
      scope ← unwrap (Map.get act.scope s.scopes)
      carried ← carry_of s act scope initial
      while_child scope condition max_iterations body carried.0 carried.1 do_while ids
          (child_of s act.id)

    abbrev count_of : Value → Result ℤ
    count_of (Value.int n) = ok n
    count_of _ = invalid "repeat count must be an integer"

    -- A count that is not negative and whose low 32 bits are within the limit.
    abbrev pub count_in_range : ℤ → ℕ → Result ℕ
    count_in_range (negsuc n) max_iterations = invalid "repeat count is out of range"
    count_in_range (pos n) max_iterations = do
      refuse_if (ltb max_iterations (n % 2 ^ 32)) invalid_argument "repeat count is out of range"
      ok n

    unfoldable pub repeat_child : Region → Value → ℕ → ℕ → IdGen → Option ScopeState → Result Step
    unfolding open_loop_body finish
    repeat_child body carry completed count ids none =
        ok (open_loop_body act body carry completed ids)
    repeat_child body carry completed count ids (some child) = elim child.status [
      | ScopeStatus.opened ↦ ok ([], ids)
      | ScopeStatus.failed error ↦ fail_step s act.scope error ids
      | ScopeStatus.completed output ↦
          let done = finish ext s act output ids in
          let more = open_loop_body act body output completed ids in
          if completed == count
          then done
          else (if ltb count completed then ok ([], ids) else ok more)
    ]

    unfoldable pub progress_repeat : Binding → Binding → ℕ → Region → IdGen → Result Step
    unfolding carry_of repeat_child
    progress_repeat count initial max_iterations body ids = do
      scope ← unwrap (Map.get act.scope s.scopes)
      ctx ← eval_ctx ext s scope
      value ← eval_binding count ctx
      number ← count_of value
      n ← count_in_range number max_iterations
      carried ← carry_of s act scope initial
      let nothing_to_do = finish ext s act carried.0 ids
      let round = repeat_child body carried.0 carried.1 n ids (child_of s act.id)
      if n == 0 && carried.1 == 0 then nothing_to_do else round
