-- ===== src/Domain/Progress/Loops/Counting.antt =====
-- graphrun/src/domain.rs: how the event that completes a loop body and the guard after it count.
use graphrun.Prelude.{ℕ, ◌+◌, ◌%◌, ◌^◌, ◌<◌, ◌≡◌, refl, true, false, some, ◌∷◌, nat_eq, leb, arith}
use graphrun.Map
use graphrun.Map.Laws.{get-insert_self}
use graphrun.Error.{ok}
use graphrun.Value.{Value}
use graphrun.Binding.{Binding, Condition}
use graphrun.Ir.{Region}
use graphrun.Externals.{Externals, IdGen}
use graphrun.Domain.Event.{ScopeRole, scope_completed, guard_recorded}
use graphrun.Domain.State.{State, ScopeState, ScopeStatus, ActivationState}
use graphrun.Domain.Eval.{EvalCtx, eval_ctx, eval_condition}
use graphrun.Domain.Evolve.{evolve}
use graphrun.Domain.Evolve.Scopes.{complete, note_completed, body_done}
use graphrun.Domain.Progress.Bodies.{child_of}
use graphrun.Domain.Progress.Loops.{
  carry_of, open_loop_body, guarded, next_round, while_child, progress_while, in_loop, after_guard,
}

module _ (ext : Externals) (s t : State) (act : ActivationState) (i : ℕ) where
  carried :
      (run scope : ℕ) (c : ScopeState) (output : Value)
      → Map.get scope s.scopes ≡ some c
      → c.role ≡ ScopeRole.loop_body act.id i
      → evolve s (scope_completed run scope output) ≡ ok t
      → Map.get act.id t.loop_carry ≡ some (output, (i + 1) % 2 ^ 32)
  unfolding evolve complete note_completed body_done
  carried run scope c output found role moved =
      ground
        (arith, found, role, moved, get-insert_self act.id (output, (i + 1) % 2 ^ 32) s.loop_carry)

  carry_found :
      (scope : ScopeState) (initial : Binding) (carry : Value × ℕ)
      → Map.get act.id t.loop_carry ≡ some carry
      → carry_of ext t act scope initial ≡ ok carry
  unfolding carry_of
  carry_found scope initial carry h = rw (h, carry_of) refl

  child_completed :
      (scope child : ScopeState) (condition : Condition) (limit : ℕ) (body : Region)
      (carry output : Value) (completed : ℕ) (ids : IdGen)
      → child.status ≡ ScopeStatus.completed output
      → while_child ext t act scope condition limit body carry completed false ids (some child)
        ≡ next_round ext t act scope condition limit body output ((completed + 1) % 2 ^ 32) ids
  unfolding while_child
  child_completed scope child condition limit body carry output completed ids h =
      rw (h, while_child) refl

  round_goes_on :
      (scope : ScopeState) (condition : Condition) (limit : ℕ) (body : Region) (carry : Value)
      (index : ℕ) (ids : IdGen) (ctx : EvalCtx)
      → eval_ctx ext t scope ≡ ok ctx
      → eval_condition condition (in_loop ctx carry index) ≡ ok true
      → leb limit index ≡ false
      → next_round ext t act scope condition limit body carry index ids
        ≡ ok (
            after_guard ext
              (guard_recorded act.run act.id true index carry)
              (open_loop_body ext act body carry index ids))
  unfolding next_round guarded
  round_goes_on scope condition limit body carry index ids ctx made holds room =
      rw (made, holds, room, next_round, guarded) refl

  -- After the body with number `i` of a loop has completed, the guard is evaluated with the loop
  -- index i + 2, and if it holds and i + 2 is below the loop's limit, the next body has the number
  -- i + 2: both the event that completes the body and the guard after it count the body. The child
  -- that the loop looks at is the completed one, and the limit fits 32 bits.
  pub progress_while-counts_twice :
      (run scope : ℕ) (c parent child : ScopeState) (output : Value) (ctx : EvalCtx)
      (initial : Binding) (condition : Condition) (limit : ℕ) (body : Region) (ids : IdGen)
      → limit < 2 ^ 32
      → i + 2 < limit
      → Map.get scope s.scopes ≡ some c
      → c.role ≡ ScopeRole.loop_body act.id i
      → evolve s (scope_completed run scope output) ≡ ok t
      → Map.get act.scope t.scopes ≡ some parent
      → child_of t act.id ≡ some child
      → child.status ≡ ScopeStatus.completed output
      → eval_ctx ext t parent ≡ ok ctx
      → eval_condition condition (in_loop ctx output (i + 2)) ≡ ok true
      → progress_while ext t act initial condition limit body false ids
        ≡ ok (
          guard_recorded act.run act.id true (i + 2) output
              ∷ (open_loop_body ext act body output (i + 2) ids).0,
          (open_loop_body ext act body output (i + 2) ids).1,
        )
  unfolding progress_while
  progress_while-counts_twice run scope c parent child output ctx initial condition limit body ids
        small below found role moved at_parent at_child done made holds =
      let kept = carried run scope c output found role moved in
      let number : ((i + 1) % 2 ^ 32 + 1) % 2 ^ 32 ≡ i + 2 = omega (arith, small, below) in
      let room : leb limit (i + 2) ≡ false = ground (arith, below) in
      let carry = carry_found parent initial (output, (i + 1) % 2 ^ 32) kept in
      let next =
        child_completed parent child condition limit body output output ((i + 1) % 2 ^ 32) ids
          done in
      let round =
        round_goes_on parent condition limit body output (i + 2) ids ctx made holds room in
      rw (at_parent, progress_while, carry, at_child, next, number) round
