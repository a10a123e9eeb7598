-- ===== src/Domain/Progress/Loops/Bounds.antt =====
-- graphrun/src/domain.rs: the bodies that `progress_while` opens, and how it counts them.
use graphrun.Prelude.{
  ℕ, ◌+◌, ◌%◌, ◌^◌, ◌≡◌, refl, sym, ◌∙◌, Bool, true, false, not, ◌&&◌, ◌||◌, Option, none, some, [],
  ◌==◌, nat_eq, ltb, leb, arith, All, Bool-cases, inl, inr,
}
use graphrun.Map
use graphrun.Error.{ok, unwrap, >>=-eq-ok}
use graphrun.Value.{Value}
use graphrun.Binding.{Binding, Condition}
use graphrun.Ir.{Region}
use graphrun.Externals.{Externals, IdGen}
use graphrun.Domain.Event.{DomainEvent, ScopeRole, scope_opened}
use graphrun.Domain.State.{State, ScopeState, ScopeStatus, ActivationState}
use graphrun.Domain.Eval.{eval_ctx, eval_condition}
use graphrun.Domain.Progress.Shapes.{ok_same, OfStep, fail_step-All, finish-All}
use graphrun.Domain.Progress.Bodies.{Step, child_of, fail_step, open_body, finish}
use graphrun.Domain.Progress.Loops.{
  carry_of, open_loop_body, guarded, next_round, first_round, while_child, progress_while, in_loop,
  limit_exceeded,
}

-- The number of a loop body: the first one, or below the limit.
abbrev pub numbered_below : ℕ → ScopeRole → Bool
numbered_below limit (ScopeRole.loop_body activation index) = index == 0 || ltb index limit
numbered_below limit _ = true

-- An event that opens no loop body with another number.
abbrev pub opens_below : ℕ → DomainEvent → Bool
opens_below limit (scope_opened run scope parent role input) = numbered_below limit role
opens_below limit _ = true

module _ (limit : ℕ) where
  abbrev pub Within : DomainEvent → Type 0
  Within e = opens_below limit e ≡ true

  step-Within : OfStep Within
  step-Within = record {
    failing = record {
      closing = record { released = λ w e. refl; cancelled = λ r w. refl };
      scope_fails = λ r c e. refl;
      run_fails = λ r e. refl;
    };
    output = λ r c n v. refl;
    opens = λ r c a n. refl;
  }

  module _ (ext : Externals) (s : State) (act : ActivationState) where
    body-Within :
        (body : Region) (carry : Value) (index : ℕ) (ids : IdGen)
        → numbered_below limit (ScopeRole.loop_body act.id index) ≡ true
        → All Within (open_loop_body ext act body carry index ids).0
    unfolding open_loop_body open_body
    body-Within body carry index ids h = (h, (refl, tt))

    guarded-Within :
        (scope : ScopeState) (condition : Condition) (body : Region) (carry : Value) (index : ℕ)
        (more : Bool) (ids : IdGen) (step : Step)
        → (more ≡ true → numbered_below limit (ScopeRole.loop_body act.id index) ≡ true)
        → guarded ext s act scope condition body carry index more ids ≡ ok step
        → All Within step.0
    unfolding guarded
    guarded-Within scope condition body carry index true ids step h e =
        ok_same (λ z. All Within z.0) e (refl, body-Within body carry index ids (h refl))
    guarded-Within scope condition body carry index false ids step h e =
        let (ended, finished, done) = >>=-eq-ok (finish ext s act carry ids) _ {b = step} e in
        ok_same (λ z. All Within z.0) done
          (refl, finish-All Within step-Within s ext act carry ids ended finished)

    next-Within :
        (scope : ScopeState) (condition : Condition) (body : Region) (carry : Value) (index : ℕ)
        (ids : IdGen) (step : Step)
        → next_round ext s act scope condition limit body carry index ids ≡ ok step
        → All Within step.0
    unfolding next_round
    next-Within scope condition body carry index ids step e =
        let (ctx, made, e1) = >>=-eq-ok (eval_ctx ext s scope) _ {b = step} e in
        let (more, held, e2) =
          >>=-eq-ok (eval_condition condition (in_loop ctx carry index)) _ {b = step} e1 in
        elim (Bool-cases (more && leb limit index)) [
          | inl full ↦
              fail_step-All Within step-Within s act.scope limit_exceeded ids step
                (sym (rw (full) refl) ∙ e2)
          | inr room ↦
              guarded-Within scope condition body carry index more ids step (λ go. ground arith)
                (sym (rw (room) refl) ∙ e2)
        ]

    first-Within :
        (scope : ScopeState) (condition : Condition) (body : Region) (carry : Value) (completed : ℕ)
        (do_while : Bool) (ids : IdGen) (step : Step)
        → first_round ext s act scope condition body carry completed do_while ids ≡ ok step
        → All Within step.0
    unfolding first_round
    first-Within scope condition body carry completed do_while ids step e =
        let (ctx, made, e1) = >>=-eq-ok (eval_ctx ext s scope) _ {b = step} e in
        elim (Bool-cases (not (completed == 0))) [
          | inl started ↦
              ok_same (λ z. All Within z.0) {p = ([], ids)} {q = step}
                (sym (rw (started) refl) ∙ e1) tt
          | inr fresh ↦ elim (Bool-cases do_while) [
            | inl at_once ↦
                ok_same (λ z. All Within z.0) {p = open_loop_body ext act body carry 0 ids}
                  {q = step} (sym (rw (fresh, at_once) refl) ∙ e1)
                  (body-Within body carry 0 ids refl)
            | inr tested ↦
                let (more, held, e2) =
                  >>=-eq-ok (eval_condition condition (in_loop ctx carry completed))
                    (λ more. guarded ext s act scope condition body carry 0 more ids) {b = step}
                    (sym (rw (fresh, tested) refl) ∙ e1) in
                guarded-Within scope condition body carry 0 more ids step (λ go. refl) e2
          ]
        ]

    child-Within :
        (scope : ScopeState) (condition : Condition) (body : Region) (carry : Value) (completed : ℕ)
        (do_while : Bool) (ids : IdGen) (child : Option ScopeState) (step : Step)
        → while_child ext s act scope condition limit body carry completed do_while ids child
          ≡ ok step
        → All Within step.0
    unfolding while_child
    child-Within scope condition body carry completed do_while ids none step e =
        first-Within scope condition body carry completed do_while ids step e
    child-Within scope condition body carry completed do_while ids (some child) step e =
        by_status child.status e
      where
        by_status :
            (st : ScopeStatus)
            → (elim st [
              | ScopeStatus.opened ↦ ok ([], ids)
              | ScopeStatus.failed error ↦ fail_step s act.scope error ids
              | ScopeStatus.completed output ↦
                  next_round ext s act scope condition limit body output
                    ((completed + 1) % 2 ^ 32)
                    ids
            ])
              ≡ ok step
            → All Within step.0
        by_status ScopeStatus.opened e = ok_same (λ z. All Within z.0) e tt
        by_status (ScopeStatus.failed error) e =
            fail_step-All Within step-Within s act.scope error ids step e
        by_status (ScopeStatus.completed output) e =
            next-Within scope condition body output ((completed + 1) % 2 ^ 32) ids step e

    -- A step of a while or do-while loop opens no body but the first one and those whose number is
    -- below the loop's limit.
    pub progress_while-Within :
        (initial : Binding) (condition : Condition) (body : Region) (do_while : Bool) (ids : IdGen)
        (step : Step)
        → progress_while ext s act initial condition limit body do_while ids ≡ ok step
        → All Within step.0
    unfolding progress_while
    progress_while-Within initial condition body do_while ids step e =
        let (scope, found, e1) = >>=-eq-ok (unwrap (Map.get act.scope s.scopes)) _ {b = step} e in
        let (carried, got, e2) = >>=-eq-ok (carry_of ext s act scope initial) _ {b = step} e1 in
        child-Within scope condition body carried.0 carried.1 do_while ids (child_of s act.id) step
          e2
