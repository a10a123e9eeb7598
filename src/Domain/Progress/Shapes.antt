-- ===== src/Domain/Progress/Shapes.antt =====
-- graphrun/src/domain.rs: which events the steps of a node can lead to.
use graphrun.Prelude.{ℕ, String, ◌≡◌, List, All}
use mathlib.Core.Path.{subst}
use graphrun.Error.{ok, >>=-eq-ok}
use graphrun.Value.{Value}
use graphrun.Ir.{FailError}
use graphrun.Externals.{Externals, IdGen, next_id}
use graphrun.Domain.Event.{DomainEvent, activation_opened, node_output_recorded}
use graphrun.Domain.State.{State, ActivationState}
use graphrun.Domain.Follow.{fail_scope, follow_next}
use graphrun.Domain.Follow.Shapes.{OfFailure, fail_scope-All, follow_next-All}
use graphrun.Domain.Progress.Bodies.{Step, fail_step, finish}

-- What a call returned, it returned.
pub ok_same {ℓ} : (P : Step → Type ℓ) {p q : Step} → ok p ≡ ok q → P p → P q
ok_same P {p} {q} e h = let same : p ≡ q = cc e in subst P same h

pub ok_events :
    (P : DomainEvent → Type 0) {xs ys : List DomainEvent} → ok xs ≡ ok ys → All P xs → All P ys
ok_events P {xs} {ys} e h = let same : xs ≡ ys = cc e in subst (All P) same h

-- A property of the events that the end of a node leads to.
pub record OfStep (P : DomainEvent → Type 0) : Type 0 where
  pub failing : OfFailure P
  pub output :
      (run scope : ℕ) (node : String) (v : Value) → P (node_output_recorded run scope node v)
  pub opens :
      (run scope activation : ℕ) (node : String) → P (activation_opened run scope activation node)

module _ (P : DomainEvent → Type 0) (h : OfStep P) (s : State) where
  pub fail_step-All :
      (scope : ℕ) (error : FailError) (ids : IdGen) (step : Step)
      → fail_step s scope error ids ≡ ok step
      → All P step.0
  unfolding fail_step
  fail_step-All scope error ids step e =
      let (events, failed, done) = >>=-eq-ok (fail_scope s scope error) _ {b = step} e in
      ok_same (λ z. All P z.0) done (fail_scope-All P h.failing s scope error events failed)

  pub finish-All :
      (ext : Externals) (act : ActivationState) (output : Value) (ids : IdGen) (step : Step)
      → finish ext s act output ids ≡ ok step
      → All P step.0
  unfolding finish
  finish-All ext act output ids step e =
      let (r, went_on, done) =
        >>=-eq-ok (follow_next ext s act.scope act.node ids) _ {b = step} e in
      ok_same (λ z. All P z.0) done
        (
          h.output act.run act.scope act.node output,
          follow_next-All ext P s ids (λ run scope node. h.opens run scope (next_id ext ids).0 node)
              act.scope act.node r.1 r.0 went_on,
        )
