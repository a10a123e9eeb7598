-- ===== src/Domain/Commands/Keys.antt =====
-- graphrun/src/domain.rs: `activity_key`, what an activation runs in the role of its claim.
use graphrun.Prelude.{ℕ, Option, some, ◌==◌, nat_eq, is_some_and, find, if◌then◌else◌}
use graphrun.Map
use graphrun.Maybe.{◌>>=◌}
use graphrun.Error.{to_option}
use graphrun.Value.{Value}
use graphrun.Ids.{ActivityKey, compensation, reconciliation, role_eq}
use graphrun.Ids
use graphrun.Catalog.{activity}
use graphrun.Externals.{Externals}
use graphrun.Domain.State.{State, ActivationState}
use graphrun.Domain.Contract.{ActivityNode, activity_at}
use graphrun.Domain.Eval.{eval_in}
use graphrun.Domain.Evolve.Scopes.{compensated_by}

module _ (ext : Externals) (s : State) where
  abbrev key_and_input : ActivationState → ActivityNode → Option (ActivityKey × Value)
  key_and_input act a = do
    scope ← Map.get act.scope s.scopes
    bound ← to_option (eval_in ext s scope a.input)
    some (a.key, bound)

  unfoldable pub forward_key : ActivationState → Option (ActivityKey × Value)
  forward_key act = do a ← activity_at s act; key_and_input act a

  unfoldable pub reconciler_key : ActivationState → Option (ActivityKey × Value)
  unfolding forward_key
  reconciler_key act = do
    found ← forward_key act
    run ← Map.get act.run s.runs
    contract ← to_option (activity run.catalog found.0)
    recon ← contract.reconciler
    some (recon, found.1)

  unfoldable pub compensation_key : ℕ → Option (ActivityKey × Value)
  compensation_key activation = do
    o ← find (compensated_by activation) s.obligations
    some (Ids.activity_key o.handler o.handler_version, o.input)

  abbrev key_in_role_of : ℕ → ActivationState → Option (ActivityKey × Value)
  key_in_role_of activation act =
      if is_some_and act.claim (λ claim. claim.role == reconciliation)
      then reconciler_key act
      else (if act.role == compensation then compensation_key activation else forward_key act)

  unfoldable pub activity_key : ℕ → Option (ActivityKey × Value)
  unfolding reconciler_key compensation_key
  activity_key activation = do act ← Map.get activation s.activations; key_in_role_of activation act
