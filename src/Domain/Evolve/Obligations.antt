-- ===== src/Domain/Evolve/Obligations.antt =====
-- graphrun/src/domain.rs, `evolve`: the obligations of sagas.
use graphrun.Prelude.{
  ℕ, String, Bool, ◌&&◌, Option, none, some, List, [], ◌∷◌, ◌++◌, ◌==◌, nat_eq, string_eq,
  if◌then◌else◌, any, contains, update_first, saturating_add,
}
use graphrun.Map
use graphrun.Error.{Result, ok, unwrap, ◌>>=◌}
use graphrun.Value.{Value}
use graphrun.Ids.{compensation}
use graphrun.Domain.Event.{CompensationStart}
use graphrun.Domain.State.{
  State, ScopeState, ActivationState, ActivationStatus, Obligation, ObligationStatus,
}
use graphrun.Domain.Region.{saga_owner}

-- `item.forward == forward`.
abbrev pub is_forward : ℕ → Obligation → Bool
is_forward activation o = o.forward == activation

abbrev owner_or : ℕ → Option ℕ → ℕ
owner_or activation none = activation
owner_or activation (some saga) = saga

-- The first obligation of the forward activation is rewritten; without one, a new one is added.
unfoldable pub put_obligation : State → ℕ → (Obligation → Obligation) → Obligation → State
put_obligation s activation f fresh = record s {
  obligations =
      if any (is_forward activation) s.obligations
      then update_first (is_forward activation) f s.obligations
      else s.obligations ++ fresh ∷ [];
}

unfoldable pub register_obligation : State → ℕ → ℕ → String → ℕ → Value → State
unfolding put_obligation
register_obligation s run activation handler version input =
    put_obligation s activation (λ o. record o { input = input; status = ObligationStatus.opened })
      (record {
        forward = activation;
        run = run;
        owner = owner_or activation (saga_owner s activation);
        handler = handler;
        handler_version = version;
        input = input;
        status = ObligationStatus.opened;
      })

abbrev pub blocked_status : String → String → ObligationStatus
blocked_status handler reason =
    if handler == "irreversible"
    then ObligationStatus.irreversible reason
    else ObligationStatus.blocked reason

unfoldable pub block_obligation : State → ℕ → ℕ → String → ℕ → String → State
unfolding put_obligation
block_obligation s run activation handler version reason =
    put_obligation s activation (λ o. record o { status = blocked_status handler reason })
      (record {
        forward = activation;
        run = run;
        owner = owner_or activation (saga_owner s activation);
        handler = handler;
        handler_version = version;
        input = Value.null;
        status = blocked_status handler reason;
      })

unfoldable pub set_status : State → ℕ → ObligationStatus → State
set_status s activation status = record s {
  obligations =
      update_first (is_forward activation) (λ o. record o { status = status }) s.obligations;
}

abbrev scope_in_run : ℕ → List ScopeState → Option ℕ
scope_in_run run [] = none
scope_in_run run (c ∷ cs) = if c.run == run then some c.id else scope_in_run run cs

-- The scope of the saga's activation, or else a scope of the run.
abbrev pub compensation_scope : State → ℕ → ℕ → Option ℕ
compensation_scope s saga run = elim (Map.get saga s.activations) [
  | some act ↦ some act.scope
  | none ↦ scope_in_run run (Map.values s.scopes)
]

unfoldable pub open_compensation : State → Option ℕ → CompensationStart → Result State
open_compensation s none c = ok s
open_compensation s (some scope) c = do
  run_state ← unwrap (Map.get c.run s.runs)
  let ready_order = saturating_add run_state.next_ready_order 1
  ok (record s {
    runs = Map.modify c.run (λ r. record r { next_ready_order = ready_order }) s.runs;
    activations =
        Map.insert c.activation
          (record {
            id = c.activation;
            run = c.run;
            scope = scope;
            node = "__compensate";
            status = ActivationStatus.ready;
            role = compensation;
            claim = none;
            attempts = 0;
            ready_order = ready_order;
          })
          s.activations;
  })

unfoldable pub start_compensation : State → CompensationStart → Result State
unfolding set_status open_compensation
start_compensation s c =
    open_compensation
      (set_status (record s { saga_errors = Map.insert c.saga c.error s.saga_errors }) c.forward
        (ObligationStatus.compensating c.activation))
      (compensation_scope s c.saga c.run) c

unfoldable pub transfer_obligation : State → ℕ → ℕ → State
transfer_obligation s activation to_saga = record s {
  obligations =
      update_first (is_forward activation) (λ o. record o { owner = to_saga }) s.obligations;
}

unfoldable pub abandon_each : ℕ → List ℕ → List Obligation → List Obligation
abandon_each run unresolved [] = []
abandon_each run unresolved (o ∷ os) =
    (if o.run == run && contains unresolved o.forward
      then record o { status = ObligationStatus.abandoned }
      else o)
    ∷ abandon_each run unresolved os

abbrev pub drop_claim : ℕ → ActivationState → ActivationState
drop_claim run act = if act.run == run then record act { claim = none } else act

unfoldable pub abandon_compensation : State → ℕ → List ℕ → State
unfolding abandon_each
abandon_compensation s run unresolved = record s {
  obligations = abandon_each run unresolved s.obligations;
  activations = Map.map_values (drop_claim run) s.activations;
}
