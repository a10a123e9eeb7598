-- ===== src/Domain/Evolve/Scopes.antt =====
-- graphrun/src/domain.rs, `evolve`: runs, scopes, activations and leaf results.
use graphrun.Prelude.{
  ℕ, ◌+◌, ◌%◌, ◌^◌, String, Bool, false, not, ◌&&◌, ◌||◌, Option, none, some, List, [], ◌∷◌, ◌==◌,
  nat_eq, string_eq, if◌then◌else◌, update_first, saturating_add,
}
use graphrun.Map.{Map}
use graphrun.Map
use graphrun.Error.{Result, ok, unwrap, ◌>>=◌}
use graphrun.Value.{Value}
use graphrun.Ids.{ExecutionRole, forward, compensation, role_eq}
use graphrun.Ir.{FailError}
use graphrun.Domain.Event.{ScopeRole, Admission}
use graphrun.Domain.State.{
  State, RunStatus, ScopeState, ScopeStatus, ActivationState, ActivationStatus, Obligation,
  ObligationStatus, is_ready, is_opened, has_succeeded, is_opened_scope,
}
use graphrun.Domain.Region.{is_activity_node}

unfoldable pub admit : State → Admission → State
admit s a = record s {
  runs =
      Map.modify a.run
        (λ r. record r {
          input = a.input;
          root = a.root;
          policy = a.policy;
          status = RunStatus.active;
          admitted_ms = a.admitted_ms;
        })
        s.runs;
}

abbrev carry_input : ScopeRole → Value → Map ℕ (Value × ℕ) → Map ℕ (Value × ℕ)
carry_input (ScopeRole.loop_body activation index) input carry =
    Map.insert activation (input, index) carry
carry_input _ input carry = carry

unfoldable pub open_scope : State → ℕ → ℕ → Option ℕ → ScopeRole → Value → State
open_scope s run scope parent role input = record s {
  scopes =
      Map.insert scope
        (record {
          id = scope;
          run = run;
          parent = parent;
          role = role;
          input = input;
          status = ScopeStatus.opened;
          outputs = [];
          current = none;
        })
        s.scopes;
  loop_carry = carry_input role input s.loop_carry;
}

abbrev or_default {ℓ} : {A : Type ℓ} → Option (List A) → List A
or_default none = []
or_default (some xs) = xs

-- The slot of an item is written, or added at the end.
unfoldable pub put_item : ℕ → Value → List (ℕ × Value) → List (ℕ × Value)
put_item index output [] = (index, output) ∷ []
put_item index output ((i, v) ∷ slot) =
    if i == index then (i, output) ∷ slot else (i, v) ∷ put_item index output slot

unfoldable pub item_done : ScopeRole → Value → Map ℕ (List (ℕ × Value)) → Map ℕ (List (ℕ × Value))
unfolding put_item
item_done (ScopeRole.foreach_item activation index) output done =
    Map.insert activation (put_item index output (or_default (Map.get activation done))) done
item_done _ output done = done

-- `entry(name).or_insert(output)`: the first output of a branch stays.
unfoldable pub branch_done : ScopeRole → Value → Map ℕ (Map String Value) → Map ℕ (Map String Value)
branch_done (ScopeRole.parallel_branch activation name) output done =
    let branches = or_default (Map.get activation done) in
    Map.insert activation
      (if Map.contains_key name branches then branches else Map.insert name output branches) done
branch_done _ output done = done

unfoldable pub body_done : ScopeRole → Value → Map ℕ (Value × ℕ) → Map ℕ (Value × ℕ)
body_done (ScopeRole.loop_body activation index) output carry =
    Map.insert activation (output, (index + 1) % 2 ^ 32) carry
body_done _ output carry = carry

abbrev pub finish_in : ℕ → ActivationState → ActivationState
finish_in scope act =
    if act.scope == scope then record act { status = ActivationStatus.succeeded } else act

unfoldable pub note_completed : State → Option ScopeState → ℕ → Value → State
unfolding item_done branch_done body_done
note_completed s none scope output = s
note_completed s (some scope_state) scope output = record s {
  scopes = Map.modify scope (λ c. record c { status = ScopeStatus.completed output }) s.scopes;
  foreach_done = item_done scope_state.role output s.foreach_done;
  parallel_done = branch_done scope_state.role output s.parallel_done;
  loop_carry = body_done scope_state.role output s.loop_carry;
}

unfoldable pub complete : State → ℕ → Value → State
unfolding note_completed
complete s scope output =
    note_completed (record s { activations = Map.map_values (finish_in scope) s.activations })
      (Map.get scope s.scopes) scope output

abbrev pub fail_in : ℕ → ActivationState → ActivationState
fail_in scope act =
    if act.scope == scope && not (has_succeeded act.status)
    then record act { status = ActivationStatus.failed }
    else act

unfoldable pub fail_scope_state : State → ℕ → FailError → State
fail_scope_state s scope error = record s {
  scopes = Map.modify scope (λ c. record c { status = ScopeStatus.failed error }) s.scopes;
  activations = Map.map_values (fail_in scope) s.activations;
}

-- The next place in the order in which a run's activations became ready.
unfoldable pub open_activation : State → ℕ → ℕ → ℕ → String → Result State
open_activation s run scope activation node = do
  run_state ← unwrap (Map.get run s.runs)
  let ready_order = saturating_add run_state.next_ready_order 1
  ok (record s {
    runs = Map.modify run (λ r. record r { next_ready_order = ready_order }) s.runs;
    activations =
        Map.insert activation
          (record {
            id = activation;
            run = run;
            scope = scope;
            node = node;
            status =
                if is_activity_node s scope node
                then ActivationStatus.ready
                else ActivationStatus.opened;
            role = forward;
            claim = none;
            attempts = 0;
            ready_order = ready_order;
          })
          s.activations;
    scopes = Map.modify scope (λ c. record c { current = some node }) s.scopes;
  })

abbrev pub finish_node : ℕ → String → ActivationState → ActivationState
finish_node scope node act =
    if (act.scope == scope && act.node == node) && (is_opened act.status || is_ready act.status)
    then record act { status = ActivationStatus.succeeded }
    else act

unfoldable pub record_output : State → ℕ → String → Value → State
record_output s scope node output = record s {
  scopes = Map.modify scope (λ c. record c { outputs = Map.insert node output c.outputs }) s.scopes;
  activations = Map.map_values (finish_node scope node) s.activations;
}

unfoldable pub record_guard : State → ℕ → ℕ → Value → State
record_guard s activation index carry = record s {
  loop_carry = Map.insert activation (carry, index) s.loop_carry;
}

abbrev pub leaf_failure : Bool → ActivationState → ActivationState
leaf_failure retry act =
    if retry
    then record act { status = ActivationStatus.ready; claim = none }
    else record act { status = ActivationStatus.failed }

unfoldable pub leaf_fails : State → ℕ → Bool → State
leaf_fails s activation retry = record s {
  activations = Map.modify activation (leaf_failure retry) s.activations;
}

abbrev pub compensating_by : ℕ → ObligationStatus → Bool
compensating_by activation (ObligationStatus.compensating current) = current == activation
compensating_by activation _ = false

-- `ObligationStatus::Compensating { activation: current } if current == activation`.
abbrev pub compensated_by : ℕ → Obligation → Bool
compensated_by activation o = compensating_by activation o.status

unfoldable pub leaf_succeeds : State → ℕ → ExecutionRole → State
leaf_succeeds s activation role = record s {
  activations =
      Map.modify activation (λ a. record a { status = ActivationStatus.succeeded }) s.activations;
  obligations =
      if role == compensation
      then update_first (compensated_by activation)
          (λ o. record o { status = ObligationStatus.compensated }) s.obligations
      else s.obligations;
}

unfoldable pub succeed_run : State → ℕ → Value → State
succeed_run s run output = record s {
  runs = Map.modify run (λ r. record r { status = RunStatus.succeeded output }) s.runs;
}

abbrev fail_open_scope : ℕ → FailError → ScopeState → ScopeState
fail_open_scope run error c =
    if c.run == run && is_opened_scope c.status
    then record c { status = ScopeStatus.failed error }
    else c

abbrev pub fail_activation : ℕ → ActivationState → ActivationState
fail_activation run act =
    if act.run == run && not (has_succeeded act.status)
    then record act { status = ActivationStatus.failed }
    else act

unfoldable pub fail_run : State → ℕ → FailError → State
fail_run s run error = record s {
  runs = Map.modify run (λ r. record r { status = RunStatus.failed error }) s.runs;
  scopes = Map.map_values (fail_open_scope run error) s.scopes;
  activations = Map.map_values (fail_activation run) s.activations;
}
