-- ===== src/Examples/ProgressRuns.antt =====
-- Steps of loops, of a foreach and of a choice, and the rounds that end a run.
use graphrun.Prelude.{
  ℕ, ◌≡◌, refl, true, false, none, some, List, [], ◌∷◌, pos, nat_eq, string_eq, find, filter, last?,
  sort_by_key, insert_by_key, option_beq, option_eq, arith, All,
}
use graphrun.Map
use graphrun.Error.{ok}
use graphrun.Value.{Value}
use graphrun.Value.Equality.{value_eq, value_beq}
use graphrun.Schema.{SchemaRef}
use graphrun.Binding.{Binding, Condition}
use graphrun.Ir.{Region, Nodes, Node, PathSeg, find_node, node_of, start_of}
use graphrun.Externals.{next_id, be_bytes, le_bytes, digest16, from_be, to_hex}
use graphrun.Domain.Event.{
  DomainEvent, ScopeRole, scope_completed, scope_opened, run_succeeded, guard_recorded,
  activation_opened,
}
use graphrun.Domain.State.{
  State, RunState, ScopeState, ScopeStatus, ActivationState, ActivationStatus,
}
use graphrun.Domain.Region.{body_of, climb, lookup_region, opener}
use graphrun.Domain.Eval.{EvalCtx, eval_ctx, eval_binding, eval_condition}
use graphrun.Domain.Evolve.{apply_events, evolve, event_owner}
use graphrun.Domain.Evolve.Scopes.{
  complete, note_completed, body_done, item_done, branch_done, succeed_run,
}
use graphrun.Domain.Progress.Bodies.{Step, children_of, child_of, open_body, complete_scope}
use graphrun.Domain.Progress.Loops.{
  progress_while, carry_of, while_child, next_round, guarded, open_loop_body, in_loop,
}
use graphrun.Domain.Progress.Loops.Bounds.{Within, progress_while-Within}
use graphrun.Domain.Progress.Loops.Counting.{progress_while-counts_twice}
use graphrun.Domain.Progress.{
  decide_progress, rounds, next_progress, progress_active, scan, node_progress, progress_complete,
}
use graphrun.Domain.Progress.Due.{first_due, due_wait}
use graphrun.Domain.Progress.Rounds.{IsProgress, decide_progress-IsProgress}
use graphrun.Domain.Progress.Ended.{by_success, ended_run-rests}
use graphrun.Examples.Claims.{ext, idle, run, root_scope, waiting}
use graphrun.Examples.SagaRuns.{ids}

abbrev literal : ℕ → Binding
literal n = Binding.literal (Value.int (pos n))

abbrev pub body : Region
body =
    Region.region (PathSeg.root ∷ []) SchemaRef.integer SchemaRef.integer "step"
      (Nodes.with_node "step" (Node.complete (literal 5)) Nodes.no_nodes)

abbrev pub forever : Condition
forever = Condition.eq (literal 1) (literal 1)

abbrev pub looping : ActivationState
looping = record waiting { id = 60; node = "loop"; status = ActivationStatus.opened; claim = none }

abbrev pub first_body : ScopeState
first_body = record root_scope {
  id = 70;
  parent = some 60;
  role = ScopeRole.loop_body 60 0;
  current = some "step";
}

-- The first body of a loop runs.
abbrev pub in_body : State
in_body = record idle {
  scopes = (10, root_scope) ∷ (70, first_body) ∷ [];
  activations = (60, looping) ∷ [];
}

abbrev five : Value
five = Value.int (pos 5)

abbrev pub after_body : State
after_body = complete in_body 70 five

abbrev pub done_body : ScopeState
done_body = record first_body { status = ScopeStatus.completed five }

abbrev pub root_ctx : EvalCtx
root_ctx = record {
  workflow_input = Value.null;
  scope_input = Value.null;
  scope_id = "00";
  node_outputs = [];
  loop_state = none;
  loop_index = none;
  item_value = none;
  item_index = none;
  forward_input = none;
  forward_output = none;
}

abbrev pub next_body : Step
next_body = (
  guard_recorded 1 60 true 2 five
      ∷ scope_opened 1 9 (some 60) (ScopeRole.loop_body 60 2) five
      ∷ activation_opened 1 9 9 "step"
      ∷ [],
  record { command = 9; n = 2 },
)

the_step : progress_while ext after_body looping (literal 0) forever 4 body false ids ≡ ok next_body
unfolding progress_while carry_of while_child next_round guarded open_loop_body open_body child_of
    children_of complete note_completed body_done item_done branch_done eval_ctx eval_condition
    eval_binding next_id be_bytes le_bytes digest16 from_be to_hex start_of find filter last?
    sort_by_key insert_by_key option_beq value_beq Map.get Map.values Map.modify Map.insert
    Map.map_values
the_step = refl

progress_while-Within_example : All (Within 4) next_body.0
progress_while-Within_example =
    progress_while-Within 4 ext after_body looping (literal 0) forever body false ids next_body
      the_step

the_completion : evolve in_body (scope_completed 1 70 five) ≡ ok after_body
unfolding evolve
the_completion = refl

the_first_body : Map.get 70 in_body.scopes ≡ some first_body
unfolding Map.get
the_first_body = refl

the_parent : Map.get 10 after_body.scopes ≡ some root_scope
unfolding complete note_completed Map.get Map.modify
the_parent = refl

the_child : child_of after_body 60 ≡ some done_body
unfolding child_of children_of complete note_completed find filter last? sort_by_key insert_by_key
    option_beq Map.get Map.values Map.modify
the_child = refl

the_ctx : eval_ctx ext after_body root_scope ≡ ok root_ctx
unfolding eval_ctx complete note_completed to_hex be_bytes Map.get
the_ctx = refl

the_guard : eval_condition forever (in_loop root_ctx five 2) ≡ ok true
unfolding eval_condition eval_binding value_beq
the_guard = refl

progress_while-counts_twice_example :
    progress_while ext after_body looping (literal 0) forever 4 body false ids
    ≡ ok (
      guard_recorded 1 60 true 2 five ∷ (open_loop_body ext looping body five 2 ids).0,
      (open_loop_body ext looping body five 2 ids).1,
    )
progress_while-counts_twice_example =
    progress_while-counts_twice ext in_body after_body looping 0 1 70 first_body root_scope
      done_body five root_ctx (literal 0) forever 4 body ids (omega arith) (omega arith)
      the_first_body refl the_completion the_parent the_child refl the_ctx the_guard

-- A run at its last node, which one round completes.
abbrev pub ending : Region
ending =
    Region.region (PathSeg.root ∷ []) SchemaRef.integer SchemaRef.integer "end"
      (Nodes.with_node "end" (Node.complete (literal 5)) Nodes.no_nodes)

abbrev pub last_run : RunState
last_run = record run { definition = record run.definition { root = ending } }

abbrev pub at_end : ActivationState
at_end = record waiting { id = 80; node = "end"; status = ActivationStatus.opened; claim = none }

abbrev pub closing : State
closing = record idle { runs = (1, last_run) ∷ []; activations = (80, at_end) ∷ [] }

abbrev pub completion : List DomainEvent
completion = scope_completed 1 10 five ∷ run_succeeded 1 five ∷ []

the_progress : decide_progress ext 1 5000 closing ids ≡ ok (completion, ids)
unfolding decide_progress rounds next_progress progress_active scan node_progress progress_complete
    first_due due_wait lookup_region climb opener body_of find_node node_of eval_ctx eval_binding
    complete_scope to_hex be_bytes apply_events event_owner evolve complete note_completed body_done
    item_done branch_done succeed_run filter sort_by_key Map.get Map.values Map.modify
    Map.map_values
the_progress = refl

decide_progress-IsProgress_example : IsProgress ext 1 5000 32 closing ids completion ids
decide_progress-IsProgress_example =
    decide_progress-IsProgress ext 1 5000 closing ids completion ids the_progress

the_success : evolve closing (run_succeeded 1 five) ≡ ok (succeed_run closing 1 five)
unfolding evolve
the_success = refl

ended_run-rests_example : decide_progress ext 1 9000 (succeed_run closing 1 five) ids ≡ ok ([], ids)
ended_run-rests_example =
    ended_run-rests ext 1 9000 ids closing (succeed_run closing 1 five) (run_succeeded 1 five)
      (by_success five) the_success
