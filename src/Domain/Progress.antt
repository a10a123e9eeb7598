-- ===== src/Domain/Progress.antt =====
-- graphrun/src/domain.rs: the progress of a run, `next_progress` and `decide_progress`.
pub mod Bodies
pub mod Shapes
pub mod Loops
pub mod Items
pub mod Branches
pub mod Due
pub mod Rounds
pub mod Ended
use graphrun.Prelude.{
  ℕ, zero, suc, String, Bool, true, false, not, ◌&&◌, ◌||◌, Option, none, some, List, [], ◌∷◌, ◌++◌,
  ◌==◌, nat_eq, leb, ℤ, pos, negsuc, if◌then◌else◌, any, filter, saturating_add,
}
use graphrun.Map
use graphrun.Error.{Result, ok, unwrap, invalid, ◌>>=◌}
use graphrun.Limits.{progress_batch}
use graphrun.Value.{Value}
use graphrun.Ids.{forward, role_eq}
use graphrun.Binding.{Binding}
use graphrun.Ir.{Node, after_activation, node_of}
use graphrun.Externals.{Externals, IdGen, next_id, to_hex}
use graphrun.Domain.Event.{DomainEvent, activation_opened, wait_opened}
use graphrun.Domain.State.{State, RunState, ActivationState, is_opened, is_active}
use graphrun.Domain.Region.{lookup_region}
use graphrun.Domain.Eval.{eval_ctx, eval_binding}
use graphrun.Domain.Evolve.{apply_events}
use graphrun.Domain.Sessions.{Decision}
use graphrun.Domain.Follow.{open_node, fail_scope}
use Bodies.{Step, complete_scope}
use Loops.{progress_while, progress_repeat}
use Items.{progress_foreach}
use Branches.{progress_parallel, progress_choose, progress_saga}
use Due.{Next, eval_duration_ms, first_due, due_wait, open_wait}

-- A node that has a pending wait.
abbrev is_waiting : State → ActivationState → Bool
is_waiting s act = any (λ w. w.activation == act.id && w.pending) (Map.values s.waits)

-- A structured node without an event is passed over.
abbrev unless_empty : Step → Next
unless_empty ([], ids) = (none, ids)
unless_empty (e ∷ es, ids) = (some (e ∷ es), ids)

abbrev pub always : Step → Next
always (events, ids) = (some events, ids)

abbrev structured : Result Step → Result Next
structured step = step >>= λ r. ok (unless_empty r)

abbrev time_of : Value → Result ℕ
time_of (Value.int (pos n)) = ok n
time_of _ = invalid "wait_until at must be a non-negative integer"

module _ (ext : Externals) (s : State) (run time : ℕ) where
  abbrev timer : ActivationState → ℕ → IdGen → Step
  timer act deadline ids =
      let (wait, rest) = next_id ext ids in
      (
        wait_opened (record {
          run = run;
          wait = wait;
          activation = act.id;
          signal = "__timer";
          key = to_hex ext act.id;
          deadline_ms = some deadline;
          consume_from = after_activation;
        })
            ∷ [],
        rest,
      )

  unfoldable pub progress_delay : ActivationState → Binding → IdGen → Result Step
  unfolding eval_duration_ms
  progress_delay act duration ids = do
    scope ← unwrap (Map.get act.scope s.scopes)
    ctx ← eval_ctx ext s scope
    ms ← eval_duration_ms duration ctx
    ok (timer act (saturating_add time ms) ids)

  unfoldable pub progress_wait_until : ActivationState → Binding → String → IdGen → Result Step
  progress_wait_until act at next ids = do
    scope ← unwrap (Map.get act.scope s.scopes)
    ctx ← eval_ctx ext s scope
    value ← eval_binding at ctx
    deadline ← time_of value
    let past = open_node ext s act.scope next ids
    let wait = timer act deadline ids
    if leb deadline time then past else ok wait

  unfoldable pub progress_complete : ActivationState → Binding → IdGen → Result Step
  unfolding complete_scope
  progress_complete act output ids = do
    scope ← unwrap (Map.get act.scope s.scopes)
    ctx ← eval_ctx ext s scope
    value ← eval_binding output ctx
    ok (complete_scope scope value, ids)

  abbrev unless_waiting : ActivationState → IdGen → Result Step → Result Next
  unless_waiting act ids step =
      let next = step >>= λ r. ok (always r) in if is_waiting s act then ok (none, ids) else next

  unfoldable pub node_progress : ActivationState → IdGen → Node → Result Next
  unfolding progress_delay progress_wait_until progress_complete open_wait progress_while
      progress_repeat progress_foreach progress_parallel progress_choose progress_saga
  node_progress act ids (Node.activity key input timeout retry compensation next) =
      ok (some (activation_opened run act.scope act.id act.node ∷ []), ids)
  node_progress act ids (Node.complete output) = do
    r ← progress_complete act output ids
    ok (always r)
  node_progress act ids (Node.fail error) = do
    events ← fail_scope s act.scope error
    ok (some events, ids)
  node_progress act ids (Node.delay duration next) =
      unless_waiting act ids (progress_delay act duration ids)
  node_progress act ids (Node.wait_until at next) =
      unless_waiting act ids (progress_wait_until act at next ids)
  node_progress act ids (Node.wait_signal signal key timeout consume next on_timeout) =
      unless_waiting act ids (open_wait ext s act signal key timeout consume time ids)
  node_progress act ids (Node.while initial schema condition limit body next) =
      structured (progress_while ext s act initial condition limit body false ids)
  node_progress act ids (Node.do_while initial schema condition limit body next) =
      structured (progress_while ext s act initial condition limit body true ids)
  node_progress act ids (Node.repeat count initial schema limit body next) =
      structured (progress_repeat ext s act count initial limit body ids)
  node_progress act ids (Node.foreach items schema max_items max_concurrency body next) =
      structured (progress_foreach ext s act items max_items max_concurrency body ids)
  node_progress act ids (Node.parallel branches next) =
      structured (progress_parallel ext s act branches ids)
  node_progress act ids (Node.choose input cases default next) =
      structured (progress_choose ext s act input cases default ids)
  node_progress act ids (Node.saga input body next) =
      structured (progress_saga ext s act input body ids)

  -- An open forward activation of the run.
  abbrev pub is_in_progress : ActivationState → Bool
  is_in_progress act = act.run == run && (act.role == forward && is_opened act.status)

  -- The first of the activations that makes progress.
  unfoldable pub scan : List ActivationState → IdGen → Result Next
  unfolding node_progress
  scan [] ids = ok (none, ids)
  scan (act ∷ acts) ids = do
    region ← unwrap (lookup_region s act.scope)
    node ← unwrap (node_of region act.node)
    r ← node_progress act ids node
    elim r.0 [ none ↦ scan acts r.1 | some events ↦ ok r ]

  unfoldable pub progress_active : IdGen → Result Next
  unfolding scan due_wait first_due
  progress_active ids = do
    r ← due_wait ext s run time ids (first_due s run time)
    elim r.0 [
      | none ↦ scan (filter is_in_progress (Map.values s.activations)) r.1
      | some events ↦ ok r
    ]

  abbrev progress_of : Option RunState → IdGen → Result Next
  progress_of none ids = ok (none, ids)
  progress_of (some r) ids =
      let next = progress_active ids in if is_active r.status then next else ok (none, ids)

  unfoldable pub next_progress : IdGen → Result Next
  unfolding progress_active
  next_progress ids = progress_of (Map.get run s.runs) ids

module _ (ext : Externals) (run time : ℕ) where
  -- The events of a round are applied before the next one.
  abbrev pub go_on : State → (State → IdGen → Result Step) → Next → Result Step
  go_on s more (none, ids) = ok ([], ids)
  go_on s more (some events, ids) = do
    t ← apply_events s events
    rest ← more t ids
    ok (events ++ rest.0, rest.1)

  -- At most so many rounds, each on the state after the events before it.
  unfoldable pub rounds : ℕ → State → IdGen → Result Step
  unfolding next_progress
  rounds zero s ids = ok ([], ids)
  rounds (suc n) s ids = do
    next ← next_progress ext s run time ids
    go_on s (λ t left. rounds n t left) next

  unfoldable pub decide_progress : State → IdGen → Result (Decision × IdGen)
  unfolding rounds
  decide_progress s ids = rounds progress_batch s ids
