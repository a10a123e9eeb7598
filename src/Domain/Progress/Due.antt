-- ===== src/Domain/Progress/Due.antt =====
-- graphrun/src/domain.rs: `due_wait`, `open_wait` and `eval_duration_ms`. The bytes of a text that
-- is not ASCII are its code points here; a duration has ASCII digits and units, and any other text
-- is refused either way.
use graphrun.Prelude.{
  ℕ, String, Bool, true, ◌&&◌, ◌||◌, Option, none, some, List, [], ◌∷◌, ◌==◌, nat_eq, string_eq,
  leb, pos, if◌then◌else◌, filter, is_some, is_some_and, saturating_add, sort_by_key,
}
use graphrun.Map
use graphrun.Error.{Result, ok, unwrap, or_fail, invalid, invalid_argument, ◌>>=◌}
use graphrun.Value.{Value}
use graphrun.Time.{parse_duration, duration_to_millis}
use graphrun.Binding.{Binding}
use graphrun.Ir.{Node, FailError, ConsumeFrom, node_of}
use graphrun.Externals.{Externals, IdGen, next_id, ascii}
use graphrun.Domain.Event.{
  DomainEvent, wait_opened, wait_satisfied, wait_timed_out, node_output_recorded,
}
use graphrun.Domain.State.{State, ActivationState, WaitState, InboxEntry}
use graphrun.Domain.Region.{lookup_region}
use graphrun.Domain.Eval.{EvalCtx, eval_ctx, eval_binding}
use graphrun.Domain.Follow.{open_node, follow_next}
use graphrun.Domain.Signals.{reserved_or_eligible, decide_timer, pending_wait}
use graphrun.Domain.Progress.Bodies.{Step, fail_step}

abbrev pub Next : Type 0
Next = Option (List DomainEvent) × IdGen

abbrev millis_of : Value → Result ℕ
millis_of (Value.int (pos n)) =
    if n == 0 then invalid "duration must be a positive integer ms or string" else ok n
millis_of (Value.string text) = do d ← parse_duration (ascii text); duration_to_millis d
millis_of _ = invalid "duration must be a positive integer ms or string"

unfoldable pub eval_duration_ms : Binding → EvalCtx → Result ℕ
eval_duration_ms binding ctx = do value ← eval_binding binding ctx; millis_of value

-- The deadline has come, or there is an event for the wait.
abbrev pub is_due : State → ℕ → ℕ → WaitState → Bool
is_due s run now w =
    w.run == run
    && (w.pending
        && (is_some_and w.deadline_ms (λ deadline. leb deadline now)
            || is_some (reserved_or_eligible s w now)))

abbrev deadline_or_zero : WaitState → ℕ
deadline_or_zero w = elim w.deadline_ms [ none ↦ 0 | some deadline ↦ deadline ]

abbrev first {ℓ} : {A : Type ℓ} → List A → Option A
first [] = none
first (x ∷ xs) = some x

-- The wait that is due with the earliest deadline.
unfoldable pub first_due : State → ℕ → ℕ → Option WaitState
first_due s run now =
    first (sort_by_key deadline_or_zero (filter (is_due s run now) (Map.values s.waits)))

-- The node after a delay.
abbrev timer_next : Option Node → Option String
timer_next (some (Node.delay duration next)) = some next
timer_next (some (Node.wait_until at next)) = some next
timer_next _ = none

abbrev pub string_of : Value → Option String
string_of (Value.string text) = some text
string_of _ = none

abbrev pub key_conflict : String → String → FailError
key_conflict signal key = record {
  code = "WaitKeyConflict";
  message = "conflicting active wait address {signal}/{key_str}";
}

module _ (ext : Externals) (s : State) where
  -- What a wait and its node do with an event.
  unfoldable pub satisfied : ℕ → ℕ → ActivationState → InboxEntry → IdGen → Result Step
  satisfied run wait act e ids = do
    r ← follow_next ext s act.scope act.node ids
    ok (
      wait_satisfied run wait e.event_id e.payload
          ∷ node_output_recorded run act.scope act.node e.payload
          ∷ r.0,
      r.1,
    )

  unfoldable pub timer_ended : ℕ → ℕ → ActivationState → IdGen → Result Step
  timer_ended run wait act ids = do
    region ← unwrap (lookup_region s act.scope)
    next ←
        or_fail (timer_next (node_of region act.node)) invalid_argument
          "timer wait is not a delay or wait_until"
    r ← open_node ext s act.scope next ids
    ok (wait_timed_out run wait ∷ r.0, r.1)

  unfoldable pub end_wait_now :
      ℕ → ℕ → WaitState → ActivationState → IdGen → Option InboxEntry → Result Step
  unfolding satisfied timer_ended
  end_wait_now run time w act ids (some e) = satisfied run w.id act e ids
  end_wait_now run time w act ids none =
      let ended = timer_ended run w.id act ids in
      let timed = decide_timer ext s run w.id time ids in
      if w.signal == "__timer" then ended else timed

  unfoldable pub due_wait : ℕ → ℕ → IdGen → Option WaitState → Result Next
  unfolding end_wait_now
  due_wait run time ids none = ok (none, ids)
  due_wait run time ids (some w) = do
    act ← unwrap (Map.get w.activation s.activations)
    r ← end_wait_now run time w act ids (reserved_or_eligible s w time)
    ok (some r.0, r.1)

  abbrev deadline_after : ℕ → Option ℕ → Option ℕ
  deadline_after time none = none
  deadline_after time (some ms) = some (saturating_add time ms)

  -- The wait as the state will have it.
  abbrev pub fresh_wait :
      ActivationState → ℕ → String → String → Option ℕ → ConsumeFrom → ℕ → WaitState
  fresh_wait act wait signal key deadline consume sequence = record {
    id = wait;
    run = act.run;
    activation = act.id;
    signal = signal;
    key = key;
    deadline_ms = deadline;
    consume_from = consume;
    opened_sequence = sequence;
    pending = true;
  }

  abbrev pub opening : WaitState → DomainEvent
  opening w = wait_opened (record {
    run = w.run;
    wait = w.id;
    activation = w.activation;
    signal = w.signal;
    key = w.key;
    deadline_ms = w.deadline_ms;
    consume_from = w.consume_from;
  })

  unfoldable pub opened_wait : ActivationState → WaitState → IdGen → Option InboxEntry → Result Step
  unfolding satisfied
  opened_wait act w ids none = ok (opening w ∷ [], ids)
  opened_wait act w ids (some e) = do r ← satisfied w.run w.id act e ids; ok (opening w ∷ r.0, r.1)

  -- A wait for an address that the run already waits at fails the scope.
  unfoldable pub open_wait :
      ActivationState → String → Binding → Option ℕ → ConsumeFrom → ℕ → IdGen → Result Step
  unfolding opened_wait
  open_wait act signal key timeout_ms consume time ids = do
    scope ← unwrap (Map.get act.scope s.scopes)
    ctx ← eval_ctx ext s scope
    value ← eval_binding key ctx
    address ← or_fail (string_of value) invalid_argument "wait key must be a string"
    let conflicting = fail_step s act.scope (key_conflict signal address) ids
    let opened = do
      r ← unwrap (Map.get act.run s.runs)
      let made = next_id ext ids
      let w =
          fresh_wait act made.0 signal address (deadline_after time timeout_ms) consume
            r.next_sequence
      opened_wait act w made.1 (reserved_or_eligible s w time)
    if is_some (pending_wait s act.run signal address) then conflicting else opened
