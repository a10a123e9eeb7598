-- ===== src/Domain/Signals.antt =====
-- graphrun/src/domain.rs: accepting signals, and the end of a wait. What the tombstone of an event
-- says, which its acceptance leaves, is an argument: nothing where there is none, or else whether it
-- is the one of the signal. Domain/Tombstones computes it.
mod Noted
pub mod Covered
pub mod Once
use graphrun.Prelude.{
  ℕ, String, Bool, true, false, not, ◌&&◌, ◌||◌, Option, none, some, List, [], ◌∷◌, ◌++◌, ◌==◌,
  nat_eq, string_eq, option_eq, ltb, leb, if◌then◌else◌, find, filter, length, is_some,
  saturating_add, saturating_mul,
}
use graphrun.Map
use graphrun.Error.{
  Result, ok, err, panic, unwrap, or_fail, refuse_if, fail, invalid_argument, already_exists,
  resource_exhausted, ◌>>=◌, ◌>>◌,
}
use graphrun.Limits.{max_buffered_events_per_run, max_events_per_address, day_ms}
use graphrun.Value.{Value}
use graphrun.Value.Equality.{value_eq}
use graphrun.Ir.{Node, ConsumeFrom, buffered, after_activation, node_of}
use graphrun.Externals.{Externals, IdGen}
use graphrun.Domain.Event.{
  DomainEvent, Acceptance, event_accepted, event_reserved, wait_satisfied, node_output_recorded,
  wait_timed_out,
}
use graphrun.Domain.State.{State, RunState, WaitState, InboxEntry, ActivationState, is_active}
use graphrun.Domain.Region.{lookup_region}
use graphrun.Domain.Sessions.{Decision}
use graphrun.Domain.Evolve.Waits.{is_event}
use graphrun.Domain.Follow.{open_node, follow_next, is_reserved_for}

abbrev pub waits_for : ℕ → String → String → WaitState → Bool
waits_for run signal key w = w.run == run && (w.pending && (w.signal == signal && w.key == key))

unfoldable pub pending_wait : State → ℕ → String → String → Option WaitState
pending_wait s run signal key = find (waits_for run signal key) (Map.values s.waits)

abbrev pub same_content : String → String → Value → InboxEntry → Bool
same_content signal key payload e = e.signal == signal && (e.key == key && e.payload == payload)

abbrev pub conflict : Bool → Result Decision
conflict true = ok []
conflict false = fail already_exists "event id payload conflict"

abbrev pub is_buffered : ℕ → InboxEntry → Bool
is_buffered run e = e.run == some run && not e.consumed

-- The address is compared without the run.
abbrev pub is_at_address : String → String → InboxEntry → Bool
is_at_address signal key e = not e.consumed && (e.signal == signal && e.key == key)

abbrev pub reserve : Option WaitState → ℕ → List DomainEvent
reserve none event_id = []
reserve (some w) event_id = event_reserved w.id event_id ∷ []

unfoldable pub accept : State → RunState → ℕ → ℕ → String → String → Value → ℕ → Result Decision
accept s r run event_id signal key payload time = do
  refuse_if (not (is_active r.status)) invalid_argument "run is terminal"
  refuse_if (not (Map.contains_key signal r.definition.signals)) invalid_argument
      "unknown signal {signal}"
  refuse_if (leb max_buffered_events_per_run (length (filter (is_buffered run) s.inbox)))
      resource_exhausted "inbox quota exceeded"
  refuse_if (leb max_events_per_address (length (filter (is_at_address signal key) s.inbox)))
      resource_exhausted "inbox address quota exceeded"
  ok (
      event_accepted (record {
        run = run;
        event_id = event_id;
        signal = signal;
        key = key;
        payload = payload;
        sequence = r.next_sequence;
        accepted_ms = time;
        expires_ms = saturating_add time (saturating_mul r.policy.unreserved_event_days day_ms);
      })
      ∷ reserve (pending_wait s run signal key) event_id)

unfoldable pub decide_known :
    State → RunState → Option InboxEntry → ℕ → ℕ → String → String → Value → ℕ → Result Decision
unfolding accept
decide_known s r (some e) run event_id signal key payload time =
    conflict (same_content signal key payload e)
decide_known s r none run event_id signal key payload time =
    accept s r run event_id signal key payload time

unfoldable pub decide_signal :
    State → Option (Result Bool) → ℕ → ℕ → String → String → Value → ℕ → Result Decision
unfolding decide_known
decide_signal s (some tombstone) run event_id signal key payload time = do
  matches ← tombstone
  conflict matches
decide_signal s none run event_id signal key payload time = do
  r ← or_fail (Map.get run s.runs) invalid_argument "unknown run"
  decide_known s r (find (is_event (some run) event_id) s.inbox) run event_id signal key payload
      time

abbrev from_sequence : ConsumeFrom → ℕ → ℕ → Bool
from_sequence buffered opened_at sequence = true
from_sequence after_activation opened_at sequence = leb opened_at sequence

abbrev in_time : Option ℕ → ℕ → Bool
in_time none accepted_ms = true
in_time (some deadline) accepted_ms = accepted_ms == 0 || leb accepted_ms deadline

-- The test of an unreserved entry does not compare the run.
abbrev pub is_eligible : WaitState → ℕ → InboxEntry → Bool
is_eligible w now e =
    not e.consumed
    && (not (is_some e.reserved_wait)
        && (e.signal == w.signal
            && (e.key == w.key
                && (from_sequence w.consume_from w.opened_sequence e.sequence
                    && (in_time w.deadline_ms e.accepted_ms
                        && (e.expires_ms == 0 || ltb now e.expires_ms))))))

unfoldable pub reserved_or_eligible : State → WaitState → ℕ → Option InboxEntry
reserved_or_eligible s w now = elim (find (is_reserved_for w.id) s.inbox) [
  | some e ↦ some e
  | none ↦ find (is_eligible w now) s.inbox
]

abbrev timeout_edge : Node → Option String
timeout_edge (Node.wait_signal signal key timeout consume next on_timeout) = on_timeout
timeout_edge _ = none

module _ (ext : Externals) where
  unfoldable pub follow_timeout : State → ActivationState → IdGen → Result (Decision × IdGen)
  follow_timeout s act ids = do
    region ← or_fail (lookup_region s act.scope) invalid_argument "missing region"
    n ← unwrap (node_of region act.node)
    next ← or_fail (timeout_edge n) invalid_argument "wait has no timeout edge"
    open_node ext s act.scope next ids

  -- A wait that is due takes an event if there is one, and its timeout edge if not.
  unfoldable pub end_due :
      State → ℕ → ℕ → ActivationState → IdGen → Option InboxEntry → Result (Decision × IdGen)
  unfolding follow_timeout
  end_due s run wait act ids (some e) = do
    r ← follow_next ext s act.scope act.node ids
    ok (
      wait_satisfied run wait e.event_id e.payload
          ∷ node_output_recorded run act.scope act.node e.payload
          ∷ r.0,
      r.1,
    )
  end_due s run wait act ids none = do
    r ← follow_timeout s act ids
    ok (wait_timed_out run wait ∷ r.0, r.1)

  unfoldable pub decide_timer : State → ℕ → ℕ → ℕ → IdGen → Result (Decision × IdGen)
  unfolding end_due
  decide_timer s run wait time ids = do
    w ← or_fail (Map.get wait s.waits) invalid_argument "unknown wait"
    refuse_if (not (w.run == run) || not w.pending) invalid_argument "wait is not pending"
    deadline ← or_fail w.deadline_ms invalid_argument "wait has no deadline"
    refuse_if (ltb time deadline) invalid_argument "wait deadline has not been reached"
    act ← unwrap (Map.get w.activation s.activations)
    end_due s run wait act ids (reserved_or_eligible s w time)
