-- ===== src/Domain/Evolve/Waits.antt =====
-- graphrun/src/domain.rs, `evolve`: waits and the inbox of signals.
use graphrun.Prelude.{
  ℕ, ◌+◌, ◌%◌, ◌^◌, Bool, true, false, not, ◌&&◌, Option, none, some, [], ◌∷◌, ◌++◌, ◌==◌, nat_eq,
  option_eq, filter, update_first,
}
use graphrun.Map
use graphrun.Domain.Event.{WaitOpening, Acceptance}
use graphrun.Domain.State.{State, ActivationStatus, InboxEntry}

abbrev sequence_or_zero : State → ℕ → ℕ
sequence_or_zero s run = elim (Map.get run s.runs) [ none ↦ 0 | some r ↦ r.next_sequence ]

unfoldable pub open_wait_state : State → WaitOpening → State
open_wait_state s w = record s {
  waits =
      Map.insert w.wait
        (record {
          id = w.wait;
          run = w.run;
          activation = w.activation;
          signal = w.signal;
          key = w.key;
          deadline_ms = w.deadline_ms;
          consume_from = w.consume_from;
          opened_sequence = sequence_or_zero s w.run;
          pending = true;
        })
        s.waits;
  activations =
      Map.modify w.activation (λ a. record a { status = ActivationStatus.ready }) s.activations;
}

-- The wait is pending no longer, and its activation takes a status.
unfoldable pub end_wait : State → ℕ → ActivationStatus → State
end_wait s wait status = elim (Map.get wait s.waits) [
  | none ↦ s
  | some w ↦ record s {
    waits = Map.modify wait (λ x. record x { pending = false }) s.waits;
    activations = Map.modify w.activation (λ a. record a { status = status }) s.activations;
  }
]

-- `entry.run == run && entry.event_id == event_id`.
abbrev pub is_event : Option ℕ → ℕ → InboxEntry → Bool
is_event run event_id e = e.run == run && e.event_id == event_id

unfoldable pub satisfy_wait : State → ℕ → ℕ → ℕ → State
unfolding end_wait
satisfy_wait s run wait event_id =
    let t = end_wait s wait ActivationStatus.succeeded in
    record t {
      inbox =
          update_first (is_event (some run) event_id)
            (λ e. record e { consumed = true; reserved_wait = some wait }) t.inbox;
    }

unfoldable pub accept_event : State → Acceptance → State
accept_event s a = record s {
  inbox =
      s.inbox
      ++ record {
        event_id = a.event_id;
        signal = a.signal;
        key = a.key;
        payload = a.payload;
        sequence = a.sequence;
        reserved_wait = none;
        consumed = false;
        accepted_ms = a.accepted_ms;
        expires_ms = a.expires_ms;
        run = some a.run;
      }
        ∷ [];
  runs = Map.modify a.run (λ r. record r { next_sequence = (a.sequence + 1) % 2 ^ 64 }) s.runs;
}

unfoldable pub expire_event : State → ℕ → ℕ → State
expire_event s run event_id = record s {
  inbox = filter (λ e. not (is_event (some run) event_id e)) s.inbox;
}

abbrev run_of_wait : State → ℕ → Option ℕ
run_of_wait s wait = elim (Map.get wait s.waits) [ none ↦ none | some w ↦ some w.run ]

-- A reservation is set or released at the event of the wait's run.
unfoldable pub set_reservation : State → ℕ → ℕ → Option ℕ → State
set_reservation s wait event_id reserved = record s {
  inbox =
      update_first (is_event (run_of_wait s wait) event_id)
        (λ e. record e { reserved_wait = reserved }) s.inbox;
}
