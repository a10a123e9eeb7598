-- ===== src/Domain/Signals/Covered.antt =====
-- graphrun/src/domain.rs, `evolve`, and graphrun/src/history.rs, `append`: every event of the inbox has a
-- tombstone.
use graphrun.Prelude.{
  ℕ, String, ◌≡◌, refl, sym, ap, Bool, true, Option, none, some, List, [], ◌∷◌, nat_eq, string_eq,
  option_eq, arith, find, filter, update_first, is_some, All, Bool-cases, Option-cases, inl, inr,
}
use mathlib.Core.Path.{subst}
use graphrun.Map
use graphrun.Map.Laws.{get-insert, get-insert_self}
use graphrun.Error.{Result, ok, unwrap, >>=-eq-ok}
use graphrun.Value.{Value}
use graphrun.Externals.{Externals}
use graphrun.Domain.Event.{
  DomainEvent, Acceptance, CompensationStart, run_admitted, scope_opened, scope_completed,
  scope_failed, activation_opened, node_output_recorded, guard_recorded, leaf_succeeded,
  leaf_failed, wait_opened, wait_satisfied, wait_timed_out, wait_cancelled, event_accepted,
  event_reserved, reservation_released, event_expired, obligation_registered, obligation_blocked,
  compensation_started, obligation_transferred, obligation_released, session_registered,
  worker_registered, worker_session_renewed, claim_granted, claim_renewed, claim_cleared,
  reconciliation_recorded, reconciliation_failed, intervention_required, run_succeeded, run_failed,
  recovery_authorized, abort_intent, compensation_abandoned,
}
use graphrun.Domain.State.{State, InboxEntry, ActivationStatus, ObligationStatus}
use graphrun.Domain.Evolve.{evolve, event_owner}
use graphrun.Domain.Evolve.Scopes.{
  admit, open_scope, complete, note_completed, fail_scope_state, open_activation, record_output,
  record_guard, leaf_fails, leaf_succeeds, succeed_run, fail_run,
}
use graphrun.Domain.Evolve.Waits.{
  open_wait_state, end_wait, satisfy_wait, accept_event, expire_event, set_reservation, is_event,
}
use graphrun.Domain.Evolve.Obligations.{
  register_obligation, block_obligation, put_obligation, set_status, start_compensation,
  open_compensation, compensation_scope, transfer_obligation, abandon_compensation,
}
use graphrun.Domain.Evolve.Claims.{
  register_session, register_worker, renew_session, grant_claim, renew_claim, clear_claim,
  record_reconciliation, authorize_recovery,
}
use graphrun.Domain.Follow.Shapes.{All-append}
use graphrun.Domain.Tombstones.{
  SignalKey, signal_key_eq, SignalTombstone, Tombstones, note_signal, apply_noting, capture_in,
  payload_schema,
}

abbrev pub key_of : ℕ → ℕ → SignalKey
key_of run event_id = record { run = run; event_id = event_id }

-- An entry of a run has a tombstone.
abbrev pub is_noted : Tombstones → Option ℕ → ℕ → Bool
is_noted ts none event_id = true
is_noted ts (some run) event_id = is_some (Map.get (key_of run event_id) ts)

abbrev pub IsNotedIn : Tombstones → InboxEntry → Type 0
IsNotedIn ts e = is_noted ts e.run e.event_id ≡ true

-- Every entry of the inbox that is of a run has a tombstone.
abbrev pub IsCovered : State → Tombstones → Type 0
IsCovered s ts = All (IsNotedIn ts) s.inbox

module _ (ts : Tombstones) where
  All-update_first :
      (p : InboxEntry → Bool) (f : InboxEntry → InboxEntry) (es : List InboxEntry)
      → ((e : InboxEntry) → IsNotedIn ts e → IsNotedIn ts (f e))
      → All (IsNotedIn ts) es
      → All (IsNotedIn ts) (update_first p f es)
  unfolding update_first
  All-update_first p f [] keeps h = tt
  All-update_first p f (e ∷ es) keeps h = elim (Bool-cases (p e)) [
    | inl hit ↦ rw (hit, update_first) (keeps e h.0, h.1)
    | inr miss ↦ rw (miss, update_first) (h.0, All-update_first p f es keeps h.1)
  ]

  All-filter :
      (p : InboxEntry → Bool) (es : List InboxEntry)
      → All (IsNotedIn ts) es
      → All (IsNotedIn ts) (filter p es)
  unfolding filter
  All-filter p [] h = tt
  All-filter p (e ∷ es) h = elim (Bool-cases (p e)) [
    | inl kept ↦ rw (kept, filter) (h.0, All-filter p es h.1)
    | inr dropped ↦ rw (dropped, filter) (All-filter p es h.1)
  ]

  module _ (s : State) (covered : IsCovered s ts) where
    same_covered : (u t : State) → ok u ≡ ok t → IsCovered u ts → IsCovered t ts
    same_covered u t e h = let same : u ≡ t = cc e in subst (λ x. IsCovered x ts) same h

    by_inbox : (u t : State) → ok u ≡ ok t → u.inbox ≡ s.inbox → IsCovered t ts
    by_inbox u t e same = same_covered u t e (subst (All (IsNotedIn ts)) (sym same) covered)

    end_wait-inbox :
        (wait : ℕ) (status : ActivationStatus) → (end_wait s wait status).inbox ≡ s.inbox
    unfolding end_wait
    end_wait-inbox wait status = elim (Option-cases (Map.get wait s.waits)) [
      | inl missing ↦ rw (end_wait, missing) refl
      | inr (w, found) ↦ rw (end_wait, found) refl
    ]

    satisfy_wait-IsCovered :
        (run wait event_id : ℕ) → IsCovered (satisfy_wait s run wait event_id) ts
    unfolding satisfy_wait
    satisfy_wait-IsCovered run wait event_id =
        All-update_first (is_event (some run) event_id) _ _ (λ e h. h)
          (subst (All (IsNotedIn ts)) (sym (end_wait-inbox wait ActivationStatus.succeeded))
            covered)

    set_reservation-IsCovered :
        (wait event_id : ℕ) (o : Option ℕ) → IsCovered (set_reservation s wait event_id o) ts
    unfolding set_reservation
    set_reservation-IsCovered wait event_id o = All-update_first _ _ s.inbox (λ e h. h) covered

    expire_event-IsCovered : (run event_id : ℕ) → IsCovered (expire_event s run event_id) ts
    unfolding expire_event
    expire_event-IsCovered run event_id = All-filter _ s.inbox covered

    complete-inbox : (scope : ℕ) (output : Value) → (complete s scope output).inbox ≡ s.inbox
    unfolding complete note_completed
    complete-inbox scope output = elim (Option-cases (Map.get scope s.scopes)) [
      | inl missing ↦ rw (complete, missing) refl
      | inr (c, found) ↦ rw (complete, found) refl
    ]

    opened :
        (run scope activation : ℕ) (node : String) (t : State)
        → open_activation s run scope activation node ≡ ok t
        → IsCovered t ts
    unfolding open_activation
    opened run scope activation node t e =
        let (r, found, h) = >>=-eq-ok (unwrap (Map.get run s.runs)) _ {b = t} e in
        by_inbox _ t h refl

    started : (c : CompensationStart) (t : State) → start_compensation s c ≡ ok t → IsCovered t ts
    unfolding start_compensation set_status open_compensation
    started c t e = by_scope (compensation_scope s c.saga c.run) _ refl e
      where
        by_scope :
            (o : Option ℕ) (u : State)
            → u.inbox ≡ s.inbox
            → open_compensation u o c ≡ ok t
            → IsCovered t ts
        by_scope none u same h = by_inbox u t h same
        by_scope (some scope) u same h =
            let (r, found, h1) = >>=-eq-ok (unwrap (Map.get c.run u.runs)) _ {b = t} h in
            by_inbox _ t h1 same

noted_kept :
    (k : SignalKey) (x : SignalTombstone) (ts : Tombstones) (run : Option ℕ) (event_id : ℕ)
    → is_noted ts run event_id ≡ true
    → is_noted (Map.insert k x ts) run event_id ≡ true
noted_kept k x ts none event_id h = refl
noted_kept k x ts (some run) event_id h = ground (arith, get-insert k (key_of run event_id) x ts, h)

all_kept :
    (k : SignalKey) (x : SignalTombstone) (ts : Tombstones) (es : List InboxEntry)
    → All (IsNotedIn ts) es
    → All (IsNotedIn (Map.insert k x ts)) es
all_kept k x ts [] h = tt
all_kept k x ts (e ∷ es) h = (noted_kept k x ts e.run e.event_id h.0, all_kept k x ts es h.1)

module _ (ext : Externals) (unhex : String → Result (List ℕ)) (cluster_id : String) where
  accepted-IsCovered :
      (s t : State) (a : Acceptance) (ts ts1 : Tombstones)
      → IsCovered s ts
      → evolve s (event_accepted a) ≡ ok t
      → note_signal ext unhex cluster_id (event_accepted a) ts ≡ ok ts1
      → IsCovered t ts1
  unfolding evolve accept_event note_signal
  accepted-IsCovered s t a ts ts1 covered moved noted =
      let (ref, made, e1) =
        >>=-eq-ok (capture_in ext unhex cluster_id payload_schema a.payload) _ {b = ts1} noted in
      let k = key_of a.run a.event_id in
      let x : SignalTombstone = record {
        run = a.run;
        event_id = a.event_id;
        signal = a.signal;
        key = a.key;
        payload = ref;
      } in
      let here : accept_event s a ≡ t = cc moved in
      let there : Map.insert k x ts ≡ ts1 = cc e1 in
      subst (λ u. IsCovered u ts1) here
        (subst (IsCovered (accept_event s a)) there (
          All-append (IsNotedIn (Map.insert k x ts)) s.inbox _ (all_kept k x ts s.inbox covered)
            (ap is_some (get-insert_self k x ts), tt)))

  carried : (t : State) (ts ts1 : Tombstones) → ok ts ≡ ok ts1 → IsCovered t ts → IsCovered t ts1
  carried t ts ts1 e h = let same : ts ≡ ts1 = cc e in subst (IsCovered t) same h

  module _ (s t : State) (ts ts1 : Tombstones) (covered : IsCovered s ts) where
    step-IsCovered :
        (e : DomainEvent)
        → note_signal ext unhex cluster_id e ts ≡ ok ts1
        → evolve s e ≡ ok t
        → IsCovered t ts1
    unfolding evolve admit open_scope fail_scope_state record_output record_guard leaf_succeeds
        leaf_fails open_wait_state register_obligation put_obligation block_obligation
        transfer_obligation set_status register_session register_worker renew_session grant_claim
        renew_claim clear_claim record_reconciliation succeed_run fail_run authorize_recovery
        abandon_compensation note_signal
    step-IsCovered (scope_completed run scope output) n h = carried t ts ts1 n (
        by_inbox ts s covered (complete s scope output) t h
          (complete-inbox ts s covered scope output))
    step-IsCovered (activation_opened run scope activation node) n h =
        carried t ts ts1 n (opened ts s covered run scope activation node t h)
    step-IsCovered (compensation_started c) n h = carried t ts ts1 n (started ts s covered c t h)
    step-IsCovered (wait_satisfied run wait event_id payload) n h = carried t ts ts1 n (
        same_covered ts s covered (satisfy_wait s run wait event_id) t h
          (satisfy_wait-IsCovered ts s covered run wait event_id))
    step-IsCovered (wait_timed_out run wait) n h = carried t ts ts1 n (
        by_inbox ts s covered (end_wait s wait ActivationStatus.succeeded) t h
          (end_wait-inbox ts s covered wait ActivationStatus.succeeded))
    step-IsCovered (wait_cancelled run wait) n h = carried t ts ts1 n (
        by_inbox ts s covered (end_wait s wait ActivationStatus.failed) t h
          (end_wait-inbox ts s covered wait ActivationStatus.failed))
    step-IsCovered (event_accepted a) n h = accepted-IsCovered s t a ts ts1 covered h n
    step-IsCovered (event_expired run event_id) n h = carried t ts ts1 n (
        same_covered ts s covered (expire_event s run event_id) t h
          (expire_event-IsCovered ts s covered run event_id))
    step-IsCovered (event_reserved wait event_id) n h = carried t ts ts1 n (
        same_covered ts s covered (set_reservation s wait event_id (some wait)) t h
          (set_reservation-IsCovered ts s covered wait event_id (some wait)))
    step-IsCovered (reservation_released wait event_id) n h = carried t ts ts1 n (
        same_covered ts s covered (set_reservation s wait event_id none) t h
          (set_reservation-IsCovered ts s covered wait event_id none))
    step-IsCovered (run_admitted a) n h =
        carried t ts ts1 n (by_inbox ts s covered (admit s a) t h refl)
    step-IsCovered (scope_opened run scope parent role input) n h =
        carried t ts ts1 n
          (by_inbox ts s covered (open_scope s run scope parent role input) t h refl)
    step-IsCovered (scope_failed run scope error) n h =
        carried t ts ts1 n (by_inbox ts s covered (fail_scope_state s scope error) t h refl)
    step-IsCovered (node_output_recorded run scope node output) n h =
        carried t ts ts1 n (by_inbox ts s covered (record_output s scope node output) t h refl)
    step-IsCovered (guard_recorded run activation result index carry) n h =
        carried t ts ts1 n (by_inbox ts s covered (record_guard s activation index carry) t h refl)
    step-IsCovered (leaf_succeeded run activation attempt output role) n h =
        carried t ts ts1 n (by_inbox ts s covered (leaf_succeeds s activation role) t h refl)
    step-IsCovered (leaf_failed run activation attempt code message retry) n h =
        carried t ts ts1 n (by_inbox ts s covered (leaf_fails s activation retry) t h refl)
    step-IsCovered (wait_opened w) n h =
        carried t ts ts1 n (by_inbox ts s covered (open_wait_state s w) t h refl)
    step-IsCovered (obligation_registered run forward handler version input) n h =
        carried t ts ts1 n
          (by_inbox ts s covered (register_obligation s run forward handler version input) t h refl)
    step-IsCovered (obligation_blocked run forward handler version reason) n h =
        carried t ts ts1 n
          (by_inbox ts s covered (block_obligation s run forward handler version reason) t h refl)
    step-IsCovered (obligation_transferred forward from_saga to_saga) n h =
        carried t ts ts1 n (by_inbox ts s covered (transfer_obligation s forward to_saga) t h refl)
    step-IsCovered (obligation_released run forward) n h =
        carried t ts ts1 n
          (by_inbox ts s covered (set_status s forward ObligationStatus.released) t h refl)
    step-IsCovered (session_registered session activities capacity expires_ms) n h =
        carried t ts ts1 n (
          by_inbox ts s covered (register_session s session activities capacity expires_ms) t h
            refl)
    step-IsCovered (worker_registered w) n h =
        carried t ts ts1 n (by_inbox ts s covered (register_worker s w) t h refl)
    step-IsCovered (worker_session_renewed session revision expires_ms) n h =
        carried t ts ts1 n
          (by_inbox ts s covered (renew_session s session revision expires_ms) t h refl)
    step-IsCovered (claim_granted g) n h =
        carried t ts ts1 n (by_inbox ts s covered (grant_claim s g) t h refl)
    step-IsCovered (claim_renewed activation session generation revision expiry) n h =
        carried t ts ts1 n
          (by_inbox ts s covered (renew_claim s activation revision expiry) t h refl)
    step-IsCovered (claim_cleared activation) n h =
        carried t ts ts1 n (by_inbox ts s covered (clear_claim s activation) t h refl)
    step-IsCovered (reconciliation_recorded run activation outcome output probes) n h =
        carried t ts ts1 n
          (by_inbox ts s covered (record_reconciliation s activation outcome probes) t h refl)
    step-IsCovered (reconciliation_failed run activation code message) n h =
        carried t ts ts1 n (by_inbox ts s covered s t h refl)
    step-IsCovered (intervention_required run activation reason) n h =
        carried t ts ts1 n (by_inbox ts s covered _ t h refl)
    step-IsCovered (run_succeeded run output) n h =
        carried t ts ts1 n (by_inbox ts s covered (succeed_run s run output) t h refl)
    step-IsCovered (run_failed run error) n h =
        carried t ts ts1 n (by_inbox ts s covered (fail_run s run error) t h refl)
    step-IsCovered (recovery_authorized reason) n h =
        carried t ts ts1 n (by_inbox ts s covered (authorize_recovery s) t h refl)
    step-IsCovered (abort_intent run saga error) n h =
        carried t ts ts1 n (by_inbox ts s covered _ t h refl)
    step-IsCovered (compensation_abandoned run reason unresolved) n h =
        carried t ts ts1 n (by_inbox ts s covered (abandon_compensation s run unresolved) t h refl)

  -- Applying any events, with the tombstones that the acceptances among them leave, keeps a
  -- tombstone for every entry of the inbox that is of a run.
  pub apply_noting-IsCovered :
      (s t : State) (ts ts1 : Tombstones) (events : List DomainEvent)
      → IsCovered s ts
      → apply_noting ext unhex cluster_id s ts events ≡ ok (t, ts1)
      → IsCovered t ts1
  unfolding apply_noting
  apply_noting-IsCovered s t ts ts1 [] covered e =
      let same : ◌≡◌ {A = State × Tombstones} (s, ts) (t, ts1) = cc e in
      subst (λ p. IsCovered p.0 p.1) same covered
  apply_noting-IsCovered s t ts ts1 (x ∷ xs) covered e =
      let (owner, owned, e1) = >>=-eq-ok (event_owner s x) _ {b = (t, ts1)} e in
      let (u, moved, e2) = >>=-eq-ok (evolve s x) _ {b = (t, ts1)} e1 in
      let (us, noted, e3) = >>=-eq-ok (note_signal ext unhex cluster_id x ts) _ {b = (t, ts1)} e2 in
      apply_noting-IsCovered u t us ts1 xs (step-IsCovered s u ts us covered x noted moved) e3

-- In a covered state an event without a tombstone is not in the inbox.
pub unnoted_fresh :
    (s : State) (ts : Tombstones) (run event_id : ℕ)
    → IsCovered s ts
    → Map.get (key_of run event_id) ts ≡ none
    → find (is_event (some run) event_id) s.inbox ≡ none
unfolding find
unnoted_fresh s ts run event_id covered missing = by_entries s.inbox covered
  where
    by_entries :
        (es : List InboxEntry)
        → All (IsNotedIn ts) es
        → find (is_event (some run) event_id) es ≡ none
    by_entries [] h = refl
    by_entries (e ∷ es) h = elim (Bool-cases (is_event (some run) event_id e)) [
      | inr other ↦ rw (other, find) (by_entries es h.1)
      | inl hit ↦
          let of_run : e.run ≡ some run =
            (option_eq.beq_iff e.run (some run)).0 (ground (arith, hit)) in
          let of_event : e.event_id ≡ event_id = ground (arith, hit) in
          let there : is_noted ts (some run) event_id ≡ true = cc (h.0, of_run, of_event) in
          ground (arith, missing, there)
    ]
