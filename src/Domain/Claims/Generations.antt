-- ===== src/Domain/Claims/Generations.antt =====
-- graphrun/src/domain.rs, `evolve`: how the events of the engine change the generations of claims.
use graphrun.Prelude.{
  ℕ, String, ◌≡◌, refl, Bool, true, false, Option, none, some, ◌==◌, nat_eq, string_eq, arith,
  if◌then◌else◌, Bool-cases, Option-cases, inl, inr, saturating_add,
}
use mathlib.Core.Path.{subst}
use mathlib.Core.Logic.{◌⊎◌}
use graphrun.Map.{Map}
use graphrun.Map
use graphrun.Map.Laws.{get-modify, get-insert, get-map_values}
use graphrun.Error.{ok, >>=-eq-ok, unwrap}
use graphrun.Value.{Value}
use graphrun.Ids.{role_eq}
use graphrun.Domain.Event.{
  DomainEvent, run_admitted, scope_opened, scope_completed, scope_failed, activation_opened,
  node_output_recorded, guard_recorded, leaf_succeeded, leaf_failed, wait_opened, wait_satisfied,
  wait_timed_out, wait_cancelled, event_accepted, event_reserved, reservation_released,
  event_expired, obligation_registered, obligation_blocked, compensation_started,
  obligation_transferred, obligation_released, session_registered, worker_registered,
  worker_session_renewed, claim_granted, claim_renewed, claim_cleared, reconciliation_recorded,
  reconciliation_failed, intervention_required, run_succeeded, run_failed, recovery_authorized,
  abort_intent, compensation_abandoned, CompensationStart,
}
use graphrun.Domain.State.{State, ActivationState, ClaimState, ActivationStatus, ObligationStatus}
use graphrun.Domain.Evolve.{evolve}
use graphrun.Domain.Evolve.Scopes.{
  admit, open_scope, record_guard, succeed_run, complete, note_completed, open_activation,
  fail_scope_state, record_output, leaf_fails, leaf_failure, leaf_succeeds, fail_run, finish_in,
  fail_in, finish_node, fail_activation,
}
use graphrun.Domain.Evolve.Waits.{
  accept_event, expire_event, set_reservation, open_wait_state, end_wait, satisfy_wait,
}
use graphrun.Domain.Evolve.Obligations.{
  register_obligation, put_obligation, block_obligation, transfer_obligation, start_compensation,
  open_compensation, abandon_compensation, drop_claim, set_status,
}
use graphrun.Domain.Evolve.Claims.{
  register_session, register_worker, renew_session, authorize_recovery, renew_claim, clear_claim,
  record_reconciliation, on_claim, is_unknown,
}

-- The generation of the claim on an activation.
abbrev generation_of_claim : Option ClaimState → Option ℕ
generation_of_claim none = none
generation_of_claim (some c) = some c.generation

abbrev generation_in : Option ActivationState → Option ℕ
generation_in none = none
generation_in (some act) = generation_of_claim act.claim

abbrev pub generation_at : State → ℕ → Option ℕ
generation_at s a = generation_in (Map.get a s.activations)

-- What is left is the same, or nothing.
abbrev pub KeepsOrDrops : Option ℕ → Option ℕ → Type 0
KeepsOrDrops before after = (after ≡ before) ⊎ (after ≡ none)

keeps-modify :
    (a k : ℕ) (f : ActivationState → ActivationState) (m : Map ℕ ActivationState)
    → ((act : ActivationState)
        → KeepsOrDrops (generation_of_claim act.claim) (generation_of_claim (f act).claim))
    → KeepsOrDrops (generation_in (Map.get a m)) (generation_in (Map.get a (Map.modify k f m)))
keeps-modify a k f m each = rw (get-modify k a f m) (elim (Bool-cases (k == a)) [
  | inr other ↦ inl (rw (other) refl)
  | inl same ↦ elim (Option-cases (Map.get a m)) [
    | inl missing ↦ inl (rw (same, missing) refl)
    | inr (act, found) ↦ rw (same, found) (each act)
  ]
])

keeps-map_values :
    (a : ℕ) (f : ActivationState → ActivationState) (m : Map ℕ ActivationState)
    → ((act : ActivationState)
        → KeepsOrDrops (generation_of_claim act.claim) (generation_of_claim (f act).claim))
    → KeepsOrDrops (generation_in (Map.get a m)) (generation_in (Map.get a (Map.map_values f m)))
keeps-map_values a f m each = rw (get-map_values a f m) (elim (Option-cases (Map.get a m)) [
  | inl missing ↦ inl (rw (missing) refl)
  | inr (act, found) ↦ rw (found) (each act)
])

keeps-insert :
    (a k : ℕ) (v : ActivationState) (m : Map ℕ ActivationState)
    → v.claim ≡ none
    → KeepsOrDrops (generation_in (Map.get a m)) (generation_in (Map.get a (Map.insert k v m)))
keeps-insert a k v m free = rw (get-insert k a v m) (elim (Bool-cases (k == a)) [
  | inr other ↦ inl (rw (other) refl)
  | inl same ↦ inr (rw (same, free) refl)
])

-- An event leaves the count of generations, and the generation at an activation, or drops it.
pub record Keeps (s t : State) (a : ℕ) : Type 0 where
  pub count : t.next_generation ≡ s.next_generation
  pub claim : KeepsOrDrops (generation_at s a) (generation_at t a)

unchanged :
    (s t : State) (a : ℕ)
    → t.next_generation ≡ s.next_generation
    → t.activations ≡ s.activations
    → Keeps s t a
unchanged s t a n e = record { count = n; claim = inl (rw (e) refl) }

on_claim_keeps :
    (f : ClaimState → ClaimState)
    → ((c : ClaimState) → (f c).generation ≡ c.generation)
    → (act : ActivationState)
    → KeepsOrDrops (generation_of_claim act.claim) (generation_of_claim (on_claim f act).claim)
on_claim_keeps f same act = elim (Option-cases act.claim) [
  | inl free ↦ inl (rw (free) refl)
  | inr (c, held) ↦ inl (rw (held, same c) refl)
]

module _ (s : State) (a : ℕ) where
  end_wait-Keeps : (wait : ℕ) (status : ActivationStatus) → Keeps s (end_wait s wait status) a
  unfolding end_wait
  end_wait-Keeps wait status = elim (Option-cases (Map.get wait s.waits)) [
    | inl missing ↦ rw (missing, end_wait) (unchanged s s a refl refl)
    | inr (w, found) ↦
        rw (found, end_wait)
          (record {
            count = refl;
            claim =
                keeps-modify a w.activation (λ x. record x { status = status }) s.activations
                  (λ act. inl refl);
          })
  ]

  complete-Keeps : (scope : ℕ) (output : Value) → Keeps s (complete s scope output) a
  unfolding complete note_completed
  complete-Keeps scope output = elim (Option-cases (Map.get scope s.scopes)) [
    | inl missing ↦
        rw (missing, complete)
          (record {
            count = refl;
            claim = keeps-map_values a (finish_in scope) s.activations (λ act. inl (ground arith));
          })
    | inr (c, found) ↦
        rw (found, complete)
          (record {
            count = refl;
            claim = keeps-map_values a (finish_in scope) s.activations (λ act. inl (ground arith));
          })
  ]

  ok-Keeps : {x t : State} → ok x ≡ ok t → Keeps s x a → Keeps s t a
  ok-Keeps {x} {t} h k = let same : x ≡ t = cc in subst (λ y. Keeps s y a) same k

  open_activation-Keeps :
      (run scope activation : ℕ) (node : String) (t : State)
      → open_activation s run scope activation node ≡ ok t
      → Keeps s t a
  unfolding open_activation
  open_activation-Keeps run scope activation node t e =
      let (r, found, h) = >>=-eq-ok (unwrap (Map.get run s.runs)) _ e in
      ok-Keeps h (record { count = refl; claim = keeps-insert a activation _ s.activations refl })

  open_compensation-Keeps :
      (scope : Option ℕ) (c : CompensationStart) (t : State)
      → open_compensation s scope c ≡ ok t
      → Keeps s t a
  unfolding open_compensation
  open_compensation-Keeps none c t e = ok-Keeps e (unchanged s s a refl refl)
  open_compensation-Keeps (some scope) c t e =
      let (r, found, h) = >>=-eq-ok (unwrap (Map.get c.run s.runs)) _ e in
      ok-Keeps h (record { count = refl; claim = keeps-insert a c.activation _ s.activations refl })

  satisfy_wait-Keeps : (run wait event_id : ℕ) → Keeps s (satisfy_wait s run wait event_id) a
  unfolding satisfy_wait
  satisfy_wait-Keeps run wait event_id =
      let k = end_wait-Keeps wait ActivationStatus.succeeded in
      record { count = k.count; claim = k.claim }

module _ (s : State) (a : ℕ) where
  start_compensation-Keeps :
      (c : CompensationStart) (t : State) → start_compensation s c ≡ ok t → Keeps s t a
  unfolding start_compensation set_status
  start_compensation-Keeps c t e =
      let k =
        open_compensation-Keeps
          (set_status (record s { saga_errors = Map.insert c.saga c.error s.saga_errors }) c.forward
            (ObligationStatus.compensating c.activation))
          a _ c t e in
      record { count = k.count; claim = k.claim }

  abbrev modifies :
      (k : ℕ) (f : ActivationState → ActivationState)
      → ((act : ActivationState)
          → KeepsOrDrops (generation_of_claim act.claim) (generation_of_claim (f act).claim))
      → KeepsOrDrops (generation_at s a) (generation_in (Map.get a (Map.modify k f s.activations)))
  modifies k f each = keeps-modify a k f s.activations each

  abbrev rewrites :
      (f : ActivationState → ActivationState)
      → ((act : ActivationState)
          → KeepsOrDrops (generation_of_claim act.claim) (generation_of_claim (f act).claim))
      → KeepsOrDrops
          (generation_at s a)
          (generation_in (Map.get a (Map.map_values f s.activations)))
  rewrites f each = keeps-map_values a f s.activations each

-- An engine's events number its grants: each takes the generation after the last.
abbrev pub IsInOrder : State → DomainEvent → Type 0
IsInOrder s (claim_granted g) = g.generation ≡ saturating_add s.next_generation 1
IsInOrder s _ = Unit {0}

abbrev pub is_grant : DomainEvent → Bool
is_grant (claim_granted g) = true
is_grant _ = false

module _ (s t : State) (a : ℕ) where
  pub evolve-Keeps : (e : DomainEvent) → is_grant e ≡ false → evolve s e ≡ ok t → Keeps s t a
  unfolding evolve
  evolve-Keeps (run_admitted x) n h = unfold admit in ok-Keeps s a h (unchanged s _ a refl refl)
  evolve-Keeps (scope_opened run scope parent role input) n h =
      unfold open_scope in ok-Keeps s a h (unchanged s _ a refl refl)
  evolve-Keeps (scope_completed run scope output) n h =
      ok-Keeps s a h (complete-Keeps s a scope output)
  evolve-Keeps (scope_failed run scope error) n h =
      unfold fail_scope_state in
      ok-Keeps s a h
        (record { count = refl; claim = rewrites s a (fail_in scope) (λ act. inl (ground arith)) })
  evolve-Keeps (activation_opened run scope activation node) n h =
      open_activation-Keeps s a run scope activation node t h
  evolve-Keeps (node_output_recorded run scope node output) n h =
      unfold record_output in
      ok-Keeps s a h (record {
        count = refl;
        claim = rewrites s a (finish_node scope node) (λ act. inl (ground arith));
      })
  evolve-Keeps (guard_recorded run activation result index carry) n h =
      unfold record_guard in ok-Keeps s a h (unchanged s _ a refl refl)
  evolve-Keeps (leaf_succeeded run activation attempt output role) n h =
      unfold leaf_succeeds in
      ok-Keeps s a h (record {
        count = refl;
        claim =
            modifies s a activation (λ x. record x { status = ActivationStatus.succeeded })
              (λ act. inl refl);
      })
  evolve-Keeps (leaf_failed run activation attempt code message retry) n h =
      unfold leaf_fails in
      ok-Keeps s a h (record {
        count = refl;
        claim = modifies s a activation (leaf_failure retry) (λ act. elim (Bool-cases retry) [
          | inl again ↦ inr (rw (again) refl)
          | inr final ↦ inl (rw (final) refl)
        ]);
      })
  evolve-Keeps (wait_opened w) n h =
      unfold open_wait_state in
      ok-Keeps s a h (record {
        count = refl;
        claim =
            modifies s a w.activation (λ x. record x { status = ActivationStatus.ready })
              (λ act. inl refl);
      })
  evolve-Keeps (wait_satisfied run wait event_id payload) n h =
      ok-Keeps s a h (satisfy_wait-Keeps s a run wait event_id)
  evolve-Keeps (wait_timed_out run wait) n h =
      ok-Keeps s a h (end_wait-Keeps s a wait ActivationStatus.succeeded)
  evolve-Keeps (wait_cancelled run wait) n h =
      ok-Keeps s a h (end_wait-Keeps s a wait ActivationStatus.failed)
  evolve-Keeps (event_accepted x) n h =
      unfold accept_event in ok-Keeps s a h (unchanged s _ a refl refl)
  evolve-Keeps (event_expired run event_id) n h =
      unfold expire_event in ok-Keeps s a h (unchanged s _ a refl refl)
  evolve-Keeps (event_reserved wait event_id) n h =
      unfold set_reservation in ok-Keeps s a h (unchanged s _ a refl refl)
  evolve-Keeps (reservation_released wait event_id) n h =
      unfold set_reservation in ok-Keeps s a h (unchanged s _ a refl refl)
  evolve-Keeps (obligation_registered run forward handler version input) n h =
      unfold register_obligation in
      unfold put_obligation in ok-Keeps s a h (unchanged s _ a refl refl)
  evolve-Keeps (obligation_blocked run forward handler version reason) n h =
      unfold block_obligation in unfold put_obligation in ok-Keeps s a h (unchanged s _ a refl refl)
  evolve-Keeps (compensation_started c) n h = start_compensation-Keeps s a c t h
  evolve-Keeps (obligation_transferred forward from_saga to_saga) n h =
      unfold transfer_obligation in ok-Keeps s a h (unchanged s _ a refl refl)
  evolve-Keeps (obligation_released run forward) n h =
      unfold set_status in ok-Keeps s a h (unchanged s _ a refl refl)
  evolve-Keeps (session_registered session activities capacity expires_ms) n h =
      unfold register_session in ok-Keeps s a h (unchanged s _ a refl refl)
  evolve-Keeps (worker_registered w) n h =
      unfold register_worker in ok-Keeps s a h (unchanged s _ a refl refl)
  evolve-Keeps (worker_session_renewed session revision expires_ms) n h =
      unfold renew_session in ok-Keeps s a h (unchanged s _ a refl refl)
  evolve-Keeps (claim_granted g) n h = cc
  evolve-Keeps (claim_renewed activation session generation revision expiry) n h =
      unfold renew_claim in
      ok-Keeps s a h (record {
        count = refl;
        claim = modifies s a activation _ (
            on_claim_keeps (λ c. record c { revision = revision; lease_expiry_ms = expiry })
              (λ c. refl));
      })
  evolve-Keeps (claim_cleared activation) n h =
      unfold clear_claim in
      ok-Keeps s a h (record {
        count = refl;
        claim = modifies s a activation (λ x. record x { claim = none }) (λ act. inr refl);
      })
  evolve-Keeps (reconciliation_recorded run activation outcome output probes) n h =
      unfold record_reconciliation in
      ok-Keeps s a h (record {
        count = refl;
        claim = modifies s a activation _ (
            on_claim_keeps
              (λ c. record c {
                probes = probes;
                unknown_reported = if is_unknown outcome then true else c.unknown_reported;
              })
              (λ c. refl));
      })
  evolve-Keeps (reconciliation_failed run activation code message) n h =
      ok-Keeps s a h (unchanged s s a refl refl)
  evolve-Keeps (intervention_required run activation reason) n h =
      ok-Keeps s a h (unchanged s _ a refl refl)
  evolve-Keeps (run_succeeded run output) n h =
      unfold succeed_run in ok-Keeps s a h (unchanged s _ a refl refl)
  evolve-Keeps (run_failed run error) n h =
      unfold fail_run in
      ok-Keeps s a h (record {
        count = refl;
        claim = rewrites s a (fail_activation run) (λ act. inl (ground arith));
      })
  evolve-Keeps (recovery_authorized reason) n h =
      unfold authorize_recovery in ok-Keeps s a h (unchanged s _ a refl refl)
  evolve-Keeps (abort_intent run saga error) n h = ok-Keeps s a h (unchanged s _ a refl refl)
  evolve-Keeps (compensation_abandoned run reason unresolved) n h =
      unfold abandon_compensation in
      ok-Keeps s a h (record {
        count = refl;
        claim = rewrites s a (drop_claim run) (λ act. elim (Bool-cases (act.run == run)) [
          | inl mine ↦ inr (rw (mine) refl)
          | inr other ↦ inl (rw (other) refl)
        ]);
      })
