-- ===== src/Domain/Evolve/Claims.antt =====
-- graphrun/src/domain.rs, `evolve`: worker sessions and the claims on activations.
use graphrun.Prelude.{
  ℕ, String, Bool, true, false, Option, none, some, List, [], ◌==◌, nat_eq, if◌then◌else◌,
  saturating_add, saturating_add_32,
}
use graphrun.Map
use graphrun.Ids.{reconciliation, role_eq}
use graphrun.Domain.Event.{WorkerRegistration, Grant, ReconcileOutcome, unknown}
use graphrun.Domain.State.{State, ActivationState, ClaimState}

unfoldable pub register_session : State → ℕ → List String → ℕ → ℕ → State
register_session s session activities capacity expires_ms = record s {
  sessions =
      Map.insert session
        (record {
          id = session;
          activities = activities;
          capacity = capacity;
          expires_ms = expires_ms;
          principal_id = "";
          capabilities = [];
          revision = 0;
          protocol_min = 0;
          protocol_max = 0;
        })
        s.sessions;
}

unfoldable pub register_worker : State → WorkerRegistration → State
register_worker s w = record s {
  sessions =
      Map.insert w.session
        (record {
          id = w.session;
          activities = [];
          capacity = w.capacity;
          expires_ms = w.expires_ms;
          principal_id = w.principal_id;
          capabilities = w.capabilities;
          revision = 1;
          protocol_min = w.protocol_min;
          protocol_max = w.protocol_max;
        })
        s.sessions;
}

unfoldable pub renew_session : State → ℕ → ℕ → ℕ → State
renew_session s session revision expires_ms = record s {
  sessions =
      Map.modify session (λ w. record w { revision = revision; expires_ms = expires_ms })
        s.sessions;
}

abbrev probes_of : Option ClaimState → ℕ
probes_of none = 0
probes_of (some claim) = claim.probes

abbrev pub granted : Grant → ActivationState → ActivationState
granted g act = record act {
  claim = some (record {
    session = g.session;
    generation = g.generation;
    revision = g.revision;
    lease_expiry_ms = g.lease_expiry_ms;
    attempt_deadline_ms = g.attempt_deadline_ms;
    effect_key = g.effect_key;
    role = g.role;
    probes = if g.role == reconciliation then probes_of act.claim else 0;
    unknown_reported = false;
  });
  attempts = saturating_add_32 act.attempts 1;
}

unfoldable pub grant_claim : State → Grant → State
grant_claim s g = record s {
  next_generation = saturating_add s.next_generation 1;
  fair_cursor = some g.run;
  activations = Map.modify g.activation (granted g) s.activations;
}

abbrev pub on_claim : (ClaimState → ClaimState) → ActivationState → ActivationState
on_claim f act = record act { claim = elim act.claim [ none ↦ none | some claim ↦ some (f claim) ] }

unfoldable pub renew_claim : State → ℕ → ℕ → ℕ → State
renew_claim s activation revision lease_expiry_ms = record s {
  activations =
      Map.modify activation
        (on_claim (λ c. record c { revision = revision; lease_expiry_ms = lease_expiry_ms }))
        s.activations;
}

unfoldable pub clear_claim : State → ℕ → State
clear_claim s activation = record s {
  activations = Map.modify activation (λ a. record a { claim = none }) s.activations;
}

abbrev pub is_unknown : ReconcileOutcome → Bool
is_unknown unknown = true
is_unknown _ = false

unfoldable pub record_reconciliation : State → ℕ → ReconcileOutcome → ℕ → State
record_reconciliation s activation outcome probes = record s {
  activations =
      Map.modify activation
        (on_claim (λ c. record c {
          probes = probes;
          unknown_reported = if is_unknown outcome then true else c.unknown_reported;
        }))
        s.activations;
}

unfoldable pub authorize_recovery : State → State
authorize_recovery s = record s {
  recovery = elim s.recovery [ none ↦ none | some hold ↦ some (record hold { authorized = true }) ];
}
