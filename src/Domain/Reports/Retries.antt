-- ===== src/Domain/Reports/Retries.antt =====
-- graphrun/src/domain.rs: which failures of a forward leaf are tried again.
use graphrun.Prelude.{
  ℕ, String, ◌<◌, ◌≡◌, refl, sym, ◌∙◌, true, false, Option, none, some, List, [], ◌∷◌, ◌==◌, max,
  nat_eq, string_eq, arith, contains, Option-cases, Bool-cases, inl, inr, ◌⊎◌, ==_refl,
}
use mathlib.Core.Path.{subst}
use graphrun.Map
use graphrun.Map.Laws.{get-modify}
use graphrun.Error.{ok, ◌>>=◌, >>=-eq-ok}
use graphrun.Ids.{compensation, role_eq}
use graphrun.Policy.{RetryPolicy}
use graphrun.Ir.{FailError}
use graphrun.Catalog.{ActivityContract, ErrorCode, known_code}
use graphrun.Domain.Event.{DomainEvent, claim_cleared}
use graphrun.Domain.State.{State, ActivationState, ActivationStatus, is_ready}
use graphrun.Domain.Contract.{forward_policy}
use graphrun.Domain.Evolve.{apply_events, evolve, event_owner}
use graphrun.Domain.Evolve.Scopes.{leaf_fails, leaf_failure}
use graphrun.Domain.Evolve.Claims.{clear_claim}
use graphrun.Domain.Follow.{fail_scope}
use graphrun.Domain.Reports.{
  awaiting, forward_error_retryable, is_retryable_code, report_forward_error, decide_report_error,
  failed_leaf,
}

-- A failure that is tried again: the contract of the leaf's activity knows its code as one to
-- retry, the node's policy lists it, and the attempts made are fewer than the policy allows.
pub record IsRetryable (s : State) (act : ActivationState) (code : String) : Type 0 where
  pub contract : ActivityContract
  pub policy : RetryPolicy
  pub spec : ErrorCode
  pub found : forward_policy s act ≡ some (contract, policy)
  pub known : known_code contract code ≡ some spec
  pub retryable : spec.retryable ≡ true
  pub listed : contains policy.errors code ≡ true
  pub attempts_left : max act.attempts 1 < policy.max_attempts

module _ (s : State) (act : ActivationState) (code : String) where
  IsRetryable-sound : forward_error_retryable s act code ≡ true → IsRetryable s act code
  unfolding forward_error_retryable is_retryable_code
  IsRetryable-sound h = elim (Option-cases (forward_policy s act)) [
    | inl missing ↦ ground arith
    | inr (p, found) ↦ elim (Option-cases (known_code p.0 code)) [
      | inl unknown ↦ ground arith
      | inr (spec, known) ↦ record {
        contract = p.0;
        policy = p.1;
        spec = spec;
        found = found;
        known = known;
        retryable = ground arith;
        listed = ground arith;
        attempts_left = ground arith;
      }
    ]
  ]

-- The leaf waits for a worker again: the attempts are those it had, and nobody holds it.
pub record IsOffered (act : ActivationState) (o : Option ActivationState) : Type 0 where
  pub again : ActivationState
  pub there : o ≡ some again
  pub waits : is_ready again.status ≡ true
  pub unheld : again.claim ≡ none
  pub same_attempts : again.attempts ≡ act.attempts

module _ (s : State) (run activation : ℕ) (act : ActivationState) (code message : String) where
  retry_applies :
      Map.get activation s.activations ≡ some act
      → (t : State) × (apply_events s
            (failed_leaf run activation act code message true ∷ claim_cleared activation ∷ [])
          ≡ ok t)
        × IsOffered act (Map.get activation t.activations)
  unfolding apply_events event_owner evolve leaf_fails clear_claim
  retry_applies found =
      let failed = get-modify activation activation (leaf_failure true) s.activations in
      let cleared =
        get-modify activation activation (λ a. record a { claim = none })
          (Map.modify activation (leaf_failure true) s.activations) in
      let there : Map.get activation (Map.modify activation (leaf_failure true) s.activations)
          ≡ some (leaf_failure true act) =
        ground (arith, failed, found, ==_refl activation) in
      (
        clear_claim (leaf_fails s activation true) activation,
        rw (there, leaf_fails, evolve, clear_claim) refl,
        record {
          again = record act { status = ActivationStatus.ready; claim = none };
          there = ground (arith, cleared, there, ==_refl activation);
          waits = refl;
          unheld = refl;
          same_attempts = refl;
        },
      )

  abbrev the_error : FailError
  the_error = record { code = code; message = message }

  -- The last failure of a leaf fails its scope with the leaf's code and message.
  pub record IsFinal (events : List DomainEvent) : Type 0 where
    pub rest : List DomainEvent
    pub not_retryable : forward_error_retryable s act code ≡ false
    pub fails_scope : fail_scope s act.scope the_error ≡ ok rest
    pub events_are : events ≡ failed_leaf run activation act code message false ∷ rest

  -- The retry of a failure, and its application.
  pub record IsRetried (events : List DomainEvent) : Type 0 where
    pub why : IsRetryable s act code
    pub after : State
    pub applied : apply_events s events ≡ ok after
    pub offered : IsOffered act (Map.get activation after.activations)

  report-IsFinal :
      (events : List DomainEvent)
      → forward_error_retryable s act code ≡ false
      → report_forward_error s run activation act code message ≡ ok events
      → IsFinal events
  unfolding report_forward_error
  report-IsFinal events last e =
      let failing : (fail_scope s act.scope the_error >>= λ rest.
      ok (failed_leaf run activation act code message false ∷ rest))
          ≡ ok events =
        sym (rw (last, report_forward_error) refl) ∙ e in
      let (rest, done, same) =
        >>=-eq-ok (fail_scope s act.scope the_error) _ {b = events} failing in
      record { rest = rest; not_retryable = last; fails_scope = done; events_are = cc same }

  report-IsRetried :
      (events : List DomainEvent)
      → Map.get activation s.activations ≡ some act
      → forward_error_retryable s act code ≡ true
      → report_forward_error s run activation act code message ≡ ok events
      → IsRetried events
  unfolding report_forward_error
  report-IsRetried events found again e =
      let (t, applied, offered) = retry_applies found in
      let same : failed_leaf run activation act code message true ∷ claim_cleared activation ∷ []
          ≡ events =
        cc (
          let h : ok
                (failed_leaf run activation act code message true ∷ claim_cleared activation ∷ [])
              ≡ ok events =
            sym (rw (again, report_forward_error) refl) ∙ e in
          h) in
      record {
        why = IsRetryable-sound s act code again;
        after = t;
        applied = subst (λ es. apply_events s es ≡ ok t) same applied;
        offered = offered;
      }

  error_forward :
      (events : List DomainEvent)
      → Map.get activation s.activations ≡ some act
      → (act.role == compensation) ≡ false
      → decide_report_error s run activation code message ≡ ok events
      → report_forward_error s run activation act code message ≡ ok events
  unfolding decide_report_error awaiting
  error_forward events found leaf e = ground (arith, found, leaf)

  -- A failure that is reported of a known leaf that is no compensation: either its code is one that
  -- the contract of the activity and the retry policy of the node give for a retry and attempts are
  -- left, and once applied the leaf waits for a worker again, held by nobody and with its attempts
  -- as they were; or there is no retry, and the scope of the leaf fails with its code and message.
  pub decide_report_error_retries :
      (events : List DomainEvent)
      → Map.get activation s.activations ≡ some act
      → (act.role == compensation) ≡ false
      → decide_report_error s run activation code message ≡ ok events
      → IsRetried events ⊎ IsFinal events
  decide_report_error_retries events found leaf e =
      let reported = error_forward events found leaf e in
      elim (Bool-cases (forward_error_retryable s act code)) [
        | inl again ↦ inl (report-IsRetried events found again reported)
        | inr final ↦ inr (report-IsFinal events final reported)
      ]
