-- ===== src/Policy.antt =====
-- graphrun/src/policy.rs: backoff and retry policies, and the policy captured at admission.
use graphrun.Prelude.{
  ℕ, ◌≤◌, ◌≡◌, ◌↔◌, String, ◌||◌, ◌&&◌, not, Option, List, [], ◌==◌, nat_eq, ltb, leb, arith,
}
use graphrun.Error.{Result, ok, invalid_argument, ◌>>◌, refuse_if}
use graphrun.Limits.{
  forward_attempt_timeout, compensation_attempt_timeout, reconciliation_attempt_timeout,
  forward_attempt_budget, compensation_attempt_budget, max_attempt_budget,
}

pub record Backoff : Type 0 where
  pub initial_ms : ℕ
  pub multiplier_millis : ℕ
  pub max_ms : ℕ

abbrev pub forward_backoff : Backoff
forward_backoff = record { initial_ms = 1000; multiplier_millis = 2000; max_ms = 60000 }

abbrev pub compensation_backoff : Backoff
compensation_backoff = record { initial_ms = 1000; multiplier_millis = 2000; max_ms = 300000 }

validate_backoff : Backoff → Result (Unit {0})
validate_backoff b = do
  refuse_if (b.initial_ms == 0 || b.max_ms == 0) invalid_argument
      "backoff durations must be positive"
  refuse_if (ltb b.max_ms b.initial_ms) invalid_argument "backoff initial exceeds max"
  refuse_if (ltb 3600000 b.max_ms) invalid_argument "backoff max exceeds one hour"
  refuse_if (not (leb 1000 b.multiplier_millis && leb b.multiplier_millis 10000)) invalid_argument
      "backoff multiplier must be between 1 and 10"

pub record RetryPolicy : Type 0 where
  pub errors : List String
  pub max_attempts : ℕ
  pub backoff : Backoff

abbrev pub forward_default : RetryPolicy
forward_default = record {
  errors = [];
  max_attempts = forward_attempt_budget;
  backoff = forward_backoff;
}

abbrev pub compensation_default : List String → RetryPolicy
compensation_default retryable_codes = record {
  errors = retryable_codes;
  max_attempts = compensation_attempt_budget;
  backoff = compensation_backoff;
}

pub validate : RetryPolicy → Result (Unit {0})
unfolding validate_backoff
validate p = do
  refuse_if (p.max_attempts == 0 || ltb max_attempt_budget p.max_attempts) invalid_argument
      "max_attempts is out of range"
  validate_backoff p.backoff

pub record CapturedRunPolicy : Type 0 where
  pub forward_attempt_timeout_ms : ℕ
  pub compensation_attempt_timeout_ms : ℕ
  pub reconciliation_attempt_timeout_ms : ℕ
  pub run_timeout_ms : Option ℕ
  pub terminal_history_days : ℕ
  pub terminal_summary_days : ℕ
  pub command_result_hours : ℕ
  pub unreserved_event_days : ℕ
  pub checkpoint_event_cadence : ℕ

abbrev pub defaults : Option ℕ → CapturedRunPolicy
defaults run_timeout_ms = record {
  forward_attempt_timeout_ms = forward_attempt_timeout;
  compensation_attempt_timeout_ms = compensation_attempt_timeout;
  reconciliation_attempt_timeout_ms = reconciliation_attempt_timeout;
  run_timeout_ms = run_timeout_ms;
  terminal_history_days = 30;
  terminal_summary_days = 90;
  command_result_hours = 24;
  unreserved_event_days = 7;
  checkpoint_event_cadence = 256;
}

-- What a retry policy has to satisfy.
pub record IsWithinLimits (p : RetryPolicy) : Type 0 where
  pub some_attempt : 1 ≤ p.max_attempts
  pub within_budget : p.max_attempts ≤ 10
  pub positive_initial : 1 ≤ p.backoff.initial_ms
  pub initial-le-max : p.backoff.initial_ms ≤ p.backoff.max_ms
  pub at_most_an_hour : p.backoff.max_ms ≤ 3600000
  pub multiplier_low : 1000 ≤ p.backoff.multiplier_millis
  pub multiplier_high : p.backoff.multiplier_millis ≤ 10000

-- `validate` accepts a retry policy exactly when it makes 1 to 10 attempts, its backoff starts
-- above 0 and at most at its maximum, the maximum is at most an hour and the multiplier is between
-- 1 and 10 (in thousandths).
pub validate_exact : (p : RetryPolicy) → (validate p ≡ ok tt) ↔ IsWithinLimits p
unfolding validate
validate_exact p = ((λ h. ground arith), (λ h. ground arith))
