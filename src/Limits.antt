-- ===== src/Limits.antt =====
-- graphrun/src/limits.rs and the constants of graphrun/src/policy.rs that the state machine reads,
-- durations in milliseconds.
use graphrun.Prelude.{ℕ}

abbrev pub max_active_leaves_per_worker : ℕ
max_active_leaves_per_worker = 128

abbrev pub claim_batch : ℕ
claim_batch = 16

abbrev pub max_buffered_events_per_run : ℕ
max_buffered_events_per_run = 1000

abbrev pub max_events_per_address : ℕ
max_events_per_address = 100

abbrev pub progress_batch : ℕ
progress_batch = 32

abbrev pub forward_attempt_timeout : ℕ
forward_attempt_timeout = 300000

abbrev pub compensation_attempt_timeout : ℕ
compensation_attempt_timeout = 300000

abbrev pub reconciliation_attempt_timeout : ℕ
reconciliation_attempt_timeout = 30000

abbrev pub session_lease : ℕ
session_lease = 30000

abbrev pub reconciliation_probes : ℕ
reconciliation_probes = 3

abbrev pub forward_attempt_budget : ℕ
forward_attempt_budget = 5

abbrev pub compensation_attempt_budget : ℕ
compensation_attempt_budget = 10

abbrev pub max_attempt_budget : ℕ
max_attempt_budget = 10

abbrev pub day_ms : ℕ
day_ms = 86400000
