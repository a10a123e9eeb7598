-- ===== src/Domain/Sessions.antt =====
-- graphrun/src/domain.rs: the commands that open, register and renew worker sessions, and the one
-- that releases a recovery hold. A decision is its list of events.
pub mod Lifecycle
use graphrun.Prelude.{
  ℕ, String, Bool, true, false, not, ◌&&◌, ◌||◌, Option, none, some, List, [], ◌∷◌, ◌==◌, nat_eq,
  string_eq, ltb, leb, if◌then◌else◌, any, saturating_add,
}
use graphrun.Map
use graphrun.Error.{
  Result, ok, invalid_argument, failed_precondition, unauthenticated, or_fail, refuse_if, ◌>>=◌,
  ◌>>◌,
}
use graphrun.Limits.{claim_batch, max_active_leaves_per_worker, session_lease}
use graphrun.Ids.{role_eq, next}
use graphrun.WorkerContract.{codec_version, protocol_version}
use graphrun.Domain.Event.{
  DomainEvent, WorkerCapability, session_registered, worker_registered, worker_session_renewed,
  recovery_authorized,
}
use graphrun.Domain.State.{State, WorkerSession}

abbrev pub Decision : Type 0
Decision = List DomainEvent

-- The lease that a registration or a renewal gives from a time on.
abbrev pub lease_from : ℕ → ℕ
lease_from time = saturating_add time session_lease

abbrev still_live : Option WorkerSession → ℕ → Bool
still_live none time = false
still_live (some existing) time = ltb time existing.expires_ms

unfoldable pub decide_register : State → ℕ → List String → ℕ → ℕ → Result Decision
decide_register s session activities capacity time = do
  refuse_if (capacity == 0 || ltb claim_batch capacity) invalid_argument "invalid worker capacity"
  ok (
      if still_live (Map.get session s.sessions) time
      then []
      else session_registered session activities capacity (lease_from time) ∷ [])

-- `CommandBody::RenewLocalSession` of `decide`.
unfoldable pub decide_renew_local : State → ℕ → ℕ → Result Decision
decide_renew_local s session time = do
  worker ← or_fail (Map.get session s.sessions) failed_precondition "unknown local session"
  refuse_if (not (worker.principal_id == "") || leb worker.expires_ms time) failed_precondition
      "local worker session expired or is not local"
  ok (session_registered session worker.activities worker.capacity (lease_from time) ∷ [])

abbrev same_binding : WorkerCapability → WorkerCapability → Bool
same_binding a b =
    a.activity_name == b.activity_name
    && (a.activity_version == b.activity_version && a.role == b.role)

-- The loop over the capabilities, with those already seen.
unfoldable pub unique_supported : List WorkerCapability → List WorkerCapability → Bool
unique_supported seen [] = true
unique_supported seen (c ∷ cs) =
    (c.codec_version == codec_version && not (any (same_binding c) seen))
    && unique_supported (c ∷ seen) cs

abbrev no_capability : List WorkerCapability → Bool
no_capability [] = true
no_capability (c ∷ cs) = false

unfoldable pub decide_register_worker :
    State → ℕ → String → List WorkerCapability → ℕ → ℕ → ℕ → ℕ → Result Decision
unfolding unique_supported
decide_register_worker s session principal_id capabilities capacity protocol_min protocol_max time =
    do
      refuse_if (principal_id == "" || Map.contains_key session s.sessions) invalid_argument
          "worker session identity must be new and authenticated"
      refuse_if
          (capacity == 0
            || (ltb max_active_leaves_per_worker capacity
                || (no_capability capabilities
                    || (ltb protocol_version protocol_min || ltb protocol_max protocol_version))))
          invalid_argument "invalid worker capacity, protocol range, or capabilities"
      refuse_if (not (unique_supported [] capabilities)) invalid_argument
          "duplicate or unsupported worker capability"
      ok (
          worker_registered (record {
            session = session;
            principal_id = principal_id;
            capabilities = capabilities;
            capacity = capacity;
            protocol_min = protocol_min;
            protocol_max = protocol_max;
            expires_ms = lease_from time;
          })
          ∷ [])

unfoldable pub decide_renew_worker_session : State → ℕ → ℕ → ℕ → Result Decision
decide_renew_worker_session s session revision time = do
  worker ← or_fail (Map.get session s.sessions) unauthenticated "unknown worker session"
  refuse_if
      (worker.principal_id == ""
        || (not (worker.revision == revision) || leb worker.expires_ms time))
      failed_precondition "stale or expired worker session"
  ok (worker_session_renewed session (next revision) (lease_from time) ∷ [])

unfoldable pub decide_acknowledge_recovery : State → String → Result Decision
decide_acknowledge_recovery s reason = do
  hold ← or_fail s.recovery invalid_argument "no recovery hold"
  if hold.authorized then ok [] else (do
    refuse_if (reason == "") invalid_argument "recovery acknowledgement requires a reason"
    ok (recovery_authorized reason ∷ []))
