-- ===== src/Domain/Owners.antt =====
-- graphrun/src/domain.rs: how a worker session renews a claim, and is recognised as its owner.
use graphrun.Prelude.{ℕ, not, ◌||◌, [], ◌∷◌, ◌==◌, nat_eq, leb}
use graphrun.Map
use graphrun.Error.{
  Result, ok, invalid_argument, failed_precondition, unauthenticated, or_fail, refuse_if, ◌>>=◌,
  ◌>>◌,
}
use graphrun.Ids.{next}
use graphrun.Domain.Event.{claim_renewed}
use graphrun.Domain.State.{State, ClaimState, is_ready}
use graphrun.Domain.Sessions.{Decision, lease_from}

unfoldable pub decide_renew : State → ℕ → ℕ → ℕ → ℕ → ℕ → Result Decision
decide_renew s session activation generation revision time = do
  worker ← or_fail (Map.get session s.sessions) unauthenticated "unknown session"
  refuse_if (leb worker.expires_ms time) failed_precondition "session expired"
  act ← or_fail (Map.get activation s.activations) invalid_argument "unknown activation"
  claim ← or_fail act.claim failed_precondition "no claim"
  refuse_if (not (claim.session == session) || not (claim.generation == generation))
      failed_precondition "stale claim"
  refuse_if (not (claim.revision == revision)) failed_precondition "stale revision"
  refuse_if (leb claim.lease_expiry_ms time || leb claim.attempt_deadline_ms time)
      failed_precondition "claim expired"
  ok (claim_renewed activation session generation (next revision) (lease_from time) ∷ [])

-- The claim that a report speaks for, if the reporter still owns it.
unfoldable pub validate_claim_owner : State → ℕ → ℕ → ℕ → ℕ → ℕ → ℕ → Result ClaimState
validate_claim_owner s run activation session generation revision time = do
  act ← or_fail (Map.get activation s.activations) invalid_argument "unknown activation"
  refuse_if (not (act.run == run) || not (is_ready act.status)) failed_precondition
      "activation is not awaiting this result"
  claim ← or_fail act.claim failed_precondition "no claim"
  refuse_if
      (not (claim.session == session)
        || (not (claim.generation == generation) || not (claim.revision == revision)))
      failed_precondition "stale claim"
  worker ← or_fail (Map.get session s.sessions) unauthenticated "unknown session"
  refuse_if
      (leb worker.expires_ms time
        || (leb claim.lease_expiry_ms time || leb claim.attempt_deadline_ms time))
      failed_precondition "claim or session expired"
  ok claim
