-- ===== src/Domain/Sessions/Lifecycle.antt =====
-- graphrun/src/domain.rs: a registered worker session can be renewed until it runs out.
use graphrun.Prelude.{
  ℕ, String, ◌≡◌, false, some, List, [], ◌∷◌, ◌==◌, nat_eq, string_eq, arith, leb, if◌then◌else◌,
}
use graphrun.Map
use graphrun.Map.Laws.{get-insert_self}
use graphrun.Error.{ok, err, failed_precondition}
use graphrun.Domain.Event.{WorkerCapability, worker_session_renewed}
use graphrun.Domain.State.{State, WorkerSession}
use graphrun.Domain.Sessions.{
  Decision, decide_register_worker, decide_renew_worker_session, lease_from,
}
use graphrun.Domain.Evolve.{apply_events, evolve, event_owner}
use graphrun.Domain.Evolve.Claims.{register_worker}

module _ (s t : State) (session : ℕ) (principal : String) (capabilities : List WorkerCapability)
    (capacity low high time later : ℕ) (events : Decision)
    (decided : decide_register_worker s session principal capabilities capacity low high time
      ≡ ok events)
    (applied : apply_events s events ≡ ok t) where
  abbrev registered : WorkerSession
  registered = record {
    id = session;
    activities = [];
    capacity = capacity;
    expires_ms = lease_from time;
    principal_id = principal;
    capabilities = capabilities;
    revision = 1;
    protocol_min = low;
    protocol_max = high;
  }

  authenticated : (principal == "") ≡ false
  unfolding decide_register_worker
  authenticated = ground (arith, decided)

  stands : Map.get session t.sessions ≡ some registered
  unfolding decide_register_worker apply_events evolve event_owner register_worker
  stands = ground (arith, decided, applied, get-insert_self session registered s.sessions)

  -- After a registration of a worker is decided and applied, a renewal under revision 1 gives the
  -- session revision 2 and thirty seconds more, exactly until the lease of the registration ends.
  pub decide_register_worker-renewable : decide_renew_worker_session t session 1 later ≡ (
      if leb (lease_from time) later
      then err (record { kind = failed_precondition; message = "stale or expired worker session" })
      else ok (worker_session_renewed session 2 (lease_from later) ∷ []))
  unfolding decide_renew_worker_session
  decide_register_worker-renewable = ground (arith, stands, authenticated)
