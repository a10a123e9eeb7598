-- ===== src/Examples/SessionRuns.antt =====
-- A worker registers, and renews its session.
use graphrun.Prelude.{◌≡◌, refl, List, [], ◌∷◌, nat_eq, string_eq, any, leb, if◌then◌else◌}
use graphrun.Map
use graphrun.Error.{ok, err, failed_precondition}
use graphrun.Ids.{forward}
use graphrun.Domain.Event.{DomainEvent, WorkerCapability, worker_registered, worker_session_renewed}
use graphrun.Domain.State.{State}
use graphrun.Domain.Sessions.{
  decide_register_worker, decide_renew_worker_session, unique_supported, lease_from,
}
use graphrun.Domain.Sessions.Lifecycle.{decide_register_worker-renewable}
use graphrun.Domain.Evolve.{apply_events, evolve, event_owner}
use graphrun.Domain.Evolve.Claims.{register_worker}
use graphrun.Examples.Claims.{idle}

abbrev pub charges : List WorkerCapability
charges =
    record {
      activity_name = "charge";
      activity_version = 1;
      role = forward;
      codec_version = 1;
      input_schema_digest = "a";
      output_schema_digest = "b";
      contract_digest = "c";
    }
    ∷ []

abbrev pub joined : List DomainEvent
joined =
    worker_registered (record {
      session = 9;
      principal_id = "bob";
      capabilities = charges;
      capacity = 4;
      protocol_min = 1;
      protocol_max = 1;
      expires_ms = 31000;
    })
    ∷ []

abbrev pub staffed : State
staffed = register_worker idle (record {
  session = 9;
  principal_id = "bob";
  capabilities = charges;
  capacity = 4;
  protocol_min = 1;
  protocol_max = 1;
  expires_ms = 31000;
})

the_registration : decide_register_worker idle 9 "bob" charges 4 1 1 1000 ≡ ok joined
unfolding decide_register_worker unique_supported any Map.get Map.contains_key
the_registration = refl

the_joining : apply_events idle joined ≡ ok staffed
unfolding apply_events evolve event_owner
the_joining = refl

decide_register_worker-renewable_example : decide_renew_worker_session staffed 9 1 20000 ≡ (
    if leb (lease_from 1000) 20000
    then err (record { kind = failed_precondition; message = "stale or expired worker session" })
    else ok (worker_session_renewed 9 2 (lease_from 20000) ∷ []))
decide_register_worker-renewable_example =
    decide_register_worker-renewable idle staffed 9 "bob" charges 4 1 1 1000 20000 joined
      the_registration the_joining
