-- ===== src/Domain/Commands/Dispatch.antt =====
-- graphrun/src/domain.rs: `decide` and `decide_start`. What the tombstone of a
-- signal's event says (`tombstone_answer` of Domain/Tombstones) is an argument.
use graphrun.Prelude.{
  ℕ, String, Bool, not, ◌&&◌, ◌||◌, Option, none, some, List, [], ◌∷◌, ◌==◌, nat_eq, string_eq,
  is_some, if◌then◌else◌, starts_with,
}
use graphrun.Map
use graphrun.Error.{
  Result, ok, or_fail, refuse_if, invalid, invalid_argument, failed_precondition, ◌>>=◌, ◌>>◌,
}
use graphrun.Policy.{defaults}
use graphrun.Value.{Value}
use graphrun.Ids.{reconciliation, role_eq, ActivityKey}
use graphrun.Ir.{Definition, start_of}
use graphrun.Catalog.{Catalog, activity, known_code}
use graphrun.WorkerContract.{capability_for}
use graphrun.Externals.{Externals, IdGen, next_id}
use graphrun.Domain.Event.{
  DomainEvent, ScopeRole, ReconcileOutcome, unknown, run_admitted, scope_opened, activation_opened,
  reconciliation_failed,
}
use graphrun.Domain.State.{State, execution_suspended}
use graphrun.Domain.Sessions.{
  Decision, decide_register, decide_register_worker, decide_renew_local,
  decide_renew_worker_session, decide_acknowledge_recovery,
}
use graphrun.Domain.Claims.{decide_claim}
use graphrun.Domain.Owners.{decide_renew, validate_claim_owner}
use graphrun.Domain.Signals.{decide_signal, decide_timer}
use graphrun.Domain.Reports.{
  decide_report, decide_report_assigned, decide_report_error, decide_reconcile,
}
use graphrun.Domain.Cancel.{decide_cancel, decide_abandon_compensation, decide_resolve_blocked}
use graphrun.Domain.Progress.{decide_progress}
use graphrun.Domain.Commands.{CommandBody, Command, Machine, WorkerResult, WorkerProbe, ClaimRef}
use graphrun.Domain.Commands.Keys.{activity_key}
use graphrun.Domain.Commands.Identity.{verify_command_identity}

-- A decision, without the ids that are left.
abbrev events_of : Result (Decision × IdGen) → Result Decision
events_of decided = decided >>= λ r. ok r.0

module _ (ext : Externals) where
  unfoldable pub decide_start : ℕ → Definition → Value → ℕ → IdGen → Decision
  decide_start run definition input time ids =
      let (root, ids1) = next_id ext ids in
      let (start, ids2) = next_id ext ids1 in
      run_admitted (record {
        run = run;
        definition_id = definition.id;
        definition_version = definition.version;
        input = input;
        root = root;
        policy = defaults definition.run_timeout_ms;
        admitted_ms = time;
      })
      ∷ scope_opened run root none ScopeRole.root input
      ∷ activation_opened run root start (start_of definition.root)
      ∷ []

  module _ (s : State) (time : ℕ) (ids : IdGen) where
    abbrev decide_start_unless_suspended : ℕ → Definition → Value → Result Decision
    decide_start_unless_suspended run definition input = do
      refuse_if (execution_suspended s) failed_precondition
          "execution suspended until recovery is acknowledged"
      ok (decide_start run definition input time ids)

    abbrev decide_claim_unless_suspended : ℕ → ℕ → Result Decision
    decide_claim_unless_suspended session capacity =
        let decided = decide_claim ext s session capacity time in
        if execution_suspended s then ok [] else decided

    abbrev is_unknown_code : Catalog → ActivityKey → String → Result Bool
    is_unknown_code catalog key code = do
      contract ← activity catalog key
      ok (not (is_some (known_code contract code)) && not (starts_with code "worker."))

    abbrev checked_error : Catalog → ActivityKey → String → String → Result (Unit {0})
    checked_error catalog key code message = do
      refuse_if (message == "") invalid_argument "undeclared handler error code {code}"
      unknown_code ← is_unknown_code catalog key code
      refuse_if unknown_code invalid_argument "undeclared handler error code {code}"

    abbrev worker_result : ℕ → ℕ → ClaimRef → Catalog → ActivityKey → WorkerResult → Result Decision
    worker_result run activation owner catalog key (WorkerResult.success output) = events_of (
        decide_report_assigned ext s run activation output owner.session owner.generation
          owner.revision time ids)
    worker_result run activation owner catalog key (WorkerResult.error code message) = do
      checked_error catalog key code message
      decide_report_error s run activation code message

    unfoldable pub decide_report_worker : ℕ → ℕ → ClaimRef → String → WorkerResult → Result Decision
    decide_report_worker run activation owner schema_digest result = do
      claim ←
          validate_claim_owner s run activation owner.session owner.generation owner.revision time
      refuse_if (claim.role == reconciliation) invalid_argument
          "reconciliation claim must use reconcile"
      claimed ←
          or_fail (activity_key ext s activation) invalid_argument "claimed activity unavailable"
      let key = claimed.0
      r ← or_fail (Map.get run s.runs) invalid_argument "unknown run"
      capability ← capability_for ext r.catalog key claim.role
      refuse_if (not (capability.output_schema_digest == schema_digest)) invalid_argument
          "worker result schema digest mismatch"
      worker_result run activation owner r.catalog key result

    -- What a probe saw, and the error that it ended with.
    abbrev Probed : Type 0
    Probed = ReconcileOutcome × (Option Value × List DomainEvent)

    abbrev probed : ℕ → ℕ → WorkerProbe → Result Probed
    probed run activation (WorkerProbe.observed outcome output) = ok (outcome, (output, []))
    probed run activation (WorkerProbe.error code message) = do
      refuse_if (code == "" || message == "") invalid_argument
          "probe error requires code and message"
      ok (unknown, (none, reconciliation_failed run activation code message ∷ []))

    abbrev after_failure : List DomainEvent → Decision → Decision
    after_failure [] decision = decision
    after_failure (e ∷ es) decision = e ∷ decision

    unfoldable pub decide_reconcile_worker :
        ℕ → ℕ → ClaimRef → String → WorkerProbe → Result Decision
    decide_reconcile_worker run activation owner schema_digest result = do
      claim ←
          validate_claim_owner s run activation owner.session owner.generation owner.revision time
      refuse_if (not (claim.role == reconciliation)) invalid_argument
          "claim is not a reconciliation probe"
      claimed ←
          or_fail (activity_key ext s activation) invalid_argument "claimed reconciler unavailable"
      let key = claimed.0
      r ← or_fail (Map.get run s.runs) invalid_argument "unknown run"
      capability ← capability_for ext r.catalog key claim.role
      refuse_if (not (capability.output_schema_digest == schema_digest)) invalid_argument
          "worker probe schema digest mismatch"
      seen ← probed run activation result
      decision ← events_of (
          decide_reconcile ext s run activation owner.session owner.generation owner.revision seen.0
            seen.1.0 time ids)
      ok (after_failure seen.1.1 decision)

    unfoldable pub dispatch : Option (Result Bool) → CommandBody → Result Decision
    unfolding decide_report_worker decide_reconcile_worker
    dispatch tombstone CommandBody.prepare_writer_format =
        invalid "format policy requires ordered Raft apply"
    dispatch tombstone CommandBody.activate_writer_format =
        invalid "format policy requires ordered Raft apply"
    dispatch tombstone (CommandBody.authenticated principal body) =
        invalid "authenticated cause requires replicated apply"
    dispatch tombstone CommandBody.publication = invalid "publication requires replicated apply"
    dispatch tombstone CommandBody.prune_history = invalid "retention requires replicated apply"
    dispatch tombstone (CommandBody.start run definition input catalog) =
        decide_start_unless_suspended run definition input
    dispatch tombstone (CommandBody.report_leaf run activation output) =
        events_of (decide_report ext s run activation output time ids)
    dispatch tombstone (CommandBody.report_error run activation code message) =
        decide_report_error s run activation code message
    dispatch tombstone (CommandBody.resolve_blocked run forward input) =
        decide_resolve_blocked s run forward input
    dispatch tombstone (CommandBody.signal run event_id signal key payload) =
        decide_signal s tombstone run event_id signal key payload time
    dispatch tombstone (CommandBody.resolve_timer run wait) =
        events_of (decide_timer ext s run wait time ids)
    dispatch tombstone (CommandBody.progress run) = events_of (decide_progress ext run time s ids)
    dispatch tombstone (CommandBody.cancel run reason) =
        events_of (decide_cancel ext s run reason ids)
    dispatch tombstone (CommandBody.register_session session activities capacity) =
        decide_register s session activities capacity time
    dispatch tombstone (CommandBody.renew_local_session session) = decide_renew_local s session time
    dispatch tombstone
          (CommandBody.register_worker session principal capabilities capacity low high) =
        decide_register_worker s session principal capabilities capacity low high time
    dispatch tombstone (CommandBody.renew_worker_session session revision) =
        decide_renew_worker_session s session revision time
    dispatch tombstone (CommandBody.claim session capacity) =
        decide_claim_unless_suspended session capacity
    dispatch tombstone (CommandBody.renew session activation generation revision) =
        decide_renew s session activation generation revision time
    dispatch tombstone (CommandBody.report_assigned run activation output owner) = events_of (
        decide_report_assigned ext s run activation output owner.session owner.generation
          owner.revision time ids)
    dispatch tombstone (CommandBody.report_worker run activation owner digest result) =
        decide_report_worker run activation owner digest result
    dispatch tombstone (CommandBody.reconcile run activation owner outcome output) = events_of (
        decide_reconcile ext s run activation owner.session owner.generation owner.revision outcome
          output time ids)
    dispatch tombstone (CommandBody.reconcile_worker run activation owner digest result) =
        decide_reconcile_worker run activation owner digest result
    dispatch tombstone (CommandBody.acknowledge_recovery reason) =
        decide_acknowledge_recovery s reason
    dispatch tombstone (CommandBody.abandon_compensation run reason) =
        decide_abandon_compensation ext s run reason

  abbrev answered : Option (List DomainEvent) → Result Decision → Result Decision
  answered none decided = decided
  answered (some events) decided = ok events

  unfoldable pub decide : Machine → Option (Result Bool) → Command → Result Decision
  unfolding dispatch verify_command_identity
  decide m tombstone c = do
    verify_command_identity m.receipts c.id none c.id none
    answered (Map.get c.id m.receipts.commands)
        (dispatch m.state c.time (record { command = c.id; n = 0 }) tombstone c.body)
