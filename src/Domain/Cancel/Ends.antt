-- ===== src/Domain/Cancel/Ends.antt =====
-- graphrun/src/domain.rs: a cancelled run without an open saga ends.
use graphrun.Prelude.{
  ℕ, String, ◌≡◌, refl, sym, ◌∙◌, true, false, not, ◌&&◌, ◌==◌, none, some, List, [], ◌∷◌, ◌++◌,
  nat_eq, string_eq, arith, ==_refl, All, Option-cases, inl, inr, find_holds,
}
use mathlib.Core.Path.{subst}
use graphrun.Map
use graphrun.Map.Laws.{get-modify}
use graphrun.Error.{ok, or_fail, refuse_if, >>=-eq-ok}
use graphrun.Ir.{FailError}
use graphrun.Externals.{Externals, IdGen}
use graphrun.Domain.Event.{
  DomainEvent, reservation_released, wait_cancelled, scope_failed, run_failed,
}
use graphrun.Domain.State.{
  State, RunState, RunStatus, ScopeState, ActivationStatus, is_active, is_root,
}
use graphrun.Domain.Evolve.{apply_events, evolve, event_owner}
use graphrun.Domain.Evolve.Waits.{end_wait, set_reservation}
use graphrun.Domain.Evolve.Scopes.{fail_run, fail_scope_state}
use graphrun.Domain.Follow.{fail_scope, failure_events, has_failed, close_pending_waits}
use graphrun.Domain.Follow.Shapes.{OfClosing, close_pending_waits-All}
use graphrun.Domain.Cancel.{
  root_of, is_root_of, open_sagas, cancel_open, decide_cancel, cancellation,
}

-- The event closes a wait.
data ClosesWait : DomainEvent → Type 0 where
  released : {wait event_id : ℕ} → ClosesWait (reservation_released wait event_id)
  cancelled : {run wait : ℕ} → ClosesWait (wait_cancelled run wait)

same_runs : (s u t : State) → ok u ≡ ok t → u.runs ≡ s.runs → t.runs ≡ s.runs
same_runs s u t e h = let same : u ≡ t = cc e in subst (λ x. x.runs ≡ s.runs) same h

end_wait-runs :
    (s : State) (wait : ℕ) (status : ActivationStatus) → (end_wait s wait status).runs ≡ s.runs
unfolding end_wait
end_wait-runs s wait status = elim (Option-cases (Map.get wait s.waits)) [
  | inl missing ↦ rw (end_wait, missing) refl
  | inr (w, found) ↦ rw (end_wait, found) refl
]

evolve-runs : (s t : State) (e : DomainEvent) → ClosesWait e → evolve s e ≡ ok t → t.runs ≡ s.runs
unfolding evolve set_reservation
evolve-runs s t e (released {wait} {event_id}) h =
    same_runs s (set_reservation s wait event_id none) t h refl
evolve-runs s t e (cancelled {run} {wait}) h =
    same_runs s (end_wait s wait ActivationStatus.failed) t h
      (end_wait-runs s wait ActivationStatus.failed)

-- The run is known and failed with the error.
pub record Ended (run : ℕ) (error : FailError) (t : State) : Type 0 where
  pub last : RunState
  pub known : Map.get run t.runs ≡ some last
  pub failed : last.status ≡ RunStatus.failed error

module _ (run : ℕ) (error : FailError) where
  fail_run-Ended :
      (s u t : State) (scope : ℕ) (r : RunState)
      → u.runs ≡ s.runs
      → Map.get run s.runs ≡ some r
      → apply_events u (scope_failed run scope error ∷ run_failed run error ∷ []) ≡ ok t
      → Ended run error t
  unfolding apply_events event_owner evolve fail_run fail_scope_state
  fail_run-Ended s u t scope r same known h =
      let f : RunState → RunState = λ x. record x { status = RunStatus.failed error } in
      let moved : fail_run (fail_scope_state u scope error) run error ≡ t = cc h in
      subst (Ended run error) moved (record {
        last = f r;
        known = rw (get-modify run run f u.runs, same, known, ==_refl run) refl;
        failed = refl;
      })

  closing-Ended :
      (s u t : State) (scope : ℕ) (r : RunState) (es : List DomainEvent)
      → All ClosesWait es
      → u.runs ≡ s.runs
      → Map.get run s.runs ≡ some r
      → apply_events u (es ++ scope_failed run scope error ∷ run_failed run error ∷ []) ≡ ok t
      → Ended run error t
  unfolding apply_events
  closing-Ended s u t scope r [] closes same known h = fail_run-Ended s u t scope r same known h
  closing-Ended s u t scope r (e ∷ es) closes same known h =
      let rest = es ++ scope_failed run scope error ∷ run_failed run error ∷ [] in
      let (owner, owned, h1) = >>=-eq-ok (event_owner u e) _ {b = t} h in
      let (v, evolved, h2) = >>=-eq-ok (evolve u e) _ {b = t} h1 in
      closing-Ended s v t scope r es closes.1 (evolve-runs u v e closes.0 evolved ∙ same) known h2

closing-ClosesWait : OfClosing ClosesWait
closing-ClosesWait = record {
  released = λ wait event_id. released;
  cancelled = λ run wait. cancelled;
}

-- The root scope of the run is known under its id and has not failed.
pub record HasOpenRoot (s : State) (run : ℕ) : Type 0 where
  pub root : ScopeState
  pub is_root_scope : root_of s run ≡ some root
  pub stored : Map.get root.id s.scopes ≡ some root
  pub runs_on : has_failed root.status ≡ false

module _ (ext : Externals) (s t : State) (run : ℕ) (reason : String) (ids : IdGen) where
  root_events :
      (h : HasOpenRoot s run) (error : FailError) (events : List DomainEvent)
      → fail_scope s h.root.id error ≡ ok events
      → events
        ≡ close_pending_waits s run ++ scope_failed run h.root.id error ∷ run_failed run error ∷ []
  unfolding fail_scope root_of
  root_events h error events e =
      let root = h.root in
      let found : (root.run == run && is_root root.role) ≡ true =
        find_holds (is_root_of run) (Map.values s.scopes) root h.is_root_scope in
      let of_run : root.run ≡ run = ground (arith, found) in
      let at_root : is_root root.role ≡ true = ground (arith, found) in
      let same : failure_events s root root.id error ≡ events = ground (arith, h.stored) in
      let ended : failure_events s root root.id error
          ≡ close_pending_waits s root.run
            ++ scope_failed root.run root.id error ∷ run_failed root.run error ∷ [] =
        rw (h.runs_on, at_root) refl in
      sym same
      ∙ subst
          (λ x.
            failure_events s root root.id error
            ≡ close_pending_waits s x ++ scope_failed x root.id error ∷ run_failed x error ∷ [])
          of_run ended

  cancelled_now :
      (r : RunState) (decision : List DomainEvent × IdGen)
      → Map.get run s.runs ≡ some r
      → HasOpenRoot s run
      → cancel_open ext s run [] (cancellation ext reason) ids ≡ ok decision
      → apply_events s decision.0 ≡ ok t
      → Ended run (cancellation ext reason) t
  unfolding cancel_open
  cancelled_now r decision known h e applied =
      let error = cancellation ext reason in
      let (root, found, e1) = >>=-eq-ok (or_fail (root_of s run) _ _) _ {b = decision} e in
      let (events, failed, e2) = >>=-eq-ok (fail_scope s root.id error) _ {b = decision} e1 in
      let at_root : root ≡ h.root = ground (arith, h.is_root_scope) in
      let events_are =
        root_events h error events
          (subst (λ x. fail_scope s x.id error ≡ ok events) at_root failed) in
      let same : (events, ids) ≡ decision = cc e2 in
      let ran : apply_events s events ≡ ok t =
        subst (λ x. apply_events s x.0 ≡ ok t) (sym same) applied in
      closing-Ended run error s s t h.root.id r (close_pending_waits s run)
        (close_pending_waits-All ClosesWait closing-ClosesWait s run) refl known
        (subst (λ x. apply_events s x ≡ ok t) events_are ran)

  -- Where a known run has no open saga, and its root scope is known under its id and has not
  -- failed: once the cancellation is decided and the decided events are applied, the run is known
  -- and failed with `run.cancelled` and the reason.
  pub decide_cancel-Ended :
      (r : RunState) (decision : List DomainEvent × IdGen)
      → Map.get run s.runs ≡ some r
      → open_sagas s run ≡ []
      → HasOpenRoot s run
      → decide_cancel ext s run reason ids ≡ ok decision
      → apply_events s decision.0 ≡ ok t
      → Ended run (cancellation ext reason) t
  unfolding decide_cancel cancel_open
  decide_cancel-Ended r decision known no_saga h e applied =
      let (r1, found, e1) = >>=-eq-ok (or_fail (Map.get run s.runs) _ _) _ {b = decision} e in
      let (passed, running, e2) =
        >>=-eq-ok (refuse_if (not (is_active r1.status)) _ _) _ {b = decision} e1 in
      let started : cancel_open ext s run [] (cancellation ext reason) ids ≡ ok decision =
        subst (λ x. cancel_open ext s run x (cancellation ext reason) ids ≡ ok decision) no_saga
          e2 in
      cancelled_now r decision known h started applied
