-- ===== src/Domain/Cancel/Abandoned.antt =====
-- graphrun/src/domain.rs: what an abandonment leaves to compensate, once it is applied.
use graphrun.Prelude.{
  ℕ, String, ◌≡◌, refl, sym, ap, ◌∙◌, Bool, true, false, ◌&&◌, ◌==◌, Option, none, some, List, [],
  ◌∷◌, map, filter, contains, nat_eq, string_eq, arith, ==_refl, All, Option-cases, Bool-cases, inl,
  inr, if◌then◌else◌,
}
use mathlib.Core.Path.{subst}
use graphrun.Map
use graphrun.Error.{ok, refuse_if, >>=-eq-ok}
use graphrun.Ir.{FailError}
use graphrun.Externals.{Externals}
use graphrun.Domain.Event.{
  DomainEvent, reservation_released, wait_cancelled, scope_failed, run_failed,
  compensation_abandoned,
}
use graphrun.Domain.State.{State, RunState, ScopeState, ActivationStatus, Obligation, is_active}
use graphrun.Domain.Evolve.{apply_events, evolve, event_owner}
use graphrun.Domain.Evolve.Waits.{end_wait, set_reservation}
use graphrun.Domain.Evolve.Scopes.{fail_run, fail_scope_state}
use graphrun.Domain.Evolve.Obligations.{abandon_each, abandon_compensation}
use graphrun.Domain.Follow.Shapes.{OfFailure, fail_scope-All}
use graphrun.Domain.Cancel.{
  is_unresolved, unresolved_of, decide_abandon_compensation, abandon, abandonment, fail_root,
  is_abandoned, root_of, no_ids,
}

abbrev is_owed : ℕ → Obligation → Bool
is_owed run o = o.run == run && is_unresolved o.status

-- The obligations of a run, in their order.
abbrev pub obligations_of : ℕ → List Obligation → List Obligation
obligations_of run os = filter (λ o. o.run == run) os

-- The event leaves the obligations as they are.
pub data KeepsObligations : DomainEvent → Type 0 where
  released : {wait event_id : ℕ} → KeepsObligations (reservation_released wait event_id)
  cancelled : {run wait : ℕ} → KeepsObligations (wait_cancelled run wait)
  scope_fails :
      {run scope : ℕ} {error : FailError} → KeepsObligations (scope_failed run scope error)
  run_fails : {run : ℕ} {error : FailError} → KeepsObligations (run_failed run error)

failure-KeepsObligations : OfFailure KeepsObligations
failure-KeepsObligations = record {
  closing = record { released = λ wait event_id. released; cancelled = λ run wait. cancelled };
  scope_fails = λ run scope error. scope_fails;
  run_fails = λ run error. run_fails;
}

end_wait-obligations :
    (s : State) (wait : ℕ) (status : ActivationStatus)
    → (end_wait s wait status).obligations ≡ s.obligations
unfolding end_wait
end_wait-obligations s wait status = elim (Option-cases (Map.get wait s.waits)) [
  | inl missing ↦ rw (end_wait, missing) refl
  | inr (w, found) ↦ rw (end_wait, found) refl
]

same_obligations :
    (s u t : State) → ok u ≡ ok t → u.obligations ≡ s.obligations → t.obligations ≡ s.obligations
same_obligations s u t e h =
    let same : u ≡ t = cc e in subst (λ x. x.obligations ≡ s.obligations) same h

evolve-obligations :
    (s t : State) (e : DomainEvent)
    → KeepsObligations e
    → evolve s e ≡ ok t
    → t.obligations ≡ s.obligations
unfolding evolve fail_run fail_scope_state set_reservation
evolve-obligations s t e (released {wait} {event_id}) h =
    same_obligations s (set_reservation s wait event_id none) t h refl
evolve-obligations s t e (cancelled {run} {wait}) h =
    same_obligations s (end_wait s wait ActivationStatus.failed) t h
      (end_wait-obligations s wait ActivationStatus.failed)
evolve-obligations s t e (scope_fails {run} {scope} {error}) h =
    same_obligations s (fail_scope_state s scope error) t h refl
evolve-obligations s t e (run_fails {run} {error}) h =
    same_obligations s (fail_run s run error) t h refl

apply-obligations :
    (s t : State) (es : List DomainEvent)
    → All KeepsObligations es
    → apply_events s es ≡ ok t
    → t.obligations ≡ s.obligations
unfolding apply_events
apply-obligations s t [] keep h = let same : s ≡ t = cc h in ap (λ x. x.obligations) (sym same)
apply-obligations s t (e ∷ es) keep h =
    let (owner, owned, h1) = >>=-eq-ok (event_owner s e) _ {b = t} h in
    let (u, evolved, h2) = >>=-eq-ok (evolve s e) _ {b = t} h1 in
    apply-obligations u t es keep.1 h2 ∙ evolve-obligations s u e keep.0 evolved

module _ (run : ℕ) (unresolved : List ℕ) where
  abbrev due_in : List Obligation → List ℕ
  due_in os = map (λ o. o.forward) (filter (is_owed run) os)

  due_later :
      (o : Obligation) (os : List Obligation) (k : ℕ)
      → contains (due_in os) k ≡ true
      → contains (due_in (o ∷ os)) k ≡ true
  unfolding filter contains
  due_later o os k h = ground (arith, h)

  due_first :
      (o : Obligation) (os : List Obligation)
      → is_owed run o ≡ true
      → contains (due_in (o ∷ os)) o.forward ≡ true
  unfolding filter contains
  due_first o os due = rw (due, filter, ==_refl o.forward) refl

  none_due :
      (os : List Obligation)
      → ((k : ℕ) → contains (due_in os) k ≡ true → contains unresolved k ≡ true)
      → filter (is_owed run) (abandon_each run unresolved os) ≡ []
  unfolding abandon_each filter contains
  none_due [] covers = refl
  none_due (o ∷ os) covers =
      let rest = none_due os (λ k h. covers k (due_later o os k h)) in
      elim (Bool-cases (o.run == run)) [
        | inr other ↦ rw (other, other, filter, rest) refl
        | inl of_run ↦ elim (Bool-cases (is_unresolved o.status)) [
          | inl due ↦
              let both : is_owed run o ≡ true = rw (of_run, due) refl in
              let covered = covers o.forward (due_first o os both) in
              rw (of_run, covered, filter, of_run, rest) refl
          | inr settled ↦ ground (arith, rest)
        ]
      ]

  others_kept :
      (other : ℕ) (os : List Obligation)
      → (run == other) ≡ false
      → obligations_of other (abandon_each run unresolved os) ≡ obligations_of other os
  unfolding abandon_each filter
  others_kept other [] differ = refl
  others_kept other (o ∷ os) differ = ground (arith, others_kept other os differ)

-- After the abandonment is applied, the run owes nothing, and the others owe what they owed.
pub record IsAbandoned (run : ℕ) (s t : State) : Type 0 where
  pub owes_nothing : unresolved_of t run ≡ []
  pub others :
      (other : ℕ)
      → (run == other) ≡ false
      → obligations_of other t.obligations ≡ obligations_of other s.obligations

module _ (ext : Externals) (s t : State) (run : ℕ) (reason : String) where
  closing-KeepsObligations :
      (root : Option ScopeState) (error : FailError) (events : List DomainEvent)
      → fail_root ext s error root ≡ ok events
      → All KeepsObligations events
  closing-KeepsObligations none error events e =
      let same : [] ≡ events = cc e in subst (All KeepsObligations) same tt
  closing-KeepsObligations (some root) error events e =
      fail_scope-All KeepsObligations failure-KeepsObligations s root.id error events e

  applied :
      (events : List DomainEvent)
      → All KeepsObligations events
      → apply_events s (compensation_abandoned run reason (unresolved_of s run) ∷ events) ≡ ok t
      → IsAbandoned run s t
  unfolding apply_events event_owner evolve abandon_compensation unresolved_of
  applied events keep h =
      let kept =
        apply-obligations (abandon_compensation s run (unresolved_of s run)) t events keep h in
      let none_left = none_due run (unresolved_of s run) s.obligations (λ k found. found) in
      record {
        owes_nothing =
            subst (λ os. map (λ o. o.forward) (filter (is_owed run) os) ≡ []) (sym kept)
              (ap (map (λ o. o.forward)) none_left);
        others = λ other differ.
            ap (obligations_of other) kept
            ∙ others_kept run (unresolved_of s run) other s.obligations differ;
      }

  root_closes :
      (r : RunState) (error : FailError) (events : List DomainEvent)
      → (if is_active r.status then fail_root ext s error (root_of s run) else ok []) ≡ ok events
      → All KeepsObligations events
  root_closes r error events e = elim (Bool-cases (is_active r.status)) [
    | inl running ↦ closing-KeepsObligations (root_of s run) error events (ground arith)
    | inr ended ↦ closing-KeepsObligations none error events (ground arith)
  ]

  abandoned_now :
      (r : RunState) (events : List DomainEvent)
      → abandon ext s r run reason ≡ ok events
      → apply_events s events ≡ ok t
      → IsAbandoned run s t
  unfolding abandon
  abandoned_now r events e h =
      let (passed, some_left, e1) =
        >>=-eq-ok (refuse_if (no_ids ext (unresolved_of s run)) _ _) _ {b = events} e in
      let (closing, closed, done) =
        >>=-eq-ok
          (if is_active r.status
            then fail_root ext s (abandonment ext (unresolved_of s run)) (root_of s run)
            else ok [])
          _ {b = events} e1 in
      let same : compensation_abandoned run reason (unresolved_of s run) ∷ closing ≡ events =
        cc done in
      applied closing (root_closes r (abandonment ext (unresolved_of s run)) closing closed)
        (subst (λ es. apply_events s es ≡ ok t) (sym same) h)

  -- Where the known run was not failed by an abandonment before: once the abandonment of its
  -- compensations is decided and the decided events are applied, the run has no obligation left
  -- that is unresolved, and every other run has the obligations that it had.
  pub decide_abandon_compensation-IsAbandoned :
      (r : RunState) (events : List DomainEvent)
      → Map.get run s.runs ≡ some r
      → is_abandoned r.status ≡ false
      → decide_abandon_compensation ext s run reason ≡ ok events
      → apply_events s events ≡ ok t
      → IsAbandoned run s t
  unfolding decide_abandon_compensation abandon
  decide_abandon_compensation-IsAbandoned r events found first e h =
      let decided : abandon ext s r run reason ≡ ok events = ground arith in
      abandoned_now r events decided h
