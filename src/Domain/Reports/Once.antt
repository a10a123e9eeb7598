-- ===== src/Domain/Reports/Once.antt =====
-- graphrun/src/domain.rs: a result is taken from the owner of the claim, and once.
use graphrun.Prelude.{
  ℕ, String, ◌≡◌, ◌≢◌, refl, sym, ◌∙◌, true, false, Option, none, some, List, [], ◌∷◌, ◌++◌, ◌==◌,
  nat_eq, string_eq, arith, All, Option-cases, Bool-cases, inl, inr,
}
use mathlib.Core.Path.{subst}
use graphrun.Map
use graphrun.Error.{
  Result, ok, err, panic, or_fail, refuse_if, invalid_argument, failed_precondition, ◌>>=◌, ◌>>◌,
  >>=-eq-ok,
}
use graphrun.Value.{Value}
use graphrun.Ids.{ExecutionRole, forward, compensation, reconciliation, role_eq}
use graphrun.Ir.{Compensation}
use graphrun.Externals.{Externals, IdGen, next_id}
use graphrun.Domain.Event.{DomainEvent, leaf_succeeded, node_output_recorded}
use graphrun.Domain.State.{State, ActivationState, ClaimState}
use graphrun.Domain.Contract.{ActivityNode, activity_at}
use graphrun.Domain.Evolve.{apply_events}
use graphrun.Domain.Owners.{validate_claim_owner}
use graphrun.Domain.Claims.Fencing.{IsOwned, validate_claim_owner_exact}
use graphrun.Domain.Follow.{follow_next}
use graphrun.Domain.Follow.Shapes.{All-append, follow_next-All}
use graphrun.Domain.Ready.{run_is_aborting}
use graphrun.Domain.Eval.{eval_ctx, eval_binding}
use graphrun.Domain.Leaves.{
  compensated, validate_leaf_output, decide_compensation_result, compensation_events,
  obligation_events, registered, forward_ctx, report_forward, report_success,
}
use graphrun.Domain.Reports.{decide_report_assigned}
use graphrun.Domain.Reports.Kept.{
  HasSucceeded, Harmless, outputs, registers, blocks, opens, found_some, taken_kept,
}

module _ (activation : ℕ) where
  pub no_second :
      (ext : Externals) (t : State) (run : ℕ) (output : Value)
      (session generation revision time : ℕ) (ids : IdGen) (r : List DomainEvent × IdGen)
      → HasSucceeded activation t
      → decide_report_assigned ext t run activation output session generation revision time ids
        ≢ ok r
  unfolding decide_report_assigned
  no_second ext t run output session generation revision time ids r h e =
      let (claim, owned, e1) =
        >>=-eq-ok (validate_claim_owner t run activation session generation revision time) _ {b = r}
          e in
      let o =
        (validate_claim_owner_exact t run activation session generation revision time claim).0
          owned in
      ground (arith, h, o.found, o.awaited)

module _ (ext : Externals) (s : State) (run activation : ℕ) (output : Value) (ids : IdGen)
    (fresh : (next_id ext ids).0 ≢ activation) where
  events_same :
      {xs ys : List DomainEvent}
      → ok xs ≡ ok ys
      → All (Harmless activation) xs
      → All (Harmless activation) ys
  events_same {xs} {ys} e h = let same : xs ≡ ys = cc e in subst (All (Harmless activation)) same h

  registered-Harmless :
      (act : ActivationState) (handler : String) (version : ℕ) (bound : Result Value)
      (es : List DomainEvent)
      → registered ext act handler version bound ≡ ok es
      → All (Harmless activation) es
  registered-Harmless act handler version (ok value) es e =
      events_same e (registers act.run act.id handler version value, tt)
  registered-Harmless act handler version (err failure) es e =
      events_same e (blocks act.run act.id handler version failure.message, tt)
  registered-Harmless act handler version panic es e = cc e

  obligation-Harmless :
      (act : ActivationState) (node : ActivityNode) (how : Option Compensation)
      (es : List DomainEvent)
      → obligation_events ext s act node how output ≡ ok es
      → All (Harmless activation) es
  unfolding obligation_events
  obligation-Harmless act node none es e = events_same e tt
  obligation-Harmless act node (some (Compensation.irreversible reason)) es e =
      events_same e (blocks act.run act.id "irreversible" 1 reason, tt)
  obligation-Harmless act node (some (Compensation.activity key input timeout retry)) es e =
      elim (Option-cases (Map.get act.scope s.scopes)) [
        | inl missing ↦
            events_same {xs = []} {ys = es} (sym (rw (missing, obligation_events) refl) ∙ e) tt
        | inr (scope, found) ↦
            let bound : (eval_ctx ext s scope >>= λ ctx.
            registered ext act key.name key.version
              (eval_binding input (forward_ctx ext ctx node output)))
                ≡ ok es =
              sym (rw (found, obligation_events) refl) ∙ e in
            let (ctx, made, done) = >>=-eq-ok (eval_ctx ext s scope) _ {b = es} bound in
            registered-Harmless act key.name key.version
              (eval_binding input (forward_ctx ext ctx node output)) es done
      ]

  compensation-Harmless :
      (act : ActivationState) (es : List DomainEvent)
      → compensation_events ext s act output ≡ ok es
      → All (Harmless activation) es
  unfolding compensation_events
  compensation-Harmless act es e = elim (Option-cases (activity_at s act)) [
    | inl missing ↦
        events_same {xs = []} {ys = es} (sym (rw (missing, compensation_events) refl) ∙ e) tt
    | inr (node, found) ↦
        obligation-Harmless act node node.compensation es
          (sym (rw (found, compensation_events) refl) ∙ e)
  ]

  refused_probe :
      (claim : ClaimState) (r : List DomainEvent × IdGen)
      → (claim.role == reconciliation) ≡ true
      → (refuse_if
            (claim.role == reconciliation)
            failed_precondition
            "reconciliation claim must use reconcile"
          >> report_success ext s run activation output ids)
        ≢ ok r
  refused_probe claim r probe e = ground (arith, probe)

  -- What a result that is taken leads to.
  record IsTaken (events : List DomainEvent) : Type 0 where
    act : ActivationState
    role : ExecutionRole
    more : List DomainEvent
    found : Map.get activation s.activations ≡ some act
    valid : validate_leaf_output ext s act output ≡ ok tt
    events_are : events ≡ leaf_succeeded run activation 1 output role ∷ more
    harmless : All (Harmless activation) more

  forward_taken :
      (act : ActivationState) (r : List DomainEvent × IdGen)
      → report_forward ext s run activation act output ids ≡ ok r
      → (more : List DomainEvent) × (r.0 ≡ leaf_succeeded run activation 1 output forward ∷ more)
        × All (Harmless activation) more
  unfolding report_forward
  forward_taken act r e =
      let (owed, got, e1) = >>=-eq-ok (compensation_events ext s act output) _ {b = r} e in
      let tail = node_output_recorded run act.scope act.node output ∷ owed in
      let quiet : All (Harmless activation) tail =
        (outputs run act.scope act.node output, compensation-Harmless act owed got) in
      elim (Bool-cases (run_is_aborting s run)) [
        | inl aborting ↦
            let done : ok (leaf_succeeded run activation 1 output forward ∷ tail, ids) ≡ ok r =
              sym (rw (aborting) refl) ∙ e1 in
            (tail, cc done, quiet)
        | inr going ↦
            let further : (follow_next ext s act.scope act.node ids >>= λ x.
            ok (leaf_succeeded run activation 1 output forward ∷ tail ++ x.0, x.1))
                ≡ ok r =
              sym (rw (going) refl) ∙ e1 in
            let (x, went, done) =
              >>=-eq-ok (follow_next ext s act.scope act.node ids) _ {b = r} further in
            (
              tail ++ x.0,
              cc done,
              All-append (Harmless activation) tail x.0 quiet (
                  follow_next-All ext (Harmless activation) s ids
                    (λ run scope node. opens run scope (next_id ext ids).0 node fresh) act.scope
                    act.node x.1 x.0 went),
            )
      ]

  compensation_taken :
      (es : List DomainEvent)
      → decide_compensation_result s run activation output ≡ ok es
      → es ≡ leaf_succeeded run activation 1 output compensation ∷ []
  unfolding decide_compensation_result
  compensation_taken es e = elim (Option-cases (compensated s activation)) [
    | inl missing ↦ ground arith
    | inr (o, found) ↦ ground arith
  ]

  taken :
      (r : List DomainEvent × IdGen)
      → report_success ext s run activation output ids ≡ ok r
      → IsTaken r.0
  unfolding report_success
  taken r e =
      let (act, found, e1) =
        >>=-eq-ok (or_fail (Map.get activation s.activations) invalid_argument "unknown activation")
          _ {b = r} e in
      let (checked, valid, e2) = >>=-eq-ok (validate_leaf_output ext s act output) _ {b = r} e1 in
      let at_act : Map.get activation s.activations ≡ some act = found_some found in
      elim (Bool-cases (act.role == compensation)) [
        | inl undone ↦
            let (es, decided, done) =
              >>=-eq-ok (decide_compensation_result s run activation output) (λ es. ok (es, ids))
                {b = r} (sym (rw (undone) refl) ∙ e2) in
            record {
              act = act;
              role = compensation;
              more = [];
              found = at_act;
              valid = valid;
              events_are = cc (done, compensation_taken es decided);
              harmless = tt;
            }
        | inr ahead ↦
            let (more, shape, quiet) = forward_taken act r (sym (rw (ahead) refl) ∙ e2) in
            record {
              act = act;
              role = forward;
              more = more;
              found = at_act;
              valid = valid;
              events_are = shape;
              harmless = quiet;
            }
      ]

  -- What a report of a worker was let in for.
  pub record IsReport (session generation revision time : ℕ) (events : List DomainEvent)
      : Type 0 where
    pub claim : ClaimState
    pub act : ActivationState
    pub role : ExecutionRole
    pub more : List DomainEvent
    pub owned : IsOwned s run activation session generation revision time claim
    pub not_probe : (claim.role == reconciliation) ≡ false
    pub found : Map.get activation s.activations ≡ some act
    pub valid : validate_leaf_output ext s act output ≡ ok tt
    pub events_are : events ≡ leaf_succeeded run activation 1 output role ∷ more

  abbrev assigned : ℕ → ℕ → ℕ → ℕ → Result (List DomainEvent × IdGen)
  assigned session generation revision time =
      decide_report_assigned ext s run activation output session generation revision time ids

  assigned_report :
      (session generation revision time : ℕ) (r : List DomainEvent × IdGen)
      → assigned session generation revision time ≡ ok r
      → (claim : ClaimState) × IsOwned s run activation session generation revision time claim
        × ((claim.role == reconciliation) ≡ false)
        × (report_success ext s run activation output ids ≡ ok r)
  unfolding decide_report_assigned
  assigned_report session generation revision time r e =
      let (claim, owned, e1) =
        >>=-eq-ok (validate_claim_owner s run activation session generation revision time) _ {b = r}
          e in
      let o =
        (validate_claim_owner_exact s run activation session generation revision time claim).0
          owned in
      elim (Bool-cases (claim.role == reconciliation)) [
        | inl probe ↦ absurd (refused_probe claim r probe e1)
        | inr leaf ↦ (claim, o, leaf, sym (rw (leaf) refl) ∙ e1)
      ]

  -- Where the id made for the next activation is not the reported one: a worker's report that is
  -- taken comes from the owner of a claim that is no probe, with an output that is valid for the
  -- leaf, and begins with the leaf's success; once its events are applied, no worker's report on
  -- the activation is taken again, whatever it says and whenever it comes.
  pub decide_report_assigned_once :
      (session generation revision time : ℕ) (r second : List DomainEvent × IdGen) (t : State)
      (again : Value) (session2 generation2 revision2 time2 : ℕ) (ids2 : IdGen)
      → assigned session generation revision time ≡ ok r
      → apply_events s r.0 ≡ ok t
      → IsReport session generation revision time r.0
        × ¬ (
            decide_report_assigned ext t run activation again session2 generation2 revision2 time2
              ids2
            ≡ ok second)
  decide_report_assigned_once session generation revision time r second t again session2 generation2
        revision2 time2 ids2 e applied =
      let (claim, owned, leaf, success) = assigned_report session generation revision time r e in
      let h = taken r success in
      let moved : apply_events s (leaf_succeeded run activation 1 output h.role ∷ h.more) ≡ ok t =
        subst (λ es. apply_events s es ≡ ok t) h.events_are applied in
      (
        record {
          claim = claim;
          act = h.act;
          role = h.role;
          more = h.more;
          owned = owned;
          not_probe = leaf;
          found = h.found;
          valid = h.valid;
          events_are = h.events_are;
        },
        no_second activation ext t run again session2 generation2 revision2 time2 ids2 second
            (taken_kept activation s t run h.act output h.role h.more h.found h.harmless moved),
      )
