-- ===== src/Domain/Reports/Kept.antt =====
-- graphrun/src/domain.rs: an activation that has succeeded stays so under the events after it.
use graphrun.Prelude.{
  ℕ, String, ◌≡◌, ◌≢◌, true, Option, none, some, List, [], ◌∷◌, nat_eq, string_eq, arith, All,
  is_some_and, ==_refl,
}
use mathlib.Core.Path.{subst}
use graphrun.Map
use graphrun.Map.Laws.{get-modify, get-map_values, get-insert_ne, map_option}
use graphrun.Error.{ok, unwrap, or_fail, invalid_argument, >>=-eq-ok}
use graphrun.Value.{Value}
use graphrun.Ids.{ExecutionRole, role_eq}
use graphrun.Domain.Event.{
  DomainEvent, leaf_succeeded, node_output_recorded, obligation_registered, obligation_blocked,
  activation_opened,
}
use graphrun.Domain.State.{State, ActivationState, ActivationStatus, has_succeeded}
use graphrun.Domain.Evolve.{apply_events, evolve, event_owner}
use graphrun.Domain.Evolve.Scopes.{leaf_succeeds, record_output, finish_node, open_activation}
use graphrun.Domain.Evolve.Obligations.{register_obligation, block_obligation, put_obligation}

-- The activation has succeeded.
abbrev pub HasSucceeded : ℕ → State → Type 0
HasSucceeded activation s =
    is_some_and (Map.get activation s.activations) (λ act. has_succeeded act.status) ≡ true

-- An event after the result of an activation that leaves that activation alone.
pub data Harmless (activation : ℕ) : DomainEvent → Type 0 where
  outputs :
      (run scope : ℕ) (node : String) (output : Value)
      → Harmless activation (node_output_recorded run scope node output)
  registers :
      (run target : ℕ) (handler : String) (version : ℕ) (input : Value)
      → Harmless activation (obligation_registered run target handler version input)
  blocks :
      (run target : ℕ) (handler : String) (version : ℕ) (reason : String)
      → Harmless activation (obligation_blocked run target handler version reason)
  opens :
      (run scope opened : ℕ) (node : String)
      → opened ≢ activation
      → Harmless activation (activation_opened run scope opened node)

pub same_state : (P : State → Type 0) {s t : State} → ok s ≡ ok t → P s → P t
same_state P {s} {t} e h = let same : s ≡ t = cc e in subst P same h

pub found_some :
    {o : Option ActivationState} {act : ActivationState}
    → or_fail o invalid_argument "unknown activation" ≡ ok act
    → o ≡ some act
found_some {o = none} h = cc h
found_some {o = some x} h = cc h

finish_node_kept :
    (scope : ℕ) (node : String) (o : Option ActivationState)
    → is_some_and o (λ act. has_succeeded act.status) ≡ true
    → is_some_and (map_option (finish_node scope node) o) (λ act. has_succeeded act.status) ≡ true
finish_node_kept scope node none h = h
finish_node_kept scope node (some act) h = ground arith

module _ (activation : ℕ) where
  output_kept :
      (s : State) (scope : ℕ) (node : String) (output : Value)
      → HasSucceeded activation s
      → HasSucceeded activation (record_output s scope node output)
  unfolding record_output
  output_kept s scope node output h =
      rw (get-map_values activation (finish_node scope node) s.activations)
        (finish_node_kept scope node (Map.get activation s.activations) h)

  opened_kept :
      (s t : State) (run scope other : ℕ) (node : String)
      → other ≢ activation
      → HasSucceeded activation s
      → open_activation s run scope other node ≡ ok t
      → HasSucceeded activation t
  unfolding open_activation
  opened_kept s t run scope other node differ h e =
      let (r, found, done) = >>=-eq-ok (unwrap (Map.get run s.runs)) _ {b = t} e in
      same_state (HasSucceeded activation) done
        (rw (get-insert_ne other activation _ s.activations differ) h)

  Harmless-kept :
      (s t : State) (e : DomainEvent)
      → Harmless activation e
      → HasSucceeded activation s
      → evolve s e ≡ ok t
      → HasSucceeded activation t
  unfolding evolve
  Harmless-kept s t e (outputs run scope node output) h moved =
      same_state (HasSucceeded activation) moved (output_kept s scope node output h)
  Harmless-kept s t e (registers run target handler version input) h moved =
      same_state (HasSucceeded activation) moved (unfold register_obligation put_obligation in h)
  Harmless-kept s t e (blocks run target handler version reason) h moved =
      same_state (HasSucceeded activation) moved (unfold block_obligation put_obligation in h)
  Harmless-kept s t e (opens run scope opened node differ) h moved =
      opened_kept s t run scope opened node differ h moved

  succeeded_now :
      (s : State) (act : ActivationState) (role : ExecutionRole)
      → Map.get activation s.activations ≡ some act
      → HasSucceeded activation (leaf_succeeds s activation role)
  unfolding leaf_succeeds
  succeeded_now s act role found = ground (
    arith,
    found,
    ==_refl activation,
    get-modify activation activation (λ a. record a { status = ActivationStatus.succeeded })
        s.activations,
  )

  events_kept :
      (s t : State) (es : List DomainEvent)
      → All (Harmless activation) es
      → HasSucceeded activation s
      → apply_events s es ≡ ok t
      → HasSucceeded activation t
  unfolding apply_events
  events_kept s t [] q h e = same_state (HasSucceeded activation) e h
  events_kept s t (x ∷ xs) q h e =
      let (owner, owned, e1) = >>=-eq-ok (event_owner s x) _ {b = t} e in
      let (u, moved, e2) = >>=-eq-ok (evolve s x) _ {b = t} e1 in
      events_kept u t xs q.1 (Harmless-kept s u x q.0 h moved) e2

  pub taken_kept :
      (s t : State) (run : ℕ) (act : ActivationState) (output : Value) (role : ExecutionRole)
      (es : List DomainEvent)
      → Map.get activation s.activations ≡ some act
      → All (Harmless activation) es
      → apply_events s (leaf_succeeded run activation 1 output role ∷ es) ≡ ok t
      → HasSucceeded activation t
  unfolding apply_events event_owner evolve leaf_succeeds
  taken_kept s t run act output role es found q e =
      events_kept (leaf_succeeds s activation role) t es q (succeeded_now s act role found) e
  -- Nobody reports on an activation that has succeeded.
