-- ===== src/Domain/Follow/Shapes.antt =====
-- graphrun/src/domain.rs: which events `fail_scope` and `follow_next` can lead to.
use graphrun.Prelude.{
  ℕ, String, ◌≡◌, Option, none, some, List, [], ◌∷◌, ◌++◌, map, nat_eq, arith, find, filter, leb,
  All, Option-cases, Bool-cases, inl, inr,
}
use mathlib.Core.Path.{subst}
use graphrun.Map
use graphrun.Error.{ok}
use graphrun.Ir.{FailError, node_of, next_of}
use graphrun.Domain.Region.{lookup_region}
use graphrun.Externals.{Externals, IdGen, next_id}
use graphrun.Domain.Event.{
  DomainEvent, activation_opened, reservation_released, wait_cancelled, scope_failed, run_failed,
}
use graphrun.Domain.State.{State, ScopeState, is_root}
use graphrun.Domain.Claims.{sort_by}
use graphrun.Domain.Follow.{
  open_node, open_next, follow_next, is_reserved_for, pending_in, has_failed, failure_events,
  close_each, close_pending_waits, fail_scope,
}

pub All-append {ℓ κ} :
    {A : Type ℓ} (P : A → Type κ) (xs ys : List A) → All P xs → All P ys → All P (xs ++ ys)
All-append P [] ys h k = k
All-append P (x ∷ xs) ys h k = (h.0, All-append P xs ys h.1 k)

-- A property of the events that close the waits of a run.
pub record OfClosing (P : DomainEvent → Type 0) : Type 0 where
  pub released : (wait event_id : ℕ) → P (reservation_released wait event_id)
  pub cancelled : (run wait : ℕ) → P (wait_cancelled run wait)

module _ (P : DomainEvent → Type 0) (h : OfClosing P) (s : State) where
  close_each-All : (run : ℕ) (waits : List ℕ) → All P (close_each s run waits)
  unfolding close_each
  close_each-All run [] = tt
  close_each-All run (wait ∷ waits) = elim (Option-cases (find (is_reserved_for wait) s.inbox)) [
    | inl free ↦ rw (free, close_each) (h.cancelled run wait, close_each-All run waits)
    | inr (e, held) ↦
        rw (held, close_each)
          (h.released wait e.event_id, (h.cancelled run wait, close_each-All run waits))
  ]

  pub close_pending_waits-All : (run : ℕ) → All P (close_pending_waits s run)
  unfolding close_pending_waits
  close_pending_waits-All run =
      close_each-All run
        (sort_by leb (map (λ w. w.id) (filter (pending_in run) (Map.values s.waits))))

-- A property of the events that end a scope.
pub record OfFailure (P : DomainEvent → Type 0) : Type 0 where
  pub closing : OfClosing P
  pub scope_fails : (run scope : ℕ) (error : FailError) → P (scope_failed run scope error)
  pub run_fails : (run : ℕ) (error : FailError) → P (run_failed run error)

module _ (P : DomainEvent → Type 0) (h : OfFailure P) (s : State) where
  failure_events-All :
      (c : ScopeState) (scope : ℕ) (error : FailError) → All P (failure_events s c scope error)
  failure_events-All c scope error = elim (Bool-cases (has_failed c.status)) [
    | inl already ↦ rw (already) tt
    | inr first ↦ elim (Bool-cases (is_root c.role)) [
      | inr inner ↦ rw (first, inner) (h.scope_fails c.run scope error, tt)
      | inl root ↦
          rw (first, root)
            (All-append P (close_pending_waits s c.run)
              (scope_failed c.run scope error ∷ run_failed c.run error ∷ [])
              (close_pending_waits-All P h.closing s c.run)
              (h.scope_fails c.run scope error, (h.run_fails c.run error, tt)))
    ]
  ]

  -- Whatever holds of the events that end a scope holds of those of a failing scope.
  pub fail_scope-All :
      (scope : ℕ) (error : FailError) (events : List DomainEvent)
      → fail_scope s scope error ≡ ok events
      → All P events
  unfolding fail_scope
  fail_scope-All scope error events e = elim (Option-cases (Map.get scope s.scopes)) [
    | inl missing ↦ ground arith
    | inr (c, found) ↦
        let same : failure_events s c scope error ≡ events = ground arith in
        subst (All P) same (failure_events-All c scope error)
  ]

module _ (ext : Externals) (P : DomainEvent → Type 0) (s : State) (ids : IdGen)
    (opens : (run scope : ℕ) (node : String)
      → P (activation_opened run scope (next_id ext ids).0 node)) where
  open_next-All :
      (scope : ℕ) (next : Option String) (rest : IdGen) (events : List DomainEvent)
      → open_next ext s scope next ids ≡ ok (events, rest)
      → All P events
  unfolding open_node
  open_next-All scope none rest events e = let same : [] ≡ events = cc e in subst (All P) same tt
  open_next-All scope (some next) rest events e = elim (Option-cases (Map.get scope s.scopes)) [
    | inl missing ↦ ground arith
    | inr (c, found) ↦
        let activation = (next_id ext ids).0 in
        let same : activation_opened c.run scope activation next ∷ [] ≡ events = ground arith in
        subst (All P) same (opens c.run scope next, tt)
  ]

  -- Whatever holds of an opened activation holds of the events that go on to the next node.
  pub follow_next-All :
      (scope : ℕ) (node : String) (rest : IdGen) (events : List DomainEvent)
      → follow_next ext s scope node ids ≡ ok (events, rest)
      → All P events
  unfolding follow_next
  follow_next-All scope node rest events e = elim (Option-cases (lookup_region s scope)) [
    | inl missing ↦ ground arith
    | inr (region, found) ↦ elim (Option-cases (node_of region node)) [
      | inl missing ↦ ground arith
      | inr (n, there) ↦ open_next-All scope (next_of n) rest events (ground arith)
    ]
  ]
