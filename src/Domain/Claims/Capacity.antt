-- ===== src/Domain/Claims/Capacity.antt =====
-- graphrun/src/domain.rs: what applying the events of `decide_claim` does to the claims.
use graphrun.Prelude.{
  ap, max, ℕ, ◌+◌, ◌≤◌, ◌≡◌, refl, Bool, false, some, List, [], ◌∷◌, ◌++◌, map, ◌==◌, nat_eq, arith,
  string_eq, length, filter, All, if◌then◌else◌, ◌∙◌, nat_beq_iff, Bool-cases, inl, inr,
}
use graphrun.Map
use graphrun.Map.Laws.{get-modify}
use graphrun.Error.{ok}
use graphrun.Externals.{Externals}
use graphrun.Domain.Sessions.{lease_from}
use graphrun.Domain.Event.{DomainEvent, Grant, claim_granted}
use graphrun.Domain.State.{State, WorkerSession}
use graphrun.Domain.Ready.{is_unclaimed, worker_in_flight, has_live_claim}
use graphrun.Domain.Evolve.{apply_events, evolve, event_owner}
use graphrun.Domain.Evolve.Claims.{grant_claim, granted, register_session}
use graphrun.Domain.Claims.{decide_claim, claim_cap, own_renewal}
use graphrun.Domain.Claims.Limits.{IsClaimBatch, IsGrantTo, decide_claim-IsClaimBatch}

length-filter-modify {ℓ} :
    {V : Type ℓ} (p : V → Bool) (k : ℕ) (f : V → V) (m : Map.Map ℕ V)
    → length (filter p (Map.values (Map.modify k f m))) ≤ length (filter p (Map.values m)) + 1
unfolding filter Map.values Map.modify
length-filter-modify p k f [] = omega arith
length-filter-modify p k f ((j, v) ∷ m) = ground (arith, length-filter-modify p k f m)

-- A further grant adds at most one claim in flight.
grant_in_flight :
    (s : State) (g : Grant) (session time : ℕ)
    → worker_in_flight (grant_claim s g) session time ≤ worker_in_flight s session time + 1
unfolding worker_in_flight grant_claim
grant_in_flight s g session time =
    length-filter-modify (has_live_claim session time) g.activation (granted g) s.activations

-- The state after a list of grants.
unfoldable pub grant_all : State → List Grant → State
grant_all s [] = s
grant_all s (g ∷ gs) = grant_all (grant_claim s g) gs

apply-grants :
    (s : State) (gs : List Grant) → apply_events s (map claim_granted gs) ≡ ok (grant_all s gs)
unfolding apply_events event_owner evolve grant_all
apply-grants s [] = refl
apply-grants s (g ∷ gs) = apply-grants (grant_claim s g) gs

grants_in_flight :
    (s : State) (gs : List Grant) (session time : ℕ)
    → worker_in_flight (grant_all s gs) session time ≤ worker_in_flight s session time + length gs
unfolding grant_all
grants_in_flight s [] session time = omega arith
grants_in_flight s (g ∷ gs) session time =
    omega
      (arith, grants_in_flight (grant_claim s g) gs session time, grant_in_flight s g session time)

untouched :
    (s : State) (gs : List Grant) (a : ℕ)
    → All (λ g. (g.activation == a) ≡ false) gs
    → Map.get a (grant_all s gs).activations ≡ Map.get a s.activations
unfolding grant_all grant_claim
untouched s [] a h = refl
untouched s (g ∷ gs) a h =
    untouched (grant_claim s g) gs a h.1
    ∙ (get-modify g.activation a (granted g) s.activations ∙ rw (h.0) refl)

-- The state after a session's own renewal.
abbrev pub renewed : State → WorkerSession → ℕ → ℕ → State
renewed s worker session time =
    if worker.principal_id == ""
    then register_session s session worker.activities worker.capacity (lease_from time)
    else s

module _ (ext : Externals) (s : State) (worker : WorkerSession) (session time : ℕ) where
  pub apply-claim :
      (gs : List Grant)
      → apply_events s (own_renewal ext worker session time ++ map claim_granted gs)
        ≡ ok (grant_all (renewed s worker session time) gs)
  unfolding apply_events event_owner evolve
  apply-claim gs = elim (Bool-cases (worker.principal_id == "")) [
    | inl local ↦ rw (local) (
        apply-grants
          (register_session s session worker.activities worker.capacity (lease_from time)) gs)
    | inr remote ↦ rw (remote) (apply-grants s gs)
  ]

  renewed-activations : (renewed s worker session time).activations ≡ s.activations
  unfolding register_session
  renewed-activations = ground arith

not_itself :
    (s : State) (session time a : ℕ) (gs : List Grant)
    → is_unclaimed s time a ≡ false
    → All (IsGrantTo s session time) gs
    → All (λ g. (g.activation == a) ≡ false) gs
not_itself s session time a [] held each = tt
not_itself s session time a (g ∷ gs) held each = (
  elim (Bool-cases (g.activation == a)) [
    | inl same ↦
        let e : g.activation ≡ a = (nat_beq_iff g.activation a).0 same in cc (each.0.free, held, e)
    | inr other ↦ other
  ],
  not_itself s session time a gs held each.1,
)

-- A session holds at most as many further claims as it asked for, and no more claims than its
-- capacity unless it already held more.
pub record IsWithin (s : State) (session capacity time : ℕ) (t : State) : Type 0 where
  pub worker : WorkerSession
  pub known : Map.get session s.sessions ≡ some worker
  pub asked : worker_in_flight t session time ≤ worker_in_flight s session time + capacity
  pub room : worker_in_flight t session time ≤ max worker.capacity (worker_in_flight s session time)

module _ (ext : Externals) (s : State) (session capacity time : ℕ) (events : List DomainEvent)
    (e : decide_claim ext s session capacity time ≡ ok events) where
  abbrev batch : IsClaimBatch ext s session time capacity events
  batch = decide_claim-IsClaimBatch ext s session time capacity events e

  abbrev start : State
  start = renewed s batch.worker session time

  start-activations : start.activations ≡ s.activations
  start-activations = renewed-activations ext s batch.worker session time

  claims_apply : apply_events s events ≡ ok (grant_all start batch.grants)
  claims_apply = cc (batch.events_are, apply-claim ext s batch.worker session time batch.grants)

  -- The events of a decided claim apply, and then the session holds at most as many further claims
  -- as it asked for, and no more claims than its capacity unless it already held more.
  pub decide_claim-IsWithin :
      (t : State) × (apply_events s events ≡ ok t) × IsWithin s session capacity time t
  decide_claim-IsWithin =
      let flight : worker_in_flight start session time ≡ worker_in_flight s session time =
        unfold worker_in_flight in rw (start-activations) refl in
      let grown = grants_in_flight start batch.grants session time in
      let within : length batch.grants ≤ claim_cap ext s batch.worker session capacity time =
        batch.batch.within in
      (
        grant_all start batch.grants,
        claims_apply,
        record {
          worker = batch.worker;
          known = batch.known;
          asked = omega (arith, grown, flight, within);
          room = omega (arith, grown, flight, within);
        },
      )

  -- The events of a decided claim apply, and leave as it was every activation that, at the time of
  -- the decision, has a claim with a running lease, awaits an operator, or is not there.
  pub decide_claim-steals_nothing :
      (a : ℕ)
      → is_unclaimed s time a ≡ false
      → (t : State) × (apply_events s events ≡ ok t)
        × (Map.get a t.activations ≡ Map.get a s.activations)
  decide_claim-steals_nothing a held = (
    grant_all start batch.grants,
    claims_apply,
    untouched start batch.grants a (not_itself s session time a batch.grants held batch.batch.each)
        ∙ ap (Map.get a) start-activations,
  )
