-- ===== src/Domain/Claims/Fencing.antt =====
-- graphrun/src/domain.rs: `validate_claim_owner` and `decide_renew` fence off stale claims.
use graphrun.Prelude.{
  ◌^◌, ℕ, ◌+◌, ◌-◌, ◌≤◌, ◌<◌, ◌≡◌, refl, true, some, List, [], ◌∷◌, nat_eq, arith, Option-cases,
  inl, inr, ◌↔◌,
}
use mathlib.Core.Path.{subst}
use graphrun.Map
use graphrun.Map.Laws.{get-modify}
use graphrun.Error.{ok}
use graphrun.Ids.{next}
use graphrun.Domain.Event.{DomainEvent, claim_renewed}
use graphrun.Domain.State.{State, ActivationState, ClaimState, WorkerSession, is_ready}
use graphrun.Domain.Sessions.{lease_from}
use graphrun.Domain.Evolve.{apply_events, evolve, event_owner}
use graphrun.Domain.Evolve.Claims.{renew_claim, on_claim}
use graphrun.Domain.Owners.{decide_renew, validate_claim_owner}

-- The claim stands, names this session, generation and revision, and neither it nor its session
-- has run out.
pub record IsOwned (s : State) (run activation session generation revision time : ℕ)
    (claim : ClaimState) : Type 0 where
  pub act : ActivationState
  pub worker : WorkerSession
  pub found : Map.get activation s.activations ≡ some act
  pub in_run : act.run ≡ run
  pub awaited : is_ready act.status ≡ true
  pub claimed : act.claim ≡ some claim
  pub holder : claim.session ≡ session
  pub same_generation : claim.generation ≡ generation
  pub same_revision : claim.revision ≡ revision
  pub known : Map.get session s.sessions ≡ some worker
  pub session_live : time < worker.expires_ms
  pub lease_live : time < claim.lease_expiry_ms
  pub attempt_live : time < claim.attempt_deadline_ms

module _ (s : State) (run activation session generation revision time : ℕ) where
  owner_sound :
      (claim : ClaimState)
      → validate_claim_owner s run activation session generation revision time ≡ ok claim
      → IsOwned s run activation session generation revision time claim
  unfolding validate_claim_owner
  owner_sound claim e = elim (Option-cases (Map.get activation s.activations)) [
    | inl missing ↦ ground arith
    | inr (act, found) ↦ elim (Option-cases (Map.get session s.sessions)) [
      | inl unknown ↦ ground arith
      | inr (worker, known) ↦ record {
        act = act;
        worker = worker;
        found = found;
        in_run = ground arith;
        awaited = ground arith;
        claimed = ground arith;
        holder = ground arith;
        same_generation = ground arith;
        same_revision = ground arith;
        known = known;
        session_live = ground arith;
        lease_live = ground arith;
        attempt_live = ground arith;
      }
    ]
  ]

  owner_complete :
      (claim : ClaimState)
      → IsOwned s run activation session generation revision time claim
      → validate_claim_owner s run activation session generation revision time ≡ ok claim
  unfolding validate_claim_owner
  owner_complete claim h = ground (
    arith, h.found, h.in_run, h.awaited, h.claimed, h.holder, h.same_generation, h.same_revision,
    h.known, h.session_live, h.lease_live, h.attempt_live,
  )

  -- A report is let through exactly when its reporter owns the claim: the activation is of the run
  -- and awaits a result, the claim on it has the session, generation and revision of the report,
  -- and the session, the lease and the attempt have not run out.
  pub validate_claim_owner_exact :
      (claim : ClaimState)
      → (validate_claim_owner s run activation session generation revision time ≡ ok claim)
        ↔ IsOwned s run activation session generation revision time claim
  validate_claim_owner_exact claim = (owner_sound claim, owner_complete claim)

-- What a renewal of a claim needs.
pub record IsRenewable (s : State) (session activation generation revision time : ℕ) : Type 0 where
  pub act : ActivationState
  pub worker : WorkerSession
  pub claim : ClaimState
  pub known : Map.get session s.sessions ≡ some worker
  pub session_live : time < worker.expires_ms
  pub found : Map.get activation s.activations ≡ some act
  pub claimed : act.claim ≡ some claim
  pub holder : claim.session ≡ session
  pub same_generation : claim.generation ≡ generation
  pub same_revision : claim.revision ≡ revision
  pub lease_live : time < claim.lease_expiry_ms
  pub attempt_live : time < claim.attempt_deadline_ms

module _ (s : State) (session activation generation revision time : ℕ) where
  renewable :
      (events : List DomainEvent)
      → decide_renew s session activation generation revision time ≡ ok events
      → IsRenewable s session activation generation revision time
        × (events
            ≡ claim_renewed activation session generation (next revision) (lease_from time) ∷ [])
  unfolding decide_renew
  renewable events e = elim (Option-cases (Map.get session s.sessions)) [
    | inl unknown ↦ ground arith
    | inr (worker, known) ↦ elim (Option-cases (Map.get activation s.activations)) [
      | inl missing ↦ ground arith
      | inr (act, found) ↦ elim (Option-cases act.claim) [
        | inl free ↦ ground arith
        | inr (claim, claimed) ↦ (
          record {
            act = act;
            worker = worker;
            claim = claim;
            known = known;
            session_live = ground arith;
            found = found;
            claimed = claimed;
            holder = ground arith;
            same_generation = ground arith;
            same_revision = ground arith;
            lease_live = ground arith;
            attempt_live = ground arith;
          },
          ground arith,
        )
      ]
    ]
  ]

  abbrev releases : ActivationState → ActivationState
  releases =
      on_claim (λ c. record c { revision = next revision; lease_expiry_ms = lease_from time })

  renew-apply :
      (act : ActivationState)
      → Map.get activation s.activations ≡ some act
      → apply_events s
          (claim_renewed activation session generation (next revision) (lease_from time) ∷ [])
        ≡ ok (renew_claim s activation (next revision) (lease_from time))
  unfolding apply_events event_owner evolve
  renew-apply act found = rw (found) refl

  abbrev after : State
  after = renew_claim s activation (next revision) (lease_from time)

  renewed-claim :
      (act : ActivationState)
      → Map.get activation s.activations ≡ some act
      → Map.get activation after.activations ≡ some (releases act)
  unfolding renew_claim
  renewed-claim act found =
      ground (arith, found, get-modify activation activation releases s.activations)

  -- Where the activation is of the run and awaits a result, and the new lease fits a 64-bit word: a
  -- renewal that is decided applies, and its holder then owns the claim under the next revision,
  -- with a lease of thirty seconds from the time of the decision.
  pub decide_renew-IsOwned :
      (events : List DomainEvent) (run : ℕ) (act : ActivationState)
      → time + 30000 ≤ 2 ^ 64 - 1
      → Map.get activation s.activations ≡ some act
      → act.run ≡ run
      → is_ready act.status ≡ true
      → decide_renew s session activation generation revision time ≡ ok events
      → (t : State) × (claim : ClaimState) × (apply_events s events ≡ ok t)
        × IsOwned t run activation session generation (next revision) time claim
        × (claim.lease_expiry_ms ≡ time + 30000)
  decide_renew-IsOwned events run act early found of_run waiting e =
      let (h, shape) = renewable events e in
      let same : h.act ≡ act = cc (h.found, found) in
      let claimed : act.claim ≡ some h.claim = cc (h.claimed, same) in
      let claim : ClaimState = record h.claim {
        revision = next revision;
        lease_expiry_ms = lease_from time;
      } in
      (
        after,
        claim,
        cc (shape, renew-apply act found),
        record {
          act = releases act;
          worker = h.worker;
          found = renewed-claim act found;
          in_run = of_run;
          awaited = waiting;
          claimed = rw (claimed) refl;
          holder = h.holder;
          same_generation = h.same_generation;
          same_revision = refl;
          known = unfold renew_claim in h.known;
          session_live = h.session_live;
          lease_live = omega arith;
          attempt_live = h.attempt_live;
        },
        omega arith,
      )

  -- Once a renewal is applied, a report with the revision before it is let through at no time. The
  -- revision is below the largest 64-bit word, where the next one would be the same.
  pub decide_renew-fences :
      (events : List DomainEvent) (t : State) (run later : ℕ) (claim : ClaimState)
      → revision < 2 ^ 64 - 1
      → decide_renew s session activation generation revision time ≡ ok events
      → apply_events s events ≡ ok t
      → ¬ (validate_claim_owner t run activation session generation revision later ≡ ok claim)
  decide_renew-fences events t run later claim small e applied owned =
      let (h, shape) = renewable events e in
      let same : t ≡ after = cc (shape, renew-apply h.act h.found, applied) in
      let o =
        (validate_claim_owner_exact after run activation session generation revision later claim).0
          (subst
            (λ x.
              validate_claim_owner x run activation session generation revision later ≡ ok claim)
            same owned) in
      let kept : o.act ≡ releases h.act = cc (o.found, renewed-claim h.act h.found) in
      let there : h.act.claim ≡ some h.claim = h.claimed in
      let moved : claim.revision ≡ next revision = ground (arith, kept, o.claimed, there) in
      let wrong : next revision ≡ revision = cc (moved, o.same_revision) in
      omega (arith, small, wrong)
