-- ===== src/Domain/Claims/Superseded.antt =====
-- graphrun/src/domain.rs: a claim that was replaced stays fenced off, whatever happens next.
use graphrun.Prelude.{
  ℕ, ◌+◌, ◌-◌, ◌^◌, ◌≤◌, ◌<◌, ◌≡◌, refl, Bool, true, Option, none, some, List, [], ◌∷◌, leb, ltb,
  ◌==◌, nat_eq, string_eq, arith, nat_beq_iff, Bool-cases, Option-cases, inl, inr, saturating_add,
}
use mathlib.Core.Path.{subst}
use mathlib.Core.Logic.{◌⊎◌}
use graphrun.Map
use graphrun.Map.Laws.{get-modify}
use graphrun.Error.{ok}
use graphrun.Externals.{Externals}
use graphrun.Domain.Event.{DomainEvent, Grant, claim_granted, session_registered}
use graphrun.Domain.Sessions.{lease_from}
use graphrun.Domain.State.{State, ClaimState, WorkerSession}
use graphrun.Domain.Evolve.{evolve, apply_events}
use graphrun.Domain.Evolve.Claims.{grant_claim, granted, register_session}
use graphrun.Domain.Claims.{decide_claim}
use graphrun.Domain.Owners.{validate_claim_owner}
use graphrun.Domain.Claims.Limits.{Numbered, decide_claim-IsClaimBatch}
use graphrun.Domain.Claims.Capacity.{grant_all, renewed, apply-claim}
use graphrun.Domain.Claims.Fencing.{validate_claim_owner_exact}
use graphrun.Domain.Claims.Generations.{generation_at, Keeps, evolve-Keeps, IsInOrder}

-- The states that an engine reaches from a state.
pub data Steps : State → State → Type 0 where
  stay : {s : State} → Steps s s
  step :
      {s t u : State} (e : DomainEvent) → IsInOrder s e → evolve s e ≡ ok t → Steps t u → Steps s u

abbrev is_newer : ℕ → Option ℕ → Bool
is_newer old none = true
is_newer old (some generation) = ltb old generation

-- The generation was given out, and is not the one that the activation is claimed under, now or
-- later.
pub record IsSuperseded (a old : ℕ) (s : State) : Type 0 where
  pub reached : old ≤ s.next_generation
  pub newer : is_newer old (generation_at s a) ≡ true

abbrev is_issued : ℕ → Option ℕ → Bool
is_issued last none = true
is_issued last (some generation) = leb generation last

-- The last generation given out fits its word, and no claim has a later one.
pub record IsFenced (s : State) : Type 0 where
  pub word : s.next_generation ≤ 2 ^ 64 - 1
  pub issued : (a : ℕ) → is_issued s.next_generation (generation_at s a) ≡ true

granted-generation :
    (s : State) (g : Grant) (a : ℕ)
    → (generation_at (grant_claim s g) a ≡ generation_at s a)
      ⊎ (generation_at (grant_claim s g) a ≡ some g.generation)
unfolding grant_claim
granted-generation s g a =
    rw (get-modify g.activation a (granted g) s.activations)
      (elim (Bool-cases (g.activation == a)) [
        | inr other ↦ inl (rw (other) refl)
        | inl same ↦ elim (Option-cases (Map.get a s.activations)) [
          | inl missing ↦ inl (rw (same, missing) refl)
          | inr (act, found) ↦ inr (rw (same, found) refl)
        ]
      ])

grant-count :
    (s : State) (g : Grant) → (grant_claim s g).next_generation ≡ saturating_add s.next_generation 1
unfolding grant_claim
grant-count s g = refl

-- A step grants the next generation, or leaves or drops the generation at an activation.
step_cases :
    (s t : State) (a : ℕ) (e : DomainEvent)
    → IsInOrder s e
    → evolve s e ≡ ok t
    → ((g : Grant) × (grant_claim s g ≡ t) × (g.generation ≡ saturating_add s.next_generation 1))
      ⊎ Keeps s t a
step_cases s t a (claim_granted g) order h = inl (g, unfold evolve in cc h, order)
step_cases s t a e order h = inr (evolve-Keeps s t a e refl h)

module _ (a old : ℕ) (small : old < 2 ^ 64 - 1) where
  grant_claim-IsSuperseded :
      (s : State) (g : Grant)
      → g.generation ≡ saturating_add s.next_generation 1
      → IsSuperseded a old s
      → IsSuperseded a old (grant_claim s g)
  grant_claim-IsSuperseded s g order h = record {
    reached = omega (arith, h.reached, grant-count s g);
    newer = elim (granted-generation s g a) [
      | inl same ↦ rw (same) (h.newer)
      | inr new ↦ rw (new) (ground (arith, h.reached, order))
    ];
  }

  Keeps-IsSuperseded : (s t : State) → Keeps s t a → IsSuperseded a old s → IsSuperseded a old t
  Keeps-IsSuperseded s t k h = record {
    reached = omega (arith, h.reached, k.count);
    newer = elim k.claim [ inl same ↦ rw (same) (h.newer) | inr dropped ↦ rw (dropped) refl ];
  }

  Steps-IsSuperseded : (s t : State) → Steps s t → IsSuperseded a old s → IsSuperseded a old t
  Steps-IsSuperseded s t stay h = h
  Steps-IsSuperseded s u (step {t = t} e order moved rest) h =
      elim (step_cases s t a e order moved) [
        | inl (g, same, next_one) ↦
            Steps-IsSuperseded t u rest
              (subst (IsSuperseded a old) same (grant_claim-IsSuperseded s g next_one h))
        | inr k ↦ Steps-IsSuperseded t u rest (Keeps-IsSuperseded s t k h)
      ]

  superseded_refused :
      (s : State) (run session revision time : ℕ) (claim : ClaimState)
      → IsSuperseded a old s
      → ¬ (validate_claim_owner s run a session old revision time ≡ ok claim)
  superseded_refused s run session revision time claim h owned =
      let o = (validate_claim_owner_exact s run a session old revision time claim).0 owned in
      let at : generation_at s a ≡ some old = rw (o.found, o.claimed, o.same_generation) refl in
      let newer : is_newer old (some old) ≡ true = subst (λ x. is_newer old x ≡ true) at h.newer in
      ground arith

granted_newer :
    (s : State) (g : Grant) (old : ℕ)
    → old < g.generation
    → is_newer old (generation_at (grant_claim s g) g.activation) ≡ true
unfolding grant_claim
granted_newer s g old h =
    rw (get-modify g.activation g.activation (granted g) s.activations)
      (ground (arith, nat_beq_iff g.activation g.activation))

-- Once an activation is granted under the next generation, a report with a generation given out
-- before is let through at no later state and no time, whatever events are applied in between, as
-- long as each grant among them takes the next generation. The generation is below the largest
-- 64-bit word, at which the counter stops.
pub grant-fences :
    (s t u : State) (g : Grant) (old run session revision time : ℕ) (claim : ClaimState)
    → old < 2 ^ 64 - 1
    → old ≤ s.next_generation
    → IsInOrder s (claim_granted g)
    → evolve s (claim_granted g) ≡ ok t
    → Steps t u
    → ¬ (validate_claim_owner u run g.activation session old revision time ≡ ok claim)
grant-fences s t u g old run session revision time claim small given order moved rest =
    let same : grant_claim s g ≡ t = unfold evolve in cc moved in
    let now : IsSuperseded g.activation old (grant_claim s g) = record {
      reached = omega (arith, given, grant-count s g);
      newer = granted_newer s g old (ground (arith, given, order, small));
    } in
    superseded_refused g.activation old small u run session revision time claim (
      Steps-IsSuperseded g.activation old small t u rest
        (subst (IsSuperseded g.activation old) same now))

-- By steps whose grants take the next generation: in every state reached from one in which the
-- counter fits its word and no claim has a generation that was not given out yet, that is so again.
pub Steps-IsFenced : (s t : State) → Steps s t → IsFenced s → IsFenced t
Steps-IsFenced s t stay h = h
Steps-IsFenced s u (step {t = t} e order moved rest) h = Steps-IsFenced t u rest (record {
  word = elim (step_cases s t 0 e order moved) [
    | inl (g, same, next_one) ↦
        subst (λ x. x.next_generation ≤ 2 ^ 64 - 1) same (omega (arith, grant-count s g))
    | inr k ↦ omega (arith, k.count, h.word)
  ];
  issued = λ a. elim (step_cases s t a e order moved) [
    | inl (g, same, next_one) ↦
        subst (λ x. is_issued x.next_generation (generation_at x a) ≡ true) same
          (elim (granted-generation s g a) [
            | inl kept ↦ rw (kept) (ground (arith, h.word, h.issued a, grant-count s g))
            | inr new ↦ rw (new) (ground (arith, grant-count s g, next_one))
          ])
    | inr k ↦ elim k.claim [
      | inl kept ↦ rw (kept, k.count) (h.issued a)
      | inr dropped ↦ rw (dropped) refl
    ]
  ];
})

Steps-append : {s t u : State} → Steps s t → Steps t u → Steps s u
Steps-append stay more = more
Steps-append (step e order moved rest) more = step e order moved (Steps-append rest more)

grants-Steps :
    (base n : ℕ) (s : State) (gs : List Grant)
    → s.next_generation ≡ saturating_add base n
    → Numbered base n gs
    → Steps s (grant_all s gs)
unfolding grant_all
grants-Steps base n s [] at h = stay
grants-Steps base n s (g ∷ gs) at h =
    step {s = s} {t = grant_claim s g} (claim_granted g) (ground (arith, at, h.0))
      (unfold evolve in refl)
      (grants-Steps base (n + 1) (grant_claim s g) gs (omega (arith, at, grant-count s g)) h.1)

renewed-count :
    (s : State) (worker : WorkerSession) (session time : ℕ)
    → (renewed s worker session time).next_generation ≡ s.next_generation
unfolding register_session
renewed-count s worker session time = ground arith

renewed-Steps :
    (s : State) (worker : WorkerSession) (session time : ℕ)
    → Steps s (renewed s worker session time)
renewed-Steps s worker session time = elim (Bool-cases (worker.principal_id == "")) [
  | inl local ↦ rw (local) (
      step {s = s}
        {t = register_session s session worker.activities worker.capacity (lease_from time)}
        (session_registered session worker.activities worker.capacity (lease_from time)) tt
        (unfold evolve in refl) stay)
  | inr remote ↦ rw (remote) stay
]

-- Where the counter of generations fits a 64-bit word, the events of a decided claim are steps of
-- the engine: they apply, and each grant takes the next generation.
pub decide_claim-Steps :
    (ext : Externals) (s : State) (session capacity time : ℕ) (events : List DomainEvent)
    → s.next_generation ≤ 2 ^ 64 - 1
    → decide_claim ext s session capacity time ≡ ok events
    → (t : State) × (apply_events s events ≡ ok t) × Steps s t
decide_claim-Steps ext s session capacity time events word e =
    let b = decide_claim-IsClaimBatch ext s session time capacity events e in
    let start = renewed s b.worker session time in
    (
      grant_all start b.grants,
      cc (b.events_are, apply-claim ext s b.worker session time b.grants),
      Steps-append (renewed-Steps s b.worker session time) (
          grants-Steps s.next_generation 0 start b.grants
            (omega (arith, renewed-count s b.worker session time)) b.batch.numbered),
    )
