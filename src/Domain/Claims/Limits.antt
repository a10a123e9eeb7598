-- ===== src/Domain/Claims/Limits.antt =====
-- graphrun/src/domain.rs: `decide_claim` grants what is free, once each, and within the limits.
use graphrun.Prelude.{
  Distinct, ℕ, ◌+◌, ◌≤◌, ◌<◌, ◌≡◌, refl, true, false, ◌||◌, none, some, List, [], ◌∷◌, ◌++◌, map,
  leb, nat_eq, arith, length, length-append, All, contains, saturating_add, ◌==◌, sym, ◌∙◌, ap,
  Bool-cases, Option-cases, inl, inr,
}
use mathlib.Core.Path.{subst}
use graphrun.Map
use graphrun.Error.{Result, ok, err, ◌>>=◌, >>=-eq-ok, unauthenticated, failed_precondition}
use graphrun.Externals.{Externals}
use graphrun.Domain.Event.{DomainEvent, Grant, claim_granted}
use graphrun.Domain.State.{State, ActivationState, WorkerSession}
use graphrun.Domain.Ready.{active_runs, is_unclaimed}
use graphrun.Domain.Sessions.{lease_from}
use graphrun.Domain.Claims.{
  grant_for, claim_loop, claim_cap, decide_claim, own_renewal, sort_by, rotate_past,
}
use graphrun.Domain.Claims.Batch.{loop_inv}

contains-snoc : (xs : List ℕ) (x y : ℕ) → contains (xs ++ y ∷ []) x ≡ (contains xs x || y == x)
unfolding contains
contains-snoc [] x y = ground arith
contains-snoc (z ∷ zs) x y = ground (arith, contains-snoc zs x y)

Distinct-snoc :
    (xs : List ℕ) (y : ℕ) → Distinct xs → contains xs y ≡ false → Distinct (xs ++ y ∷ [])
unfolding contains
Distinct-snoc [] y d h = ground arith
Distinct-snoc (x ∷ xs) y d h =
    (ground (arith, contains-snoc xs x y), Distinct-snoc xs y d.1 (ground arith))

-- The n-th grant of a batch takes the n-th generation after the state's.
abbrev pub Numbered : ℕ → ℕ → List Grant → Type 0
Numbered base n [] = Unit {0}
Numbered base n (g ∷ gs) = (g.generation ≡ saturating_add base (n + 1)) × Numbered base (n + 1) gs

Numbered-snoc :
    (base n : ℕ) (gs : List Grant) (g : Grant)
    → Numbered base n gs
    → g.generation ≡ saturating_add base (n + length gs + 1)
    → Numbered base n (gs ++ g ∷ [])
Numbered-snoc base n [] g h e = (ground arith, tt)
Numbered-snoc base n (x ∷ gs) g h e = (h.0, Numbered-snoc base (n + 1) gs g h.1 (ground arith))

-- What a grant at a time gives to a session.
pub record IsGrantTo (s : State) (session time : ℕ) (g : Grant) : Type 0 where
  pub holder : g.session ≡ session
  pub free : is_unclaimed s time g.activation ≡ true
  pub lease : g.lease_expiry_ms ≡ lease_from time
  pub first_revision : g.revision ≡ 1

All-snoc {ℓ κ} :
    {A : Type ℓ} (P : A → Type κ) (xs : List A) (y : A) → All P xs → P y → All P (xs ++ y ∷ [])
All-snoc P [] y h p = (p, tt)
All-snoc P (x ∷ xs) y h p = (h.0, All-snoc P xs y h.1 p)

map-snoc :
    (gs : List Grant) (g : Grant)
    → map (λ x. x.activation) (gs ++ g ∷ []) ≡ map (λ x. x.activation) gs ++ g.activation ∷ []
map-snoc [] g = refl
map-snoc (x ∷ gs) g = ap (◌∷◌ x.activation) (map-snoc gs g)

pub record IsBatch (s : State) (session time cap : ℕ) (gs : List Grant) : Type 0 where
  pub within : length gs ≤ cap
  pub each : All (IsGrantTo s session time) gs
  pub distinct : Distinct (map (λ g. g.activation) gs)
  pub numbered : Numbered s.next_generation 0 gs

record GrantFacts (s : State) (session time granted activation : ℕ) (g : Grant) : Type 0 where
  holder : g.session ≡ session
  activation_is : g.activation ≡ activation
  lease : g.lease_expiry_ms ≡ lease_from time
  first_revision : g.revision ≡ 1
  generation : g.generation ≡ saturating_add s.next_generation (granted + 1)

module _ (ext : Externals) (s : State) (session time : ℕ) where
  grant_for-facts :
      (granted run activation : ℕ) (act : ActivationState) (g : Grant)
      → grant_for ext s session time granted run activation act ≡ ok g
      → GrantFacts s session time granted activation g
  unfolding grant_for
  grant_for-facts granted run activation act g e = ground arith

  Batch-keep :
      (cap : ℕ) (gs : List Grant) (run activation : ℕ) (act : ActivationState) (g : Grant)
      → IsBatch s session time cap gs
      → leb cap (length gs) ≡ false
      → is_unclaimed s time activation ≡ true
      → contains (map (λ x. x.activation) gs) activation ≡ false
      → Map.get activation s.activations ≡ some act
      → grant_for ext s session time (length gs) run activation act ≡ ok g
      → IsBatch s session time cap (gs ++ g ∷ [])
  Batch-keep cap gs run activation act g h room free fresh found e =
      let f = grant_for-facts (length gs) run activation act g e in
      record {
        within = ground (arith, length-append gs (g ∷ []));
        each = All-snoc (IsGrantTo s session time) gs g h.each (record {
          holder = f.holder;
          free = ground (arith, f.activation_is);
          lease = f.lease;
          first_revision = f.first_revision;
        });
        distinct = subst Distinct (sym (map-snoc gs g)) (
            Distinct-snoc (map (λ x. x.activation) gs) g.activation h.distinct
              (ground (arith, f.activation_is)));
        numbered = Numbered-snoc s.next_generation 0 gs g h.numbered (ground (arith, f.generation));
      }

  no_batch : (cap : ℕ) → IsBatch s session time cap []
  no_batch cap = record { within = ground arith; each = tt; distinct = tt; numbered = tt }

  loop-IsBatch :
      (worker : WorkerSession) (cap fuel : ℕ) (runs : List ℕ) (gs : List Grant)
      → claim_loop ext fuel s worker session time cap runs [] ≡ ok gs
      → IsBatch s session time cap gs
  loop-IsBatch worker cap fuel runs gs e =
      loop_inv ext s worker session time cap (IsBatch s session time cap) (Batch-keep cap) fuel runs
        [] gs (no_batch cap) e

  -- What a decided batch of claims contains.
  pub record IsClaimBatch (capacity : ℕ) (events : List DomainEvent) : Type 0 where
    pub worker : WorkerSession
    pub known : Map.get session s.sessions ≡ some worker
    pub live : time < worker.expires_ms
    pub grants : List Grant
    pub batch : IsBatch s session time (claim_cap ext s worker session capacity time) grants
    pub events_are : events ≡ own_renewal ext worker session time ++ map claim_granted grants

  abbrev granting : ℕ → WorkerSession → Result (List Grant)
  granting capacity worker =
      let cap = claim_cap ext s worker session capacity time in
      claim_loop ext cap s worker session time cap
        (rotate_past s.fair_cursor (sort_by leb (active_runs s))) []

  claim_unknown :
      (capacity : ℕ)
      → Map.get session s.sessions ≡ none
      → decide_claim ext s session capacity time
        ≡ err (record { kind = unauthenticated; message = "unknown session" })
  unfolding decide_claim
  claim_unknown capacity h = rw (h, decide_claim) refl

  claim_expired :
      (capacity : ℕ) (worker : WorkerSession)
      → Map.get session s.sessions ≡ some worker
      → leb worker.expires_ms time ≡ true
      → decide_claim ext s session capacity time
        ≡ err (record { kind = failed_precondition; message = "session expired" })
  unfolding decide_claim
  claim_expired capacity worker h late = rw (h, late, decide_claim) refl

  claim_live :
      (capacity : ℕ) (worker : WorkerSession)
      → Map.get session s.sessions ≡ some worker
      → leb worker.expires_ms time ≡ false
      → decide_claim ext s session capacity time ≡ (
          granting capacity worker >>= λ gs.
          ok (own_renewal ext worker session time ++ map claim_granted gs))
  unfolding decide_claim
  claim_live capacity worker h early = rw (h, early, decide_claim) refl

  -- A claim that is decided is of a known session that has not expired; its grants go to that
  -- session, take free activations, each at most once, number their generations upwards from the
  -- state's, and are at most as many as asked for, as the session has room for, and as a batch holds.
  pub decide_claim-IsClaimBatch :
      (capacity : ℕ) (events : List DomainEvent)
      → decide_claim ext s session capacity time ≡ ok events
      → IsClaimBatch capacity events
  decide_claim-IsClaimBatch capacity events e = elim (Option-cases (Map.get session s.sessions)) [
    | inl missing ↦ cc (claim_unknown capacity missing)
    | inr (worker, found) ↦ elim (Bool-cases (leb worker.expires_ms time)) [
      | inl late ↦ cc (claim_expired capacity worker found late)
      | inr early ↦
          let cap = claim_cap ext s worker session capacity time in
          let (gs, eg, done) =
            >>=-eq-ok (granting capacity worker) _
              (sym (claim_live capacity worker found early) ∙ e) in
          record {
            worker = worker;
            known = found;
            live = ground arith;
            grants = gs;
            batch =
                loop-IsBatch worker cap cap
                  (rotate_past s.fair_cursor (sort_by leb (active_runs s))) gs eg;
            events_are = cc done;
          }
    ]
  ]
