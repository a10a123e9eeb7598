-- ===== src/Domain/Reports/Probes.antt =====
-- graphrun/src/domain.rs: a reconciliation whose outcome is unknown counts a probe, and ends in an
-- intervention.
use graphrun.Prelude.{
  ℕ, ◌+◌, ◌≤◌, ◌<◌, ◌≡◌, refl, sym, ap, true, false, none, some, List, [], ◌∷◌, nat_eq, leb, arith,
  Bool-cases, inl, inr, ◌⊎◌, if◌then◌else◌, ==_refl, saturating_add_32,
}
use mathlib.Core.Path.{subst}
use graphrun.Map
use graphrun.Map.Laws.{get-modify, get-insert_self}
use graphrun.Error.{ok, >>=-eq-ok}
use graphrun.Ids.{role_eq}
use graphrun.Externals.{Externals, IdGen}
use graphrun.Domain.Event.{
  DomainEvent, unknown, reconciliation_recorded, intervention_required, claim_cleared,
}
use graphrun.Domain.State.{State, ActivationState, ClaimState}
use graphrun.Domain.Evolve.{apply_events, evolve, event_owner}
use graphrun.Domain.Evolve.Claims.{record_reconciliation, clear_claim, on_claim}
use graphrun.Domain.Owners.{validate_claim_owner}
use graphrun.Domain.Claims.Fencing.{IsOwned, validate_claim_owner_exact}
use graphrun.Domain.Ready.{is_unclaimed}
use graphrun.Domain.Reports.{decide_reconcile, after_probe, awaiting}

-- The claim after a probe that found nothing out.
abbrev pub probed : ClaimState → ClaimState
probed claim = record claim { probes = claim.probes + 1; unknown_reported = true }

-- A probe that is not the last: its claim stays, and counts it.
pub record IsCounted (activation : ℕ) (claim : ClaimState) (t : State) : Type 0 where
  pub act : ActivationState
  pub few : claim.probes + 1 < 3
  pub found : Map.get activation t.activations ≡ some act
  pub held : act.claim ≡ some (probed claim)

-- The last probe: the activation is offered to nobody any more.
pub record IsGivenUp (activation : ℕ) (claim : ClaimState) (later : ℕ) (t : State) : Type 0 where
  pub enough : 3 ≤ claim.probes + 1
  pub never_offered : is_unclaimed t later activation ≡ false

pub record IsProbe (s : State) (run activation session generation revision time later : ℕ)
    (events : List DomainEvent) : Type 0 where
  pub claim : ClaimState
  pub after : State
  pub owned : IsOwned s run activation session generation revision time claim
  pub not_yet : claim.unknown_reported ≡ false
  pub applied : apply_events s events ≡ ok after
  pub outcome : IsCounted activation claim after ⊎ IsGivenUp activation claim later after

module _ (ext : Externals) (s : State) (run activation session generation revision time : ℕ)
    (ids : IdGen) where
  abbrev recorded : ClaimState → DomainEvent
  recorded claim =
      reconciliation_recorded run activation unknown none (saturating_add_32 claim.probes 1)

  abbrev probe_events : ClaimState → List DomainEvent
  probe_events claim =
      recorded claim
      ∷ (if leb 3 (saturating_add_32 claim.probes 1)
          then intervention_required run activation "reconciliation probes exhausted"
            ∷ claim_cleared activation
            ∷ []
          else [])

  probe_shape :
      (r : List DomainEvent × IdGen)
      → decide_reconcile ext s run activation session generation revision unknown none time ids
        ≡ ok r
      → (claim : ClaimState) × IsOwned s run activation session generation revision time claim
        × (claim.unknown_reported ≡ false)
        × (r.0 ≡ probe_events claim)
  unfolding decide_reconcile after_probe
  probe_shape r e =
      let (act, waiting, e1) = >>=-eq-ok (awaiting s run activation) _ {b = r} e in
      let (claim, owner, e2) =
        >>=-eq-ok (validate_claim_owner s run activation session generation revision time) _ {b = r}
          e1 in
      (
        claim,
        (validate_claim_owner_exact s run activation session generation revision time claim).0
            owner,
        ground (arith, e2),
        ground (arith, e2),
      )

  applies_count :
      (claim : ClaimState)
      → leb 3 (saturating_add_32 claim.probes 1) ≡ false
      → apply_events s (probe_events claim)
        ≡ ok (record_reconciliation s activation unknown (saturating_add_32 claim.probes 1))
  unfolding apply_events event_owner evolve
  applies_count claim few = rw (few) refl

  abbrev noted : ClaimState → State
  noted claim = record_reconciliation s activation unknown (saturating_add_32 claim.probes 1)

  abbrev given_up : ClaimState → State
  given_up claim =
      clear_claim
        (record (noted claim) {
          interventions = Map.insert activation "reconciliation probes exhausted" s.interventions;
        })
        activation

  noted_act :
      (claim : ClaimState) (act : ActivationState)
      → Map.get activation s.activations ≡ some act
      → act.claim ≡ some claim
      → Map.get activation (noted claim).activations
        ≡ some (record act {
          claim =
              some (record claim {
                probes = saturating_add_32 claim.probes 1;
                unknown_reported = true;
              });
        })
  unfolding record_reconciliation
  noted_act claim act found held = ground (
    arith,
    found,
    held,
    ==_refl activation,
    get-modify activation activation
        (on_claim
          (λ c. record c { probes = saturating_add_32 claim.probes 1; unknown_reported = true }))
        s.activations,
  )

  applies_give_up :
      (claim : ClaimState) (act : ActivationState)
      → Map.get activation (noted claim).activations ≡ some act
      → leb 3 (saturating_add_32 claim.probes 1) ≡ true
      → apply_events s (probe_events claim) ≡ ok (given_up claim)
  unfolding apply_events event_owner evolve record_reconciliation
  applies_give_up claim act there many = rw (many, there, record_reconciliation) refl

  never_offered :
      (claim : ClaimState) (later : ℕ) → is_unclaimed (given_up claim) later activation ≡ false
  unfolding is_unclaimed clear_claim Map.contains_key
  never_offered claim later =
      rw (get-insert_self activation "reconciliation probes exhausted" s.interventions) refl

  -- A reconciliation that reports an unknown outcome is let in once for a claim, from its owner,
  -- and its events apply. With it the claim has been probed once more: below three probes the claim
  -- stays and counts them, at three the activation is offered to no worker at any later time.
  pub decide_reconcile-IsProbe :
      (r : List DomainEvent × IdGen) (later : ℕ)
      → decide_reconcile ext s run activation session generation revision unknown none time ids
        ≡ ok r
      → IsProbe s run activation session generation revision time later r.0
  decide_reconcile-IsProbe r later e =
      let (claim, owned, not_yet, shape) = probe_shape r e in
      let there = noted_act claim owned.act owned.found owned.claimed in
      elim (Bool-cases (leb 3 (saturating_add_32 claim.probes 1))) [
        | inl many ↦ record {
          claim = claim;
          after = given_up claim;
          owned = owned;
          not_yet = not_yet;
          applied =
              subst (λ es. apply_events s es ≡ ok (given_up claim)) (sym shape)
                (applies_give_up claim _ there many);
          outcome =
              inr (record { enough = ground arith; never_offered = never_offered claim later });
        }
        | inr few ↦ record {
          claim = claim;
          after = noted claim;
          owned = owned;
          not_yet = not_yet;
          applied =
              subst (λ es. apply_events s es ≡ ok (noted claim)) (sym shape)
                (applies_count claim few);
          outcome = inl (record {
            act = _;
            few = ground arith;
            found = there;
            held =
                let exact : saturating_add_32 claim.probes 1 ≡ claim.probes + 1 = ground arith in
                ap (λ n. some (record claim { probes = n; unknown_reported = true })) exact;
          });
        }
      ]
