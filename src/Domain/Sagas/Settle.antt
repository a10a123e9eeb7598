-- ===== src/Domain/Sagas/Settle.antt =====
-- graphrun/src/domain.rs: a saga that succeeds keeps no open obligation.
use graphrun.Prelude.{
  ℕ, zero, suc, length, option_eq, ◌≡◌, ◌↔◌, refl, Bool, true, false, not, ◌||◌, Option, none, some,
  List, [], ◌∷◌, map, ◌==◌, nat_eq, arith, sym, find, filter, contains, update_first, filter_kept,
  filter_dropped, Distinct, All, Bool-cases, Option-cases, inl, inr, ap, nat_beq_iff,
}
use mathlib.Core.Path.{subst}
use graphrun.Map
use graphrun.Domain.Event.{ScopeRole}
use graphrun.Domain.Region.{body_owner, owner_climb, saga_owner_from_scope, parent_saga}
use graphrun.Error.{ok}
use graphrun.Domain.Event.{obligation_transferred, obligation_released}
use graphrun.Domain.State.{State, ActivationState, Obligation, ObligationStatus}
use graphrun.Domain.Evolve.{apply_events, evolve, event_owner}
use graphrun.Domain.Evolve.Obligations.{is_forward, transfer_obligation, set_status}
use graphrun.Domain.Sagas.{settle_saga_success, hand_over, owned_in, is_open}

abbrev pub forwards : List Obligation → List ℕ
forwards os = map (λ o. o.forward) os

-- The rewriting of one obligation after the other.
updates : (Obligation → Obligation) → List ℕ → List Obligation → List Obligation
updates g [] os = os
updates g (x ∷ xs) os = updates g xs (update_first (is_forward x) g os)

module _ (p : Obligation → Bool) (g : Obligation → Obligation)
    (same : (o : Obligation) → (g o).forward ≡ o.forward)
    (clears : (o : Obligation) → p (g o) ≡ false) where
  -- What passes the test is among the activations.
  abbrev Covered : List ℕ → List Obligation → Type 0
  Covered xs os = All (λ o. (not (p o) || contains xs o.forward) ≡ true) os

  forwards-update :
      (x : ℕ) (os : List Obligation) → forwards (update_first (is_forward x) g os) ≡ forwards os
  unfolding update_first
  forwards-update x [] = refl
  forwards-update x (o ∷ os) = elim (Bool-cases (o.forward == x)) [
    | inl hit ↦ rw (hit, update_first) (rw (same o) refl)
    | inr miss ↦ rw (miss, update_first) (ap (◌∷◌ o.forward) (forwards-update x os))
  ]

  uncovered :
      (x : ℕ) (xs : List ℕ) (os : List Obligation)
      → contains (forwards os) x ≡ false
      → Covered (x ∷ xs) os
      → Covered xs os
  unfolding contains
  uncovered x xs [] n c = tt
  uncovered x xs (o ∷ os) n c = (
    ground (arith, c.0, nat_beq_iff x o.forward, nat_beq_iff o.forward x),
    uncovered x xs os (ground arith) c.1,
  )

  Covered-update :
      (x : ℕ) (xs : List ℕ) (os : List Obligation)
      → Distinct (forwards os)
      → Covered (x ∷ xs) os
      → Covered xs (update_first (is_forward x) g os)
  unfolding update_first contains
  Covered-update x xs [] d c = tt
  Covered-update x xs (o ∷ os) d c = elim (Bool-cases (o.forward == x)) [
    | inl hit ↦
        let at : o.forward ≡ x = (nat_beq_iff o.forward x).0 hit in
        let gone : contains (forwards os) x ≡ false =
          subst (λ y. contains (forwards os) y ≡ false) at d.0 in
        rw (hit, update_first) (rw (clears o) refl, uncovered x xs os gone c.1)
    | inr miss ↦
        rw (miss, update_first)
          (
            ground (arith, c.0, miss, nat_beq_iff x o.forward, nat_beq_iff o.forward x),
            Covered-update x xs os d.1 c.1,
          )
  ]

  none_left : (os : List Obligation) → Covered [] os → All (λ o. p o ≡ false) os
  unfolding contains
  none_left [] c = tt
  none_left (o ∷ os) c = (ground (arith, c.0), none_left os c.1)

  updates-clears :
      (xs : List ℕ) (os : List Obligation)
      → Distinct (forwards os)
      → Covered xs os
      → All (λ o. p o ≡ false) (updates g xs os)
  unfolding updates
  updates-clears [] os d c = none_left os c
  updates-clears (x ∷ xs) os d c =
      updates-clears xs (update_first (is_forward x) g os)
        (subst Distinct (sym (forwards-update x os)) d) (Covered-update x xs os d c)

  weaken : (y : ℕ) (ys : List ℕ) (os : List Obligation) → Covered ys os → Covered (y ∷ ys) os
  unfolding contains
  weaken y ys [] c = tt
  weaken y ys (o ∷ os) c = (ground (arith, c.0), weaken y ys os c.1)

  Covered-filter : (os : List Obligation) → Covered (forwards (filter p os)) os
  unfolding filter contains
  Covered-filter [] = tt
  Covered-filter (o ∷ os) = elim (Bool-cases (p o)) [
    | inl kept ↦
        subst (λ ys. Covered (forwards ys) (o ∷ os)) (sym (filter_kept p o os kept))
          (
            ground (arith, nat_beq_iff o.forward o.forward),
            weaken o.forward (forwards (filter p os)) os (Covered-filter os),
          )
    | inr dropped ↦
        subst (λ ys. Covered (forwards ys) (o ∷ os)) (sym (filter_dropped p o os dropped))
          (ground arith, Covered-filter os)
  ]

  -- Every activation of the list has an obligation.
  abbrev Present : List ℕ → List Obligation → Type 0
  Present xs os = All (λ x. contains (forwards os) x ≡ true) xs

  Present-update :
      (x : ℕ) (xs : List ℕ) (os : List Obligation)
      → Present xs os
      → Present xs (update_first (is_forward x) g os)
  Present-update x xs os h =
      subst (λ ys. All (λ y. contains ys y ≡ true) xs) (sym (forwards-update x os)) h

  Present-cons :
      (o : Obligation) (xs : List ℕ) (os : List Obligation) → Present xs os → Present xs (o ∷ os)
  unfolding contains
  Present-cons o [] os h = tt
  Present-cons o (x ∷ xs) os h = (ground (arith, h.0), Present-cons o xs os h.1)

  Present-filter : (os : List Obligation) → Present (forwards (filter p os)) os
  unfolding filter contains
  Present-filter [] = tt
  Present-filter (o ∷ os) = elim (Bool-cases (p o)) [
    | inl kept ↦
        subst (λ ys. Present (forwards ys) (o ∷ os)) (sym (filter_kept p o os kept))
          (
            ground (arith, nat_beq_iff o.forward o.forward),
            Present-cons o (forwards (filter p os)) os (Present-filter os),
          )
    | inr dropped ↦
        subst (λ ys. Present (forwards ys) (o ∷ os)) (sym (filter_dropped p o os dropped))
          (Present-cons o (forwards (filter p os)) os (Present-filter os))
  ]

contains-find :
    (x : ℕ) (os : List Obligation)
    → contains (forwards os) x ≡ true
    → (o : Obligation) × (find (is_forward x) os ≡ some o)
unfolding contains find
contains-find x [] h = ground arith
contains-find x (o ∷ os) h = elim (Bool-cases (o.forward == x)) [
  | inl hit ↦ (o, rw (hit, find) refl)
  | inr miss ↦ let (q, e) = contains-find x os (ground (arith, h, miss)) in (q, rw (miss, find) e)
]

-- The open obligations of a saga, in the order in which they were registered.
abbrev owed : State → ℕ → List ℕ
owed s saga = forwards (filter (owned_in is_open saga) s.obligations)

abbrev to_saga : ℕ → Obligation → Obligation
to_saga parent o = record o { owner = parent }

abbrev to_released : Obligation → Obligation
to_released o = record o { status = ObligationStatus.released }

abbrev rewritten : State → (Obligation → Obligation) → List ℕ → State
rewritten s g xs = record s { obligations = updates g xs s.obligations }

apply-transfers :
    (saga parent : ℕ) (xs : List ℕ) (s : State)
    → (parent == saga) ≡ false
    → All (λ x. contains (forwards s.obligations) x ≡ true) xs
    → apply_events s (map (λ o. obligation_transferred o saga parent) xs)
      ≡ ok (rewritten s (to_saga parent) xs)
unfolding apply_events event_owner evolve transfer_obligation updates
apply-transfers saga parent [] s other h = refl
apply-transfers saga parent (x ∷ xs) s other h =
    let (o, found) = contains-find x s.obligations h.0 in
    rw (found) (
      apply-transfers saga parent xs (transfer_obligation s x parent) other (
        Present-update (owned_in is_open saga) (to_saga parent) (λ o. refl) (λ o. rw (other) refl) x
          xs s.obligations h.1))

apply-releases :
    (run : ℕ) (xs : List ℕ) (s : State)
    → apply_events s (map (λ o. obligation_released run o) xs) ≡ ok (rewritten s to_released xs)
unfolding apply_events event_owner evolve set_status updates
apply-releases run [] s = refl
apply-releases run (x ∷ xs) s = apply-releases run xs (set_status s x ObligationStatus.released)

==-iff : (a b : Option ℕ) → ((a == b) ≡ true) ↔ (a ≡ b)
==-iff a b = (option_eq {A = ℕ}).beq_iff a b

body_owner_other :
    (role : ScopeRole) (saga p : ℕ) → body_owner role (some saga) ≡ some p → (p == saga) ≡ false
unfolding body_owner
body_owner_other (ScopeRole.saga_body x) saga p h =
    ground (arith, h, ==-iff (some saga) (some x), nat_beq_iff p saga)
body_owner_other ScopeRole.root saga p h = cc
body_owner_other (ScopeRole.loop_body a i) saga p h = cc
body_owner_other (ScopeRole.foreach_item a i) saga p h = cc
body_owner_other (ScopeRole.parallel_branch a name) saga p h = cc
body_owner_other (ScopeRole.choose_body a name) saga p h = cc

owner_climb_other :
    (fuel : ℕ) (s : State) (scope saga p : ℕ)
    → owner_climb fuel s scope (some saga) ≡ some p
    → (p == saga) ≡ false
unfolding owner_climb
owner_climb_other zero s scope saga p h = cc
owner_climb_other (suc fuel) s scope saga p h = elim (Option-cases (Map.get scope s.scopes)) [
  | inl missing ↦ ground arith
  | inr (c, found) ↦ elim (Option-cases (body_owner c.role (some saga))) [
    | inr (q, own) ↦ ground (arith, body_owner_other c.role saga q own)
    | inl above ↦ elim (Option-cases c.parent) [
      | inl top ↦ ground arith
      | inr (a, up) ↦ elim (Option-cases (Map.get a s.activations)) [
        | inl gone ↦ ground arith
        | inr (act, there) ↦ owner_climb_other fuel s act.scope saga p (ground arith)
      ]
    ]
  ]
]

parent_saga_other : (s : State) (saga p : ℕ) → parent_saga s saga ≡ some p → (p == saga) ≡ false
unfolding parent_saga saga_owner_from_scope
parent_saga_other s saga p h = elim (Option-cases (Map.get saga s.activations)) [
  | inl missing ↦ ground arith
  | inr (act, found) ↦ owner_climb_other (suc (length s.scopes)) s act.scope saga p (ground arith)
]

hands_back :
    (s : State) (saga : ℕ) (act : ActivationState) (owned : List ℕ)
    → Map.get saga s.activations ≡ some act
    → hand_over s saga none owned ≡ map (λ o. obligation_released act.run o) owned
hands_back s saga act owned found = rw (found, hand_over) refl

-- Where no two obligations are of one activation: the events of a known saga that settles apply,
-- and then none of the open obligations is its own.
pub settle_saga_success-settles :
    (s : State) (saga : ℕ) (act : ActivationState)
    → Map.get saga s.activations ≡ some act
    → Distinct (forwards s.obligations)
    → (t : State) × (apply_events s (settle_saga_success s saga) ≡ ok t)
      × All (λ o. owned_in is_open saga o ≡ false) t.obligations
unfolding settle_saga_success
settle_saga_success-settles s saga act found d = elim (Option-cases (parent_saga s saga)) [
  | inl top ↦ (
    rewritten s to_released (owed s saga),
    rw (top)
        (rw (hands_back s saga act (owed s saga) found) (apply-releases act.run (owed s saga) s)),
    updates-clears (owned_in is_open saga) to_released (λ o. refl) (λ o. ground arith) (owed s saga)
        s.obligations d
        (Covered-filter (owned_in is_open saga) to_released (λ o. refl) (λ o. ground arith)
          s.obligations),
  )
  | inr (parent, around) ↦
      let other = parent_saga_other s saga parent around in
      (
        rewritten s (to_saga parent) (owed s saga),
        rw (around) (
            apply-transfers saga parent (owed s saga) s other (
              Present-filter (owned_in is_open saga) (to_saga parent) (λ o. refl)
                (λ o. rw (other) refl) s.obligations)),
        updates-clears (owned_in is_open saga) (to_saga parent) (λ o. refl) (λ o. rw (other) refl)
            (owed s saga) s.obligations d
            (Covered-filter (owned_in is_open saga) (to_saga parent) (λ o. refl)
              (λ o. rw (other) refl) s.obligations),
      )
]
