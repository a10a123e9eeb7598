-- ===== src/Domain/Sagas/Order.antt =====
-- graphrun/src/domain.rs: a saga compensates its obligations from the last one back.
use graphrun.Prelude.{
  ℕ, ◌≡◌, ◌≢◌, refl, Bool, true, false, none, some, List, [], ◌∷◌, ◌++◌, nat_eq, arith, sym, ◌∙◌,
  filter_kept, filter_dropped, any, filter, last?, All, Bool-cases, Option-cases, inl, inr, ap,
}
use mathlib.Core.Path.{subst}
use mathlib.Core.Logic.{◌⊎◌}
use graphrun.Map
use graphrun.Error.{ok}
use graphrun.Ir.{FailError}
use graphrun.Externals.{Externals, IdGen}
use graphrun.Domain.Event.{
  DomainEvent, CompensationStart, compensation_started, scope_failed, run_failed,
}
use graphrun.Domain.State.{State, ActivationState, Obligation}
use graphrun.Domain.Follow.{fail_scope, close_pending_waits}
use graphrun.Domain.Sagas.{
  compensate_or_fail, compensate_next, nothing_pending, owned_in, is_open, is_blocked, final_error,
}

-- The last entry of a list that passes a test, and where it stands.
record IsLast {ℓ} {A : Type ℓ} (p : A → Bool) (xs : List A) (x : A) : Type ℓ where
  before : List A
  after : List A
  split : xs ≡ before ++ x ∷ after
  passes : p x ≡ true
  none_after : All (λ y. p y ≡ false) after

last?-some {ℓ} : {A : Type ℓ} (x : A) (xs : List A) → (y : A) × (last? (x ∷ xs) ≡ some y)
unfolding last?
last?-some x [] = (x, refl)
last?-some x (y ∷ xs) = last?-some y xs

last?-cons {ℓ} :
    {A : Type ℓ} (x : A) (ys : List A)
    → ((last? ys ≡ none) × (last? (x ∷ ys) ≡ some x)) ⊎ (last? (x ∷ ys) ≡ last? ys)
unfolding last?
last?-cons x [] = inl (refl, refl)
last?-cons x (y ∷ ys) = inr refl

module _ {ℓ} {A : Type ℓ} (p : A → Bool) where
  filter-none : (xs : List A) → last? (filter p xs) ≡ none → All (λ y. p y ≡ false) xs
  filter-none [] h = tt
  filter-none (x ∷ xs) h = elim (Bool-cases (p x)) [
    | inl kept ↦
        let (y, e) = last?-some x (filter p xs) in
        let clash : none ≡ some y = sym h ∙ (ap last? (filter_kept p x xs kept) ∙ e) in cc clash
    | inr dropped ↦ (dropped, filter-none xs (sym (ap last? (filter_dropped p x xs dropped)) ∙ h))
  ]

  later : (x : A) (xs : List A) (o : A) → IsLast p xs o → IsLast p (x ∷ xs) o
  later x xs o h = record {
    before = x ∷ h.before;
    after = h.after;
    split = ap (◌∷◌ x) h.split;
    passes = h.passes;
    none_after = h.none_after;
  }

  last-filter : (xs : List A) (o : A) → last? (filter p xs) ≡ some o → IsLast p xs o
  last-filter [] o h = unfold filter last? in cc h
  last-filter (x ∷ xs) o h = elim (Bool-cases (p x)) [
    | inr dropped ↦
        later x xs o (last-filter xs o (sym (ap last? (filter_dropped p x xs dropped)) ∙ h))
    | inl kept ↦
        let h' : last? (x ∷ filter p xs) ≡ some o = sym (ap last? (filter_kept p x xs kept)) ∙ h in
        elim (last?-cons x (filter p xs)) [
          | inr same ↦ later x xs o (last-filter xs o (sym same ∙ h'))
          | inl (nothing, at_x) ↦
              let same : x ≡ o = cc (at_x, h') in
              record {
                before = [];
                after = xs;
                split = ap (λ y. y ∷ xs) same;
                passes = subst (λ y. p y ≡ true) same kept;
                none_after = filter-none xs nothing;
              }
        ]
  ]

-- What a compensation that is started is of.
pub record IsNextCompensation (s : State) (saga : ℕ) (c : CompensationStart) : Type 0 where
  pub act : ActivationState
  pub found : Map.get saga s.activations ≡ some act
  pub none_blocked : any (owned_in is_blocked saga) s.obligations ≡ false
  pub obligation : Obligation
  pub before : List Obligation
  pub after : List Obligation
  pub split : s.obligations ≡ before ++ obligation ∷ after
  pub of_saga : owned_in is_open saga obligation ≡ true
  pub none_later : All (λ o. owned_in is_open saga o ≡ false) after
  pub forward : c.forward ≡ obligation.forward
  pub handler : c.handler ≡ obligation.handler
  pub handler_version : c.handler_version ≡ obligation.handler_version
  pub input : c.input ≡ obligation.input

no_single : (xs : List DomainEvent) (a b c : DomainEvent) → xs ++ a ∷ b ∷ [] ≢ c ∷ []
no_single [] a b c h = cc h
no_single (x ∷ []) a b c h = cc h
no_single (x ∷ y ∷ xs) a b c h = cc h

module _ (ext : Externals) (s : State) (saga : ℕ) (error : FailError) (ids : IdGen) where
  fail_no_start :
      (scope : ℕ) (e : FailError) (c : CompensationStart)
      → fail_scope s scope e ≢ ok (compensation_started c ∷ [])
  unfolding fail_scope
  fail_no_start scope e c h = elim (Option-cases (Map.get scope s.scopes)) [
    | inl missing ↦ ground arith
    | inr (at, found) ↦ ground (
      arith,
      no_single (close_pending_waits s at.run) (scope_failed at.run scope e) (run_failed at.run e)
          (compensation_started c),
    )
  ]

  nothing_no_start :
      (act : ActivationState) (c : CompensationStart) (rest : IdGen)
      → compensate_next ext s saga act error ids none ≢ ok (compensation_started c ∷ [], rest)
  unfolding compensate_next nothing_pending
  nothing_no_start act c rest h =
      ground (arith, fail_no_start act.scope (final_error s saga error) c)

  blocked_case :
      (act : ActivationState) (c : CompensationStart) (rest : IdGen)
      → Map.get saga s.activations ≡ some act
      → any (owned_in is_blocked saga) s.obligations ≡ true
      → compensate_or_fail ext s saga error ids ≢ ok (compensation_started c ∷ [], rest)
  unfolding compensate_or_fail
  blocked_case act c rest found blocked h = ground arith

  open_case :
      (act : ActivationState)
      → Map.get saga s.activations ≡ some act
      → any (owned_in is_blocked saga) s.obligations ≡ false
      → compensate_or_fail ext s saga error ids
        ≡ compensate_next ext s saga act error ids
            (last? (filter (owned_in is_open saga) s.obligations))
  unfolding compensate_or_fail
  open_case act found free = rw (found, free, compensate_or_fail) refl

  -- A compensation that a saga starts is of the last of its open obligations, with the handler and
  -- the input registered there, and no obligation of the saga is blocked.
  pub compensate_or_fail-IsNextCompensation :
      (c : CompensationStart) (rest : IdGen)
      → compensate_or_fail ext s saga error ids ≡ ok (compensation_started c ∷ [], rest)
      → IsNextCompensation s saga c
  compensate_or_fail-IsNextCompensation c rest e =
      elim (Option-cases (Map.get saga s.activations)) [
        | inl missing ↦ unfold compensate_or_fail in ground arith
        | inr (act, found) ↦ elim (Bool-cases (any (owned_in is_blocked saga) s.obligations)) [
          | inl blocked ↦ absurd (blocked_case act c rest found blocked e)
          | inr free ↦ elim (Option-cases (last? (filter (owned_in is_open saga) s.obligations))) [
            | inl nothing ↦
                absurd (nothing_no_start act c rest (cc (open_case act found free, nothing, e)))
            | inr (o, last) ↦
                let l = last-filter (owned_in is_open saga) s.obligations o last in
                let h : compensate_next ext s saga act error ids (some o)
                    ≡ ok (compensation_started c ∷ [], rest) =
                  cc (open_case act found free, last, e) in
                record {
                  act = act;
                  found = found;
                  none_blocked = free;
                  obligation = o;
                  before = l.before;
                  after = l.after;
                  split = l.split;
                  of_saga = l.passes;
                  none_later = l.none_after;
                  forward = unfold compensate_next in ground (arith, h);
                  handler = unfold compensate_next in ground (arith, h);
                  handler_version = unfold compensate_next in ground (arith, h);
                  input = unfold compensate_next in ground (arith, h);
                }
          ]
        ]
      ]
