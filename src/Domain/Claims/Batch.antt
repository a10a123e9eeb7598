-- ===== src/Domain/Claims/Batch.antt =====
-- graphrun/src/domain.rs: what a batch of claims contains.
use graphrun.Prelude.{
  ℕ, zero, suc, ◌≡◌, refl, Bool, true, false, Option, none, some, List, [], ◌∷◌, ◌++◌, map, leb,
  nat_eq, arith, length, All, Bool-cases, inl, inr, filter, contains, sym, ◌∙◌,
}
use mathlib.Core.Path.{subst}
use mathlib.Core.Logic.{◌⊎◌}
use graphrun.Map
use graphrun.Error.{Result, ok, ◌>>=◌, >>=-eq-ok}
use graphrun.Externals.{Externals}
use graphrun.Domain.Event.{Grant}
use graphrun.Domain.State.{State, ActivationState, WorkerSession}
use graphrun.Domain.Ready.{unclaimed_ready, is_unclaimed, ready_activations}
use graphrun.Domain.Claims.{
  select, grant_for, grant_found, grant_selected, claim_pass, claim_loop, next_pass, sort_by,
  insert_by, offered_before,
}

module _ {ℓ} (P : ℕ → Type ℓ) where
  insert_by-All :
      (before : ℕ → ℕ → Bool) (x : ℕ) (xs : List ℕ) → P x → All P xs → All P (insert_by before x xs)
  unfolding insert_by
  insert_by-All before x [] p h = (p, tt)
  insert_by-All before x (y ∷ ys) p h = elim (Bool-cases (before x y)) [
    | inl first ↦ rw (first, insert_by) (p, h)
    | inr later ↦ rw (later, insert_by) (h.0, insert_by-All before x ys p h.1)
  ]

  sort_by-All : (before : ℕ → ℕ → Bool) (xs : List ℕ) → All P xs → All P (sort_by before xs)
  unfolding sort_by
  sort_by-All before [] h = tt
  sort_by-All before (x ∷ xs) h =
      insert_by-All before x (sort_by before xs) h.0 (sort_by-All before xs h.1)

filter-All {ℓ} : {A : Type ℓ} (p : A → Bool) (xs : List A) → All (λ x. p x ≡ true) (filter p xs)
unfolding filter
filter-All p [] = tt
filter-All p (x ∷ xs) = elim (Bool-cases (p x)) [
  | inl kept ↦ rw (kept, filter) (kept, filter-All p xs)
  | inr dropped ↦ rw (dropped, filter) (filter-All p xs)
]

module _ (ext : Externals) (s : State) (worker : WorkerSession) (session time cap : ℕ) where
  select_step :
      (run : ℕ) (granted : List ℕ) (x : ℕ) (xs : List ℕ) (id : ℕ)
      → select ext s worker run time granted (x ∷ xs) ≡ ok (some id)
      → ((x ≡ id) × (contains granted x ≡ false))
        ⊎ (select ext s worker run time granted xs ≡ ok (some id))
  unfolding select
  select_step run granted x xs id e = ground arith

  -- What is selected is among the candidates, and not granted yet.
  select_ok {ℓ} :
      (P : ℕ → Type ℓ) (run : ℕ) (granted ids : List ℕ) (id : ℕ)
      → All P ids
      → select ext s worker run time granted ids ≡ ok (some id)
      → P id × (contains granted id ≡ false)
  select_ok P run granted [] id h e = unfold select in cc
  select_ok P run granted (x ∷ xs) id h e = elim (select_step run granted x xs id e) [
    | inl (same, fresh) ↦ (subst P same h.0, subst (λ y. contains granted y ≡ false) same fresh)
    | inr later ↦ select_ok P run granted xs id h.1 later
  ]

  abbrev pub chosen : ℕ → List Grant → Result (Option ℕ)
  chosen run granted =
      select ext s worker run time (map (λ g. g.activation) granted)
        (sort_by (offered_before s) (unclaimed_ready s run time))

  abbrev pub go_on : ℕ → List ℕ → List Grant → Bool → Option ℕ → Result (List Grant × Bool)
  go_on run runs granted progressed selected =
      grant_selected ext s session time (length granted) run selected
        (claim_pass ext s worker session time cap runs granted progressed)
        (λ g. claim_pass ext s worker session time cap runs (granted ++ g ∷ []) true)

  pub pass_room :
      (run : ℕ) (runs : List ℕ) (granted : List Grant) (progressed : Bool)
      → leb cap (length granted) ≡ false
      → claim_pass ext s worker session time cap (run ∷ runs) granted progressed
        ≡ (chosen run granted >>= go_on run runs granted progressed)
  unfolding claim_pass
  pass_room run runs granted progressed room = rw (room, claim_pass) refl

  pub pass_full :
      (run : ℕ) (runs : List ℕ) (granted : List Grant) (progressed : Bool)
      → leb cap (length granted) ≡ true
      → claim_pass ext s worker session time cap (run ∷ runs) granted progressed
        ≡ ok (granted, progressed)
  unfolding claim_pass
  pass_full run runs granted progressed full = rw (full, claim_pass) refl

  pub pass_none :
      (granted : List Grant) (progressed : Bool)
      → claim_pass ext s worker session time cap [] granted progressed ≡ ok (granted, progressed)
  unfolding claim_pass
  pass_none granted progressed = refl

  abbrev pub after_pass : ℕ → List ℕ → List Grant × Bool → Result (List Grant)
  after_pass fuel runs r = next_pass ext (claim_loop ext fuel s worker session time cap runs r.0) r

  pub loop_room :
      (fuel : ℕ) (runs : List ℕ) (granted : List Grant)
      → leb cap (length granted) ≡ false
      → claim_loop ext (suc fuel) s worker session time cap runs granted
        ≡ (claim_pass ext s worker session time cap runs granted false >>= after_pass fuel runs)
  unfolding claim_loop
  loop_room fuel runs granted room = rw (room, claim_loop) refl

  pub loop_full :
      (fuel : ℕ) (runs : List ℕ) (granted : List Grant)
      → leb cap (length granted) ≡ true
      → claim_loop ext (suc fuel) s worker session time cap runs granted ≡ ok granted
  unfolding claim_loop
  loop_full fuel runs granted full = rw (full, claim_loop) refl

  next_pass_cases :
      (q : List Grant × Bool) (more : Result (List Grant)) (r : List Grant)
      → next_pass ext more q ≡ ok r
      → (q.0 ≡ r) ⊎ (more ≡ ok r)
  next_pass_cases (n, true) more r h = inr h
  next_pass_cases (n, false) more r h = inl (cc)

  -- An invariant of the grants made so far, kept by each one more.
  module _ {ℓ} (P : List Grant → Type ℓ)
      (keep : (granted : List Grant) (run activation : ℕ) (act : ActivationState) (g : Grant)
        → P granted
        → leb cap (length granted) ≡ false
        → is_unclaimed s time activation ≡ true
        → contains (map (λ x. x.activation) granted) activation ≡ false
        → Map.get activation s.activations ≡ some act
        → grant_for ext s session time (length granted) run activation act ≡ ok g
        → P (granted ++ g ∷ [])) where
    found_inv :
        (run activation : ℕ) (granted : List Grant) (found : Option ActivationState)
        (skip : Result (List Grant × Bool)) (more : Grant → Result (List Grant × Bool))
        (r : List Grant × Bool)
        → P granted
        → leb cap (length granted) ≡ false
        → is_unclaimed s time activation ≡ true
        → contains (map (λ x. x.activation) granted) activation ≡ false
        → Map.get activation s.activations ≡ found
        → (skip ≡ ok r → P r.0)
        → ((g : Grant) → P (granted ++ g ∷ []) → more g ≡ ok r → P r.0)
        → grant_found ext s session time (length granted) run activation found skip more ≡ ok r
        → P r.0
    unfolding grant_found
    found_inv run activation granted none skip more r p room free fresh e on_skip on_more h =
        on_skip h
    found_inv run activation granted (some act) skip more r p room free fresh e on_skip on_more h =
        let (g, eg, rest) =
          >>=-eq-ok (grant_for ext s session time (length granted) run activation act) more h in
        on_more g (keep granted run activation act g p room free fresh e eg) rest

    candidates :
        (run : ℕ)
        → All
            (λ id. is_unclaimed s time id ≡ true)
            (sort_by (offered_before s) (unclaimed_ready s run time))
    candidates run =
        sort_by-All _ (offered_before s) (unclaimed_ready s run time)
          (unfold unclaimed_ready in filter-All (is_unclaimed s time) (ready_activations s run))

    selected_inv :
        (run : ℕ) (granted : List Grant) (selected : Option ℕ) (skip : Result (List Grant × Bool))
        (more : Grant → Result (List Grant × Bool)) (r : List Grant × Bool)
        → P granted
        → leb cap (length granted) ≡ false
        → select ext s worker run time
            (map (λ g. g.activation) granted)
            (sort_by (offered_before s) (unclaimed_ready s run time))
          ≡ ok selected
        → (skip ≡ ok r → P r.0)
        → ((g : Grant) → P (granted ++ g ∷ []) → more g ≡ ok r → P r.0)
        → grant_selected ext s session time (length granted) run selected skip more ≡ ok r
        → P r.0
    unfolding grant_selected
    selected_inv run granted none skip more r p room e on_skip on_more h = on_skip h
    selected_inv run granted (some activation) skip more r p room e on_skip on_more h =
        let (free, fresh) =
          select_ok (λ id. is_unclaimed s time id ≡ true) run (map (λ g. g.activation) granted)
            (sort_by (offered_before s) (unclaimed_ready s run time)) activation (candidates run)
            e in
        found_inv run activation granted (Map.get activation s.activations) skip more r p room free
          fresh refl on_skip on_more h

    pass_inv :
        (runs : List ℕ) (granted : List Grant) (progressed : Bool) (r : List Grant × Bool)
        → P granted
        → claim_pass ext s worker session time cap runs granted progressed ≡ ok r
        → P r.0
    pass_inv [] granted progressed r p e =
        let same : (granted, progressed) ≡ r = cc (pass_none granted progressed) in
        subst (λ (x : List Grant × Bool). P x.0) same p
    pass_inv (run ∷ runs) granted progressed r p e = elim (Bool-cases (leb cap (length granted))) [
      | inl full ↦
          let same : (granted, progressed) ≡ r = cc (pass_full run runs granted progressed full) in
          subst (λ (x : List Grant × Bool). P x.0) same p
      | inr room ↦
          let (selected, es, h) =
            >>=-eq-ok (chosen run granted) (go_on run runs granted progressed) {b = r}
              (sym (pass_room run runs granted progressed room) ∙ e) in
          selected_inv run granted selected
            (claim_pass ext s worker session time cap runs granted progressed)
            (λ g. claim_pass ext s worker session time cap runs (granted ++ g ∷ []) true) r p room
            es (λ q. pass_inv runs granted progressed r p q)
            (λ g pg q. pass_inv runs (granted ++ g ∷ []) true r pg q) h
    ]

    pub loop_inv :
        (fuel : ℕ) (runs : List ℕ) (granted r : List Grant)
        → P granted
        → claim_loop ext fuel s worker session time cap runs granted ≡ ok r
        → P r
    loop_inv zero runs granted r p e =
        let same : granted ≡ r = unfold claim_loop in cc in subst P same p
    loop_inv (suc fuel) runs granted r p e = elim (Bool-cases (leb cap (length granted))) [
      | inl full ↦ let same : granted ≡ r = cc (loop_full fuel runs granted full) in subst P same p
      | inr room ↦
          let (q, eq, h) =
            >>=-eq-ok (claim_pass ext s worker session time cap runs granted false)
              (after_pass fuel runs) {b = r} (sym (loop_room fuel runs granted room) ∙ e) in
          let pq = pass_inv runs granted false q p eq in
          elim (next_pass_cases q (claim_loop ext fuel s worker session time cap runs q.0) r h) [
            | inl same ↦ subst P same pq
            | inr more ↦ loop_inv fuel runs q.0 r pq more
          ]
    ]
