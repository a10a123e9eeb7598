-- ===== src/Domain/Progress/Rounds.antt =====
-- graphrun/src/domain.rs: the events of `decide_progress` are a run of rounds.
use graphrun.Prelude.{
  ℕ, zero, suc, ◌≤◌, ◌≡◌, refl, sym, ap, ◌∙◌, none, some, List, [], ◌∷◌, ◌++◌, arith, Option-cases,
  inl, inr,
}
use mathlib.Core.Logic.{◌⊎◌}
use mathlib.Core.Path.{subst}
use graphrun.Error.{Result, ok, err, panic, ◌>>=◌, >>=-eq-ok}
use graphrun.Externals.{Externals, IdGen}
use graphrun.Domain.Event.{DomainEvent}
use graphrun.Domain.State.{State}
use graphrun.Domain.Evolve.{apply_events, evolve, event_owner}
use graphrun.Domain.Progress.Bodies.{Step}
use graphrun.Domain.Progress.{next_progress, rounds, decide_progress, go_on}

pub apply_events-append :
    (s : State) (es fs : List DomainEvent)
    → apply_events s (es ++ fs) ≡ (apply_events s es >>= λ t. apply_events t fs)
unfolding apply_events
apply_events-append s [] fs = refl
apply_events-append s (e ∷ es) fs =
    go (λ t. apply_events-append t es fs) (event_owner s e) (evolve s e)
  where
    go :
        {A : Type 0}
        → ((t : State) → apply_events t (es ++ fs) ≡ (apply_events t es >>= λ u. apply_events u fs))
        → (owner : Result A) (moved : Result State)
        → (owner >>= λ x. moved >>= λ t. apply_events t (es ++ fs))
          ≡ ((owner >>= λ x. moved >>= λ t. apply_events t es) >>= λ t. apply_events t fs)
    go rest panic moved = refl
    go rest (err failure) moved = refl
    go rest (ok x) panic = refl
    go rest (ok x) (err failure) = refl
    go rest (ok x) (ok t) = rest t

module _ (ext : Externals) (run time : ℕ) where
  -- So many rounds of progress in a row: each applies its events, and takes the ids that the one
  -- before it left.
  pub data Rounds : ℕ → State → IdGen → List DomainEvent → State → IdGen → Type 0 where
    rest_here : {s : State} {ids : IdGen} → Rounds 0 s ids [] s ids
    one_round :
        {n : ℕ} {s t u : State} {ids ids1 ids2 : IdGen} {events more : List DomainEvent}
        → next_progress ext s run time ids ≡ ok (some events, ids1)
        → apply_events s events ≡ ok t
        → Rounds n t ids1 more u ids2
        → Rounds (suc n) s ids (events ++ more) u ids2

  -- Rounds that go on until no progress is left, or until the limit.
  pub record IsProgress (limit : ℕ) (s : State) (ids : IdGen) (events : List DomainEvent)
      (rest : IdGen) : Type 0 where
    pub number : ℕ
    pub reached : State
    pub left : IdGen
    pub within : number ≤ limit
    pub made : Rounds number s ids events reached left
    pub replays : apply_events s events ≡ ok reached
    pub stops :
        ((number ≡ limit) × (rest ≡ left))
        ⊎ (next_progress ext reached run time left ≡ ok (none, rest))

  round_zero : (s : State) (ids : IdGen) → rounds ext run time 0 s ids ≡ ok ([], ids)
  unfolding rounds
  round_zero s ids = refl

  round_suc :
      (n : ℕ) (s : State) (ids : IdGen)
      → rounds ext run time (suc n) s ids ≡ (
          next_progress ext s run time ids
          >>= go_on ext run time s (λ t left. rounds ext run time n t left))
  unfolding rounds
  round_suc n s ids = refl

  round_none :
      (n : ℕ) (s : State) (ids rest : IdGen)
      → next_progress ext s run time ids ≡ ok (none, rest)
      → rounds ext run time (suc n) s ids ≡ ok ([], rest)
  unfolding rounds
  round_none n s ids rest h = rw (h, rounds) refl

  round_some :
      (n : ℕ) (s : State) (ids rest : IdGen) (es : List DomainEvent)
      → next_progress ext s run time ids ≡ ok (some es, rest)
      → rounds ext run time (suc n) s ids ≡ (
          apply_events s es >>= λ t.
          rounds ext run time n t rest >>= λ more. ok (es ++ more.0, more.1))
  unfolding rounds
  round_some n s ids rest es h = rw (h, rounds) refl

  for_same :
      (P : List DomainEvent → IdGen → Type 0) {p q : Step} → ok p ≡ ok q → P p.0 p.1 → P q.0 q.1
  for_same P {p} {q} e h = let same : p ≡ q = cc e in subst (λ z. P z.0 z.1) same h

  no_round : (s : State) (ids : IdGen) → IsProgress 0 s ids [] ids
  unfolding apply_events
  no_round s ids = record {
    number = 0;
    reached = s;
    left = ids;
    within = omega arith;
    made = rest_here;
    replays = refl;
    stops = inl (refl, refl);
  }

  nothing_left :
      (n : ℕ) (s : State) (ids rest : IdGen)
      → next_progress ext s run time ids ≡ ok (none, rest)
      → IsProgress n s ids [] rest
  unfolding apply_events
  nothing_left n s ids rest h = record {
    number = 0;
    reached = s;
    left = ids;
    within = omega arith;
    made = rest_here;
    replays = refl;
    stops = inr h;
  }

  one_more :
      (n : ℕ) (s t : State) (ids ids1 rest : IdGen) (es more : List DomainEvent)
      → next_progress ext s run time ids ≡ ok (some es, ids1)
      → apply_events s es ≡ ok t
      → IsProgress n t ids1 more rest
      → IsProgress (suc n) s ids (es ++ more) rest
  one_more n s t ids ids1 rest es more h applied p = record {
    number = suc p.number;
    reached = p.reached;
    left = p.left;
    within = omega (arith, p.within);
    made = one_round h applied p.made;
    replays = apply_events-append s es more ∙ (rw (applied) p.replays);
    stops = elim p.stops [ inl (full, same) ↦ inl (ap suc full, same) | inr idle ↦ inr idle ];
  }

  rounds-IsProgress :
      (n : ℕ) (s : State) (ids : IdGen) (events : List DomainEvent) (rest : IdGen)
      → rounds ext run time n s ids ≡ ok (events, rest)
      → IsProgress n s ids events rest
  rounds-IsProgress zero s ids events rest e =
      for_same (IsProgress 0 s ids) {p = ([], ids)} {q = (events, rest)}
        (sym (round_zero s ids) ∙ e) (no_round s ids)
  rounds-IsProgress (suc n) s ids events rest e =
      let (r, h, _) =
        >>=-eq-ok (next_progress ext s run time ids)
          (go_on ext run time s (λ t left. rounds ext run time n t left)) {b = (events, rest)}
          (sym (round_suc n s ids) ∙ e) in
      elim (Option-cases r.0) [
        | inl nothing ↦
            let idle : next_progress ext s run time ids ≡ ok (none, r.1) = cc (h, nothing) in
            for_same (IsProgress (suc n) s ids) (sym (round_none n s ids r.1 idle) ∙ e)
              (nothing_left (suc n) s ids r.1 idle)
        | inr (es, found) ↦
            let step : next_progress ext s run time ids ≡ ok (some es, r.1) = cc (h, found) in
            let (t, applied, e1) =
              >>=-eq-ok (apply_events s es) _ {b = (events, rest)}
                (sym (round_some n s ids r.1 es step) ∙ e) in
            let (more, made, e2) =
              >>=-eq-ok (rounds ext run time n t r.1) _ {b = (events, rest)} e1 in
            for_same (IsProgress (suc n) s ids) e2 (
              one_more n s t ids r.1 more.1 es more.0 step applied
                (rounds-IsProgress n t r.1 more.0 more.1 made))
      ]

  -- What is decided of a run's progress is the events of rounds in a row, at most 32 of them, and
  -- applying these events from the start leads to the state that the rounds reached; after fewer
  -- than 32 rounds no progress is left there.
  pub decide_progress-IsProgress :
      (s : State) (ids : IdGen) (events : List DomainEvent) (rest : IdGen)
      → decide_progress ext run time s ids ≡ ok (events, rest)
      → IsProgress 32 s ids events rest
  unfolding decide_progress
  decide_progress-IsProgress s ids events rest e = rounds-IsProgress 32 s ids events rest e
