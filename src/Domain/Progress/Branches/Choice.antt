-- ===== src/Domain/Progress/Branches/Choice.antt =====
-- graphrun/src/domain.rs: the case that `progress_choose` opens, and the region that its scope runs.
use graphrun.Prelude.{
  ℕ, String, ◌≡◌, refl, sym, ap, ◌∙◌, Bool, true, false, not, ◌&&◌, some, List, [], ◌∷◌, ◌==◌,
  string_eq, contains, ==_refl, if◌then◌else◌, Bool-cases, inl, inr, ◌⊎◌, arith,
}
use mathlib.Core.Path.{subst}
use graphrun.Error.{ok, >>=-eq-ok}
use graphrun.Binding.{Binding, Condition}
use graphrun.Ir.{Region, Node, Cases, find_case}
use graphrun.Domain.Event.{ScopeRole}
use graphrun.Domain.Eval.{EvalCtx, eval_condition}
use graphrun.Domain.Region.{body_of}
use graphrun.Domain.Progress.Branches.{choose_case}

-- The choice that the conditions make: the first one that holds, with those before it evaluated to
-- false, or the default where all are.
pub data Chooses (ctx : EvalCtx) (default : Region) : Cases → String → Region → Type 0 where
  by_default : Chooses ctx default Cases.no_cases "default" default
  holds_here :
      {name : String} {when : Condition} {body : Region} {cs : Cases}
      → eval_condition when ctx ≡ ok true
      → Chooses ctx default (Cases.with_case name when body cs) name body
  holds_later :
      {name other : String} {when : Condition} {body chosen : Region} {cs : Cases}
      → eval_condition when ctx ≡ ok false
      → Chooses ctx default cs name chosen
      → Chooses ctx default (Cases.with_case other when body cs) name chosen

abbrev pub case_names : Cases → List String
case_names Cases.no_cases = []
case_names (Cases.with_case name when body cs) = name ∷ case_names cs

abbrev pub distinct_names : List String → Bool
distinct_names [] = true
distinct_names (n ∷ ns) = not (contains ns n) && distinct_names ns

abbrev default_name : String
default_name = "default"

module _ (ctx : EvalCtx) (default : Region) where
  case_true :
      (name : String) (when : Condition) (body : Region) (cs : Cases)
      → eval_condition when ctx ≡ ok true
      → choose_case (Cases.with_case name when body cs) default ctx ≡ ok (name, body)
  unfolding choose_case
  case_true name when body cs h = rw (h, choose_case) refl

  case_false :
      (name : String) (when : Condition) (body : Region) (cs : Cases)
      → eval_condition when ctx ≡ ok false
      → choose_case (Cases.with_case name when body cs) default ctx ≡ choose_case cs default ctx
  unfolding choose_case
  case_false name when body cs h = rw (h, choose_case) refl

  for_choice :
      (P : String → Region → Type 0) {p q : String × Region} → ok p ≡ ok q → P p.0 p.1 → P q.0 q.1
  for_choice P {p} {q} e h = let same : p ≡ q = cc e in subst (λ z. P z.0 z.1) same h

  chooses :
      (cs : Cases) (name : String) (body : Region)
      → choose_case cs default ctx ≡ ok (name, body)
      → Chooses ctx default cs name body
  unfolding choose_case
  chooses Cases.no_cases name body e =
      for_choice (Chooses ctx default Cases.no_cases) {p = ("default", default)} {q = (name, body)}
        e by_default
  chooses (Cases.with_case other when r cs) name body e =
      let (held, evaluated, rest) = >>=-eq-ok (eval_condition when ctx) _ {b = (name, body)} e in
      elim (Bool-cases held) [
        | inl passes ↦
            let h : eval_condition when ctx ≡ ok true = cc (evaluated, passes) in
            for_choice (Chooses ctx default (Cases.with_case other when r cs)) {p = (other, r)}
              {q = (name, body)} (sym (case_true other when r cs h) ∙ e) (holds_here h)
        | inr fails ↦
            let h : eval_condition when ctx ≡ ok false = cc (evaluated, fails) in
            holds_later h (chooses cs name body (sym (case_false other when r cs h) ∙ e))
      ]

  clash :
      (ns : List String) (n : String) → distinct_names (n ∷ ns) ≡ true → contains ns n ≡ true → ⊥
  clash ns n distinct has = ground arith

  -- The name leads back to the chosen body.
  named :
      (cs : Cases) (name : String) (body : Region)
      → distinct_names (case_names cs) ≡ true
      → Chooses ctx default cs name body
      → ((name ≡ "default") × (body ≡ default))
        ⊎ ((find_case name cs ≡ some body) × (contains (case_names cs) name ≡ true))
  unfolding find_case contains
  named cs name body distinct by_default = inl (refl, refl)
  named (Cases.with_case n when b cs) name body distinct (holds_here h) =
      let same : (n == n) ≡ true = ==_refl n in inr (rw (same) refl, rw (same) refl)
  named (Cases.with_case other when b cs) name body distinct (holds_later h rest) =
      elim (named cs name body (ground arith) rest) [
        | inl d ↦ inl d
        | inr (found, has) ↦ elim (Bool-cases (other == name)) [
          | inr differs ↦ inr (rw (differs) found, rw (differs) has)
          | inl same ↦
              let at_other : contains (case_names cs) other ≡ true =
                subst (λ x. contains (case_names cs) x ≡ true)
                  (sym ((string_eq.beq_iff other name).0 same)) has in
              absurd (clash (case_names cs) other distinct at_other)
        ]
      ]

  -- A choice between cases of distinct names, none of them called "default", goes by the first
  -- condition that holds, and in a scope that is opened under the chosen name the node's region is
  -- the body of that case.
  pub choose_case-Chooses :
      (input : Binding) (cs : Cases) (next : String) (activation : ℕ) (name : String)
      (body : Region)
      → distinct_names ("default" ∷ case_names cs) ≡ true
      → choose_case cs default ctx ≡ ok (name, body)
      → Chooses ctx default cs name body
        × (body_of (ScopeRole.choose_body activation name) (Node.choose input cs default next)
            ≡ some body)
  unfolding body_of
  choose_case-Chooses input cs next activation name body distinct e =
      let way = chooses cs name body e in
      (
        way,
        elim (named cs name body (ground arith) way) [
          | inl (is_default, same) ↦
              subst (λ n. (if n == default_name then some default else find_case n cs) ≡ some body)
                (sym is_default) (ap some (sym same))
          | inr (found, has) ↦ elim (Bool-cases (name == default_name)) [
            | inr differs ↦ rw (differs) found
            | inl same ↦
                let at_default : contains (case_names cs) default_name ≡ true =
                  subst (λ x. contains (case_names cs) x ≡ true)
                    ((string_eq.beq_iff name default_name).0 same) has in
                absurd (clash (case_names cs) default_name distinct at_default)
          ]
        ],
      )
