-- ===== src/Domain/Progress/Items/Next.antt =====
-- graphrun/src/domain.rs: the item that `progress_foreach` opens.
use graphrun.Prelude.{
  ℕ, suc, ◌%◌, ◌^◌, ◌≤◌, ◌<◌, ◌≡◌, refl, sym, ◌∙◌, Bool, true, false, not, ◌||◌, Option, Eq, none,
  some, List, [], ◌∷◌, ◌==◌, nat_eq, option_eq, ltb, leb, arith, find, filter, length, All,
  Bool-cases, inl, inr, if◌then◌else◌,
}
use graphrun.Map.{Map}
use graphrun.Map
use graphrun.Error.{Result, ok, unwrap, refuse_if, invalid_argument, ◌>>=◌, >>=-eq-ok}
use graphrun.Value.{Value, Values}
use graphrun.Value.Pointer.{get_item}
use graphrun.Binding.{Binding}
use graphrun.Ir.{Region, FailError}
use graphrun.Externals.{Externals, IdGen, next_id}
use graphrun.Domain.Event.{DomainEvent, ScopeRole, scope_opened}
use graphrun.Domain.State.{State, ScopeState, ActivationState, is_opened_scope}
use graphrun.Domain.Eval.{EvalCtx, eval_ctx, eval_binding}
use graphrun.Domain.Evolve.Scopes.{open_scope}
use graphrun.Domain.Follow.{fail_scope}
use graphrun.Domain.Follow.Shapes.{All-append, fail_scope-All}
use graphrun.Domain.Progress.Bodies.{Step, children_of, open_body, finish}
use graphrun.Domain.Progress.Shapes.{ok_same, ok_events, OfStep, finish-All}
use graphrun.Domain.Progress.Items.{
  failure_of, has_failure, taken_of, next_index_of, fail_siblings, item_cancelled, open_children,
  items_done, open_item, foreach_children, progress_foreach, list_of, values_length, ordered_items,
}
use graphrun.Domain.Progress.Items.FirstFree.{IsFirstFree, next_index_of-IsFirstFree}

-- One more entry is at most one more that passes two tests.
filter-insert {ℓ κ} :
    {K : Type ℓ} {V : Type κ} ⦃e : Eq K⦄ (p q : V → Bool) (k : K) (v : V) (m : Map K V)
    → length (filter p (filter q (Map.values (Map.insert k v m))))
      ≤ suc (length (filter p (filter q (Map.values m))))
unfolding filter Map.values Map.insert
filter-insert p q k v [] = ground arith
filter-insert p q k v ((j, w) ∷ m) = ground (arith, filter-insert p q k v m)

unwrap-some {ℓ} : {A : Type ℓ} {o : Option A} {a : A} → unwrap o ≡ ok a → o ≡ some a
unwrap-some {o = none} h = cc h
unwrap-some {o = some x} h = cc h

list_of_array : (v : Value) (list : Values) → list_of v ≡ ok list → v ≡ Value.array list
list_of_array (Value.array items) list h = cc h
list_of_array Value.null list h = cc h
list_of_array (Value.bool b) list h = cc h
list_of_array (Value.int n) list h = cc h
list_of_array (Value.string t) list h = cc h
list_of_array (Value.object fields) list h = cc h

open_children-open_scope :
    (s : State) (run scope : ℕ) (parent : Option ℕ) (role : ScopeRole) (input : Value) (act : ℕ)
    → open_children (open_scope s run scope parent role input) act ≤ suc (open_children s act)
unfolding open_children children_of open_scope
open_children-open_scope s run scope parent role input act =
    filter-insert (λ c. is_opened_scope c.status) (λ c. c.parent == some act) scope _ s.scopes

-- The item that a step opens: the least index without a scope or an output, with the item of the
-- list there, where as many may be open besides those that are.
pub record IsNextItem (s : State) (act : ActivationState) (items : Values) (max_concurrency : ℕ)
    (run scope : ℕ) (parent : Option ℕ) (role : ScopeRole) (input : Value) : Type 0 where
  pub index : ℕ
  pub first_free : IsFirstFree (taken_of (children_of s act.id)) (items_done s act.id) index
  pub role_is : role ≡ ScopeRole.foreach_item act.id index
  pub item : get_item index items ≡ some input
  pub room : open_children (open_scope s run scope parent role input) act.id ≤ max_concurrency

abbrev pub OpensItem : State → ActivationState → Values → ℕ → DomainEvent → Type 0
OpensItem s act items limit (scope_opened run scope parent role input) =
    IsNextItem s act items limit run scope parent role input
OpensItem s act items limit _ = Unit {0}

module _ (ext : Externals) (s : State) (act : ActivationState) (list : Values) (limit : ℕ) where
  step_items : OfStep (OpensItem s act list limit)
  step_items = record {
    failing = record {
      closing = record { released = λ w e. tt; cancelled = λ r w. tt };
      scope_fails = λ r c e. tt;
      run_fails = λ r e. tt;
    };
    output = λ r c n v. tt;
    opens = λ r c a n. tt;
  }

  one_items :
      (scope : ℕ) (error : FailError) (events : List DomainEvent) (passed_over : Bool)
      → (if passed_over then ok [] else fail_scope s scope error) ≡ ok events
      → All (OpensItem s act list limit) events
  one_items scope error events true e = ok_events (OpensItem s act list limit) e tt
  one_items scope error events false e =
      fail_scope-All (OpensItem s act list limit) step_items.failing s scope error events e

  siblings_items :
      (failed : ℕ) (error : FailError) (children : List ScopeState) (events : List DomainEvent)
      → fail_siblings s failed error children ≡ ok events
      → All (OpensItem s act list limit) events
  unfolding fail_siblings
  siblings_items failed error [] events e = ok_events (OpensItem s act list limit) e tt
  siblings_items failed error (c ∷ cs) events e =
      let (now, failing, e1) =
        >>=-eq-ok
          (if c.id == failed || not (is_opened_scope c.status)
            then ok []
            else fail_scope s c.id error)
          _ {b = events} e in
      let (rest, later, done) = >>=-eq-ok (fail_siblings s failed error cs) _ {b = events} e1 in
      ok_events (OpensItem s act list limit) done (
        All-append (OpensItem s act list limit) now rest
          (one_items c.id error now (c.id == failed || not (is_opened_scope c.status)) failing)
          (siblings_items failed error cs rest later))

  opened_items :
      (body : Region) (ids : IdGen) (input : Value)
      → get_item (next_index_of (children_of s act.id) (items_done s act.id)) list ≡ some input
      → open_children s act.id < limit
      → All
          (OpensItem s act list limit)
          (open_body ext act
            (ScopeRole.foreach_item act.id
              (next_index_of (children_of s act.id) (items_done s act.id)))
            body
            input
            ids).0
  unfolding open_body
  opened_items body ids input there room =
      let index = next_index_of (children_of s act.id) (items_done s act.id) in
      let role = ScopeRole.foreach_item act.id index in
      let scope = (next_id ext ids).0 in
      (
        record {
          index = index;
          first_free = next_index_of-IsFirstFree (children_of s act.id) (items_done s act.id);
          role_is = refl;
          item = there;
          room = omega (
            arith,
            room,
            open_children-open_scope s act.run scope (some act.id) role input act.id,
          );
        },
        (tt, tt),
      )

  open_item_opens :
      (body : Region) (ids : IdGen) (step : Step)
      → open_item ext s act list limit body ids ≡ ok step
      → All (OpensItem s act list limit) step.0
  unfolding open_item
  open_item_opens body ids step e =
      let index = next_index_of (children_of s act.id) (items_done s act.id) in
      elim (Bool-cases (leb limit (open_children s act.id) || leb (values_length list) index)) [
        | inl idle ↦
            ok_same (λ z. All (OpensItem s act list limit) z.0) {p = ([], ids)} {q = step}
              (sym (rw (idle) refl) ∙ e) tt
        | inr busy ↦
            let (input, there, done) =
              >>=-eq-ok (unwrap (get_item index list))
                (λ input.
                  ok (open_body ext act (ScopeRole.foreach_item act.id index) body input ids))
                {b = step} (sym (rw (busy) refl) ∙ e) in
            ok_same (λ z. All (OpensItem s act list limit) z.0)
              {p = open_body ext act (ScopeRole.foreach_item act.id index) body input ids}
              {q = step} done (opened_items body ids input (unwrap-some there) (ground arith))
      ]

  children_items :
      (body : Region) (ids : IdGen) (failed : Option ScopeState) (step : Step)
      → foreach_children ext s act list limit body ids failed ≡ ok step
      → All (OpensItem s act list limit) step.0
  unfolding foreach_children
  children_items body ids none step e = open_item_opens body ids step e
  children_items body ids (some failed) step e =
      let (error, failing, e1) = >>=-eq-ok (unwrap (failure_of failed.status)) _ {b = step} e in
      let (siblings, cancelled, e2) =
        >>=-eq-ok (fail_siblings s failed.id item_cancelled (children_of s act.id)) _ {b = step}
          e1 in
      let (events, done, e3) = >>=-eq-ok (fail_scope s act.scope error) _ {b = step} e2 in
      ok_same (λ z. All (OpensItem s act list limit) z.0) e3
        (All-append (OpensItem s act list limit) siblings events
          (siblings_items failed.id item_cancelled (children_of s act.id) siblings cancelled)
          (fail_scope-All (OpensItem s act list limit) step_items.failing s act.scope error events
            done))

  -- The rest of a step, once the items are known.
  abbrev with_items : Region → IdGen → Result Step
  with_items body ids =
      if values_length list == 0
      then finish ext s act (Value.array Values.nil) ids
      else (if length (items_done s act.id) == values_length list
          then (ordered_items (values_length list) 0 (items_done s act.id) >>= λ ordered.
              finish ext s act (Value.array ordered) ids)
          else foreach_children ext s act list limit body ids
              (find has_failure (children_of s act.id)))

  with_items_opens :
      (body : Region) (ids : IdGen) (step : Step)
      → with_items body ids ≡ ok step
      → All (OpensItem s act list limit) step.0
  with_items_opens body ids step e = elim (Bool-cases (values_length list == 0)) [
    | inl empty ↦
        finish-All (OpensItem s act list limit) step_items s ext act (Value.array Values.nil) ids
          step (sym (rw (empty) refl) ∙ e)
    | inr some_items ↦ elim (Bool-cases (length (items_done s act.id) == values_length list)) [
      | inl full ↦
          let (ordered, there, done) =
            >>=-eq-ok (ordered_items (values_length list) 0 (items_done s act.id))
              (λ ordered. finish ext s act (Value.array ordered) ids) {b = step}
              (sym (rw (some_items, full) refl) ∙ e) in
          finish-All (OpensItem s act list limit) step_items s ext act (Value.array ordered) ids
            step done
      | inr more ↦
          children_items body ids (find has_failure (children_of s act.id)) step
            (sym (rw (some_items, more) refl) ∙ e)
    ]
  ]

module _ (ext : Externals) (s : State) (act : ActivationState) where
  -- What a foreach works on, and the items that its step opens.
  pub record IsForeachStep (items : Binding) (limit : ℕ) (events : List DomainEvent) : Type 0 where
    pub scope : ScopeState
    pub ctx : EvalCtx
    pub list : Values
    pub at_scope : Map.get act.scope s.scopes ≡ some scope
    pub in_ctx : eval_ctx ext s scope ≡ ok ctx
    pub evaluated : eval_binding items ctx ≡ ok (Value.array list)
    pub opened : All (OpensItem s act list limit) events

  -- An item that a step of a foreach opens has the least index that no item has yet, its input is
  -- the element of the evaluated list there, and once it is open no more items are open than the
  -- concurrency limit allows.
  pub progress_foreach-IsForeachStep :
      (items : Binding) (max_items limit : ℕ) (body : Region) (ids : IdGen) (step : Step)
      → progress_foreach ext s act items max_items limit body ids ≡ ok step
      → IsForeachStep items limit step.0
  unfolding progress_foreach
  progress_foreach-IsForeachStep items max_items limit body ids step e =
      let (scope, found, e1) = >>=-eq-ok (unwrap (Map.get act.scope s.scopes)) _ {b = step} e in
      let (ctx, made, e2) = >>=-eq-ok (eval_ctx ext s scope) _ {b = step} e1 in
      let (value, bound, e3) = >>=-eq-ok (eval_binding items ctx) _ {b = step} e2 in
      let (list, listed, e4) = >>=-eq-ok (list_of value) _ {b = step} e3 in
      let (checked, small, e5) =
        >>=-eq-ok
          (refuse_if (ltb max_items (values_length list % 2 ^ 32)) invalid_argument
            "foreach exceeds max_items")
          _ {b = step} e4 in
      record {
        scope = scope;
        ctx = ctx;
        list = list;
        at_scope = unwrap-some found;
        in_ctx = made;
        evaluated = cc (bound, list_of_array value list listed);
        opened = with_items_opens ext s act list limit body ids step e5;
      }
