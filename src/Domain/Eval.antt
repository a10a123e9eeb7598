-- ===== src/Domain/Eval.antt =====
-- graphrun/src/domain.rs: the context of a scope, and the evaluation of bindings and conditions.
use graphrun.Prelude.{
  ℕ, String, Bool, true, false, not, Option, none, some, ◌==◌, nat_eq, string_eq, ℤ, pos, ltb_ℤ,
  leb_ℤ, if◌then◌else◌,
}
use graphrun.Map.{Map}
use graphrun.Map
use graphrun.Error.{Result, ok, err, panic, unwrap, invalid, invalid_argument, or_fail, ◌>>=◌}
use graphrun.Value.{Value, Values, Fields}
use graphrun.Value.Equality.{value_eq}
use graphrun.Value.Pointer.{pointer}
use graphrun.Binding.{Reference, Binding, Bindings, BindingFields, Condition, Conditions}
use graphrun.Externals.{Externals, to_hex}
use graphrun.Domain.Event.{ScopeRole}
use graphrun.Domain.State.{State, ScopeState}

pub record EvalCtx : Type 0 where
  pub workflow_input : Value
  pub scope_input : Value
  pub scope_id : String
  pub node_outputs : Map String Value
  pub loop_state : Option Value
  pub loop_index : Option ℤ
  pub item_value : Option Value
  pub item_index : Option ℤ
  pub forward_input : Option Value
  pub forward_output : Option Value

abbrev carry_or : Option (Value × ℕ) → Value → Value
carry_or none input = input
carry_or (some (v, n)) input = v

abbrev role_loop_state : State → ScopeState → ScopeRole → Option Value
role_loop_state s scope (ScopeRole.loop_body activation index) =
    some (carry_or (Map.get activation s.loop_carry) scope.input)
role_loop_state s scope _ = none

abbrev role_loop_index : ScopeRole → Option ℤ
role_loop_index (ScopeRole.loop_body activation index) = some (pos index)
role_loop_index _ = none

abbrev role_item_value : ScopeState → ScopeRole → Option Value
role_item_value scope (ScopeRole.foreach_item activation index) = some scope.input
role_item_value scope _ = none

abbrev role_item_index : ScopeRole → Option ℤ
role_item_index (ScopeRole.foreach_item activation index) = some (pos index)
role_item_index _ = none

unfoldable pub eval_ctx : Externals → State → ScopeState → Result EvalCtx
eval_ctx ext s scope = do
  run ← unwrap (Map.get scope.run s.runs)
  ok (record {
    workflow_input = run.input;
    scope_input = scope.input;
    scope_id = to_hex ext scope.id;
    node_outputs = scope.outputs;
    loop_state = role_loop_state s scope scope.role;
    loop_index = role_loop_index scope.role;
    item_value = role_item_value scope scope.role;
    item_index = role_item_index scope.role;
    forward_input = none;
    forward_output = none;
  })

abbrev int_or : Option ℤ → String → Result Value
int_or none message = invalid message
int_or (some n) message = ok (Value.int n)

unfoldable pub eval_ref : Reference → EvalCtx → Result Value
eval_ref Reference.workflow_input c = ok c.workflow_input
eval_ref Reference.scope_input c = ok c.scope_input
eval_ref Reference.scope_id c = ok (Value.string c.scope_id)
eval_ref (Reference.node_output node) c =
    or_fail (Map.get node c.node_outputs) invalid_argument "missing output {}"
eval_ref Reference.loop_state c =
    or_fail c.loop_state invalid_argument "loop.state is not in context"
eval_ref Reference.loop_index c = int_or c.loop_index "loop.index is not in context"
eval_ref Reference.item_value c =
    or_fail c.item_value invalid_argument "item.value is not in context"
eval_ref Reference.item_index c = int_or c.item_index "item.index is not in context"
eval_ref Reference.forward_input c =
    or_fail c.forward_input invalid_argument "forward.input is not in context"
eval_ref Reference.forward_output c =
    or_fail c.forward_output invalid_argument "forward.output is not in context"

abbrev follow : Option String → Value → Result Value
follow none v = ok v
follow (some path) v = pointer v path

unfoldable mutual
  pub eval_binding : Binding → EvalCtx → Result Value
  eval_binding (Binding.literal value) c = ok value
  eval_binding (Binding.from reference path) c = do v ← eval_ref reference c; follow path v
  eval_binding (Binding.object fields) c = do out ← eval_fields fields c; ok (Value.object out)
  eval_binding (Binding.array items) c = do out ← eval_items items c; ok (Value.array out)

  pub eval_items : Bindings → EvalCtx → Result Values
  eval_items Bindings.nil c = ok Values.nil
  eval_items (Bindings.cons b bs) c = do
    x ← eval_binding b c
    xs ← eval_items bs c
    ok (Values.cons x xs)

  pub eval_fields : BindingFields → EvalCtx → Result Fields
  eval_fields BindingFields.end c = ok Fields.end
  eval_fields (BindingFields.field k b bs) c = do
    x ← eval_binding b c
    xs ← eval_fields bs c
    ok (Fields.field k x xs)

abbrev integer_of : Value → Result ℤ
integer_of (Value.int n) = ok n
integer_of _ = invalid "numeric comparison requires integers"

unfoldable pub cmp_num : Binding → Binding → EvalCtx → (ℤ → ℤ → Bool) → Result Bool
cmp_num left right c op = do
  x ← eval_binding left c
  a ← integer_of x
  y ← eval_binding right c
  b ← integer_of y
  ok (op a b)

abbrev succeeds : Result Value → Result Bool
succeeds (ok v) = ok true
succeeds (err e) = ok false
succeeds panic = panic

unfoldable mutual
  pub eval_condition : Condition → EvalCtx → Result Bool
  eval_condition (Condition.eq left right) c = do
    a ← eval_binding left c
    b ← eval_binding right c
    ok (a == b)
  eval_condition (Condition.ne left right) c = do
    a ← eval_binding left c
    b ← eval_binding right c
    ok (not (a == b))
  eval_condition (Condition.lt left right) c = cmp_num left right c ltb_ℤ
  eval_condition (Condition.le left right) c = cmp_num left right c leb_ℤ
  eval_condition (Condition.gt left right) c = cmp_num left right c (λ a b. ltb_ℤ b a)
  eval_condition (Condition.ge left right) c = cmp_num left right c (λ a b. leb_ℤ b a)
  eval_condition (Condition.all items) c = eval_all items c
  eval_condition (Condition.any items) c = eval_any items c
  eval_condition (Condition.negation inner) c = do b ← eval_condition inner c; ok (not b)
  eval_condition (Condition.exists binding) c = succeeds (eval_binding binding c)

  pub eval_all : Conditions → EvalCtx → Result Bool
  eval_all Conditions.nil c = ok true
  eval_all (Conditions.cons item items) c =
      let rest = eval_all items c in eval_condition item c >>= λ b. if b then rest else ok false

  pub eval_any : Conditions → EvalCtx → Result Bool
  eval_any Conditions.nil c = ok false
  eval_any (Conditions.cons item items) c =
      let rest = eval_any items c in eval_condition item c >>= λ b. if b then ok true else rest

-- A binding, in the context of a scope.
unfoldable pub eval_in : Externals → State → ScopeState → Binding → Result Value
unfolding eval_ctx
eval_in ext s scope binding = do ctx ← eval_ctx ext s scope; eval_binding binding ctx
