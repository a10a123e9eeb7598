-- ===== src/Binding.antt =====
-- graphrun/src/binding.rs: references, bindings and conditions.
use graphrun.Prelude.{String, Option}
use graphrun.Value.{Value}

pub data Reference : Type 0 where
  workflow_input scope_input scope_id : Reference
  node_output : String → Reference
  loop_state loop_index item_value item_index forward_input forward_output : Reference

mutual
  pub data Binding : Type 0 where
    from : Reference → Option String → Binding
    literal : Value → Binding
    object : BindingFields → Binding
    array : Bindings → Binding

  pub data Bindings : Type 0 where
    nil : Bindings
    cons : Binding → Bindings → Bindings

  pub data BindingFields : Type 0 where
    end : BindingFields
    field : String → Binding → BindingFields → BindingFields

mutual
  pub data Condition : Type 0 where
    eq ne lt le gt ge : Binding → Binding → Condition
    all any : Conditions → Condition
    negation : Condition → Condition
    exists : Binding → Condition

  pub data Conditions : Type 0 where
    nil : Conditions
    cons : Condition → Conditions → Conditions
