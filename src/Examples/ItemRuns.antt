-- ===== src/Examples/ItemRuns.antt =====
-- A foreach with one of its items open, and a choice between two cases.
use graphrun.Prelude.{
  ◌≡◌, refl, some, [], ◌∷◌, pos, nat_eq, string_eq, option_eq, option_beq, find, filter, any,
  contains,
}
use graphrun.Map
use graphrun.Error.{ok}
use graphrun.Value.{Value, Values}
use graphrun.Value.Equality.{value_beq}
use graphrun.Value.Pointer.{get_item}
use graphrun.Binding.{Binding, Condition}
use graphrun.Ir.{Node, Cases, start_of}
use graphrun.Externals.{next_id, be_bytes, le_bytes, digest16, from_be, to_hex}
use graphrun.Domain.Event.{ScopeRole, scope_opened, activation_opened}
use graphrun.Domain.State.{State, ScopeState}
use graphrun.Domain.Region.{body_of}
use graphrun.Domain.Eval.{eval_ctx, eval_binding, eval_condition}
use graphrun.Domain.Progress.Bodies.{Step, children_of, open_body}
use graphrun.Domain.Progress.Branches.{choose_case}
use graphrun.Domain.Progress.Branches.Choice.{Chooses, choose_case-Chooses}
use graphrun.Domain.Progress.Items.{
  progress_foreach, foreach_children, open_item, open_children, items_done, next_index_of,
  first_free, taken_of, foreach_has,
}
use graphrun.Domain.Progress.Items.FirstFree.{IsFirstFree, next_index_of-IsFirstFree}
use graphrun.Domain.Progress.Items.Next.{IsForeachStep, progress_foreach-IsForeachStep}
use graphrun.Examples.Claims.{ext, idle, root_scope}
use graphrun.Examples.SagaRuns.{ids}
use graphrun.Examples.ProgressRuns.{body, ending, looping, root_ctx}

abbrev three_items : Value
three_items = Value.array (
    Values.cons (Value.int (pos 1))
      (Values.cons (Value.int (pos 2)) (Values.cons (Value.int (pos 3)) Values.nil)))

abbrev pub first_item : ScopeState
first_item = record root_scope { id = 71; parent = some 60; role = ScopeRole.foreach_item 60 0 }

abbrev pub each : State
each = record idle {
  scopes = (10, root_scope) ∷ (71, first_item) ∷ [];
  activations = (60, looping) ∷ [];
}

abbrev pub second_item : Step
second_item = (
  scope_opened 1 9 (some 60) (ScopeRole.foreach_item 60 1) (Value.int (pos 2))
      ∷ activation_opened 1 9 9 "step"
      ∷ [],
  record { command = 9; n = 2 },
)

the_item :
    progress_foreach ext each looping (Binding.literal three_items) 10 2 body ids ≡ ok second_item
unfolding progress_foreach foreach_children open_item open_children items_done next_index_of
    first_free taken_of foreach_has children_of open_body eval_ctx eval_binding get_item next_id
    be_bytes le_bytes digest16 from_be to_hex start_of find filter any contains option_beq Map.get
    Map.values
the_item = refl

progress_foreach-IsForeachStep_example :
    IsForeachStep ext each looping (Binding.literal three_items) 2 second_item.0
progress_foreach-IsForeachStep_example =
    progress_foreach-IsForeachStep ext each looping (Binding.literal three_items) 10 2 body ids
      second_item the_item

next_index_of-IsFirstFree_example :
    IsFirstFree
      (taken_of (first_item ∷ []))
      ((1, Value.null) ∷ [])
      (next_index_of (first_item ∷ []) ((1, Value.null) ∷ []))
next_index_of-IsFirstFree_example =
    next_index_of-IsFirstFree (first_item ∷ []) ((1, Value.null) ∷ [])

abbrev equals : Value → Condition
equals v = Condition.eq (Binding.literal (Value.int (pos 1))) (Binding.literal v)

abbrev pub two_cases : Cases
two_cases =
    Cases.with_case "zero" (equals (Value.int (pos 0))) ending
      (Cases.with_case "one" (equals (Value.int (pos 1))) body Cases.no_cases)

the_choice : choose_case two_cases ending root_ctx ≡ ok ("one", body)
unfolding choose_case eval_condition eval_binding value_beq
the_choice = refl

choose_case-Chooses_example :
    Chooses root_ctx ending two_cases "one" body
    × (body_of
          (ScopeRole.choose_body 60 "one")
          (Node.choose (Binding.literal Value.null) two_cases ending "end")
        ≡ some body)
choose_case-Chooses_example =
    choose_case-Chooses root_ctx ending (Binding.literal Value.null) two_cases "end" 60 "one" body
      (unfold contains in refl) the_choice
