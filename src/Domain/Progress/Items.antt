-- ===== src/Domain/Progress/Items.antt =====
-- graphrun/src/domain.rs: `progress_foreach`. Indices and lengths wrap at 32 bits where the source
-- casts them; the search for a free index takes one more step than there are indices in use.
pub mod FirstFree
pub mod Next
use graphrun.Prelude.{
  ℕ, zero, suc, ◌+◌, ◌%◌, ◌^◌, Bool, not, ◌||◌, Option, none, some, List, [], ◌∷◌, ◌++◌, ◌==◌,
  nat_eq, ltb, leb, if◌then◌else◌, find, filter, any, contains, length, is_some,
}
use graphrun.Map
use graphrun.Error.{Result, ok, unwrap, invalid, refuse_if, invalid_argument, ◌>>=◌, ◌>>◌}
use graphrun.Value.{Value, Values}
use graphrun.Value.Pointer.{get_item}
use graphrun.Binding.{Binding}
use graphrun.Ir.{Region, FailError}
use graphrun.Externals.{Externals, IdGen}
use graphrun.Domain.Event.{DomainEvent, ScopeRole}
use graphrun.Domain.State.{State, ScopeState, ScopeStatus, ActivationState, is_opened_scope}
use graphrun.Domain.Eval.{eval_ctx, eval_binding}
use graphrun.Domain.Follow.{fail_scope}
use graphrun.Domain.Progress.Bodies.{Step, children_of, open_body, finish}

unfoldable pub foreach_get : List (ℕ × Value) → ℕ → Option Value
foreach_get [] index = none
foreach_get ((i, value) ∷ done) index = if i == index then some value else foreach_get done index

unfoldable pub foreach_has : List (ℕ × Value) → ℕ → Bool
foreach_has done index = any (λ item. item.0 == index) done

abbrev pub values_length : Values → ℕ
values_length Values.nil = 0
values_length (Values.cons v vs) = suc (values_length vs)

-- The outputs of the items from `i` on, in their order.
unfoldable pub ordered_items : ℕ → ℕ → List (ℕ × Value) → Result Values
unfolding foreach_get
ordered_items zero i done = ok Values.nil
ordered_items (suc k) i done = do
  v ← unwrap (foreach_get done (i % 2 ^ 32))
  vs ← ordered_items k (i + 1) done
  ok (Values.cons v vs)

abbrev pub failure_of : ScopeStatus → Option FailError
failure_of (ScopeStatus.failed error) = some error
failure_of _ = none

abbrev pub has_failure : ScopeState → Bool
has_failure c = is_some (failure_of c.status)

abbrev pub item_index : ScopeRole → List ℕ
item_index (ScopeRole.foreach_item activation index) = index ∷ []
item_index _ = []

-- The indices of the items that have a scope.
unfoldable pub taken_of : List ScopeState → List ℕ
taken_of [] = []
taken_of (c ∷ cs) = item_index c.role ++ taken_of cs

abbrev pub in_use : List ℕ → List (ℕ × Value) → ℕ → Bool
in_use taken done index = contains taken index || foreach_has done index

-- The least index from `index` on that is not in use.
unfoldable pub first_free : ℕ → List ℕ → List (ℕ × Value) → ℕ → ℕ
unfolding foreach_has
first_free zero taken done index = index
first_free (suc fuel) taken done index =
    let later = first_free fuel taken done (index + 1) in
    if in_use taken done index then later else index

-- The source counts in 32 bits.
unfoldable pub next_index_of : List ScopeState → List (ℕ × Value) → ℕ
unfolding first_free taken_of
next_index_of children done =
    let taken = taken_of children in first_free (suc (length taken + length done)) taken done 0

-- The open scopes of a list but for one of them fail.
unfoldable pub fail_siblings : State → ℕ → FailError → List ScopeState → Result (List DomainEvent)
fail_siblings s failed error [] = ok []
fail_siblings s failed error (c ∷ cs) = do
  let failing = fail_scope s c.id error
  events ← if c.id == failed || not (is_opened_scope c.status) then ok [] else failing
  rest ← fail_siblings s failed error cs
  ok (events ++ rest)

abbrev pub item_cancelled : FailError
item_cancelled = record { code = "item.cancelled"; message = "sibling foreach item failed" }

unfoldable pub open_children : State → ℕ → ℕ
unfolding children_of
open_children s parent = length (filter (λ c. is_opened_scope c.status) (children_of s parent))

abbrev pub list_of : Value → Result Values
list_of (Value.array items) = ok items
list_of _ = invalid "foreach items must be an array"

abbrev or_no_items : Option (List (ℕ × Value)) → List (ℕ × Value)
or_no_items none = []
or_no_items (some done) = done

unfoldable pub items_done : State → ℕ → List (ℕ × Value)
items_done s activation = or_no_items (Map.get activation s.foreach_done)

module _ (ext : Externals) (s : State) (act : ActivationState) where
  -- The item that is next, unless as many are open as may be, or none is left.
  unfoldable pub open_item : Values → ℕ → Region → IdGen → Result Step
  unfolding open_children next_index_of items_done open_body
  open_item items max_concurrency body ids = do
    let index = next_index_of (children_of s act.id) (items_done s act.id)
    let opened = do
      input ← unwrap (get_item index items)
      ok (open_body ext act (ScopeRole.foreach_item act.id index) body input ids)
    let idle = leb max_concurrency (open_children s act.id) || leb (values_length items) index
    if idle then ok ([], ids) else opened

  -- A failed item cancels the open ones, and fails the scope of the node.
  unfoldable pub foreach_children : Values → ℕ → Region → IdGen → Option ScopeState → Result Step
  unfolding open_item fail_siblings
  foreach_children items max_concurrency body ids none = open_item items max_concurrency body ids
  foreach_children items max_concurrency body ids (some failed) = do
    error ← unwrap (failure_of failed.status)
    cancelled ← fail_siblings s failed.id item_cancelled (children_of s act.id)
    events ← fail_scope s act.scope error
    ok (cancelled ++ events, ids)

  unfoldable pub progress_foreach : Binding → ℕ → ℕ → Region → IdGen → Result Step
  unfolding foreach_children ordered_items items_done finish
  progress_foreach items max_items max_concurrency body ids = do
    scope ← unwrap (Map.get act.scope s.scopes)
    ctx ← eval_ctx ext s scope
    value ← eval_binding items ctx
    list ← list_of value
    refuse_if (ltb max_items (values_length list % 2 ^ 32)) invalid_argument
        "foreach exceeds max_items"
    let done = items_done s act.id
    let nothing = finish ext s act (Value.array Values.nil) ids
    let complete = do
      ordered ← ordered_items (values_length list) 0 done
      finish ext s act (Value.array ordered) ids
    let round =
        foreach_children list max_concurrency body ids (find has_failure (children_of s act.id))
    let some_left = if length done == values_length list then complete else round
    if values_length list == 0 then nothing else some_left
