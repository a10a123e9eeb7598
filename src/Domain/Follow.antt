-- ===== src/Domain/Follow.antt =====
-- graphrun/src/domain.rs: opening the node after another, and failing a scope. A command's ids come
-- from its generator, which is passed on.
pub mod Shapes
use graphrun.Prelude.{
  ℕ, String, Bool, true, false, not, ◌&&◌, Option, none, some, List, [], ◌∷◌, ◌++◌, map, ◌==◌,
  nat_eq, option_eq, leb, if◌then◌else◌, find, filter,
}
use graphrun.Map
use graphrun.Error.{Result, ok, unwrap, or_fail, invalid_argument, ◌>>=◌}
use graphrun.Ir.{FailError, node_of, next_of}
use graphrun.Externals.{Externals, IdGen, next_id}
use graphrun.Domain.Event.{
  DomainEvent, activation_opened, reservation_released, wait_cancelled, scope_failed, run_failed,
}
use graphrun.Domain.State.{State, ScopeState, ScopeStatus, WaitState, InboxEntry, is_root}
use graphrun.Domain.Region.{lookup_region}
use graphrun.Domain.Claims.{sort_by}

module _ (ext : Externals) where
  unfoldable pub open_node : State → ℕ → String → IdGen → Result (List DomainEvent × IdGen)
  open_node s scope node ids = do
    scope_state ← unwrap (Map.get scope s.scopes)
    let (activation, rest) = next_id ext ids
    ok (activation_opened scope_state.run scope activation node ∷ [], rest)

  abbrev pub open_next : State → ℕ → Option String → IdGen → Result (List DomainEvent × IdGen)
  open_next s scope none ids = ok ([], ids)
  open_next s scope (some next) ids = open_node s scope next ids

  unfoldable pub follow_next : State → ℕ → String → IdGen → Result (List DomainEvent × IdGen)
  unfolding open_node
  follow_next s scope node ids = do
    region ← or_fail (lookup_region s scope) invalid_argument "missing region"
    n ← unwrap (node_of region node)
    open_next s scope (next_of n) ids

-- The entry that is reserved for a wait and not consumed.
abbrev pub is_reserved_for : ℕ → InboxEntry → Bool
is_reserved_for wait e = not e.consumed && e.reserved_wait == some wait

abbrev release : ℕ → Option InboxEntry → List DomainEvent
release wait none = []
release wait (some e) = reservation_released wait e.event_id ∷ []

-- The loop over the pending waits of a run.
unfoldable pub close_each : State → ℕ → List ℕ → List DomainEvent
close_each s run [] = []
close_each s run (wait ∷ waits) =
    release wait (find (is_reserved_for wait) s.inbox)
    ++ wait_cancelled run wait ∷ close_each s run waits

abbrev pub pending_in : ℕ → WaitState → Bool
pending_in run w = w.run == run && w.pending

unfoldable pub close_pending_waits : State → ℕ → List DomainEvent
unfolding close_each
close_pending_waits s run =
    close_each s run (sort_by leb (map (λ w. w.id) (filter (pending_in run) (Map.values s.waits))))

abbrev pub has_failed : ScopeStatus → Bool
has_failed (ScopeStatus.failed e) = true
has_failed _ = false

-- A failure of the root scope closes the waits of its run first, and fails the run.
abbrev pub failure_events : State → ScopeState → ℕ → FailError → List DomainEvent
failure_events s c scope error =
    if has_failed c.status
    then []
    else (if is_root c.role
        then close_pending_waits s c.run
          ++ scope_failed c.run scope error ∷ run_failed c.run error ∷ []
        else scope_failed c.run scope error ∷ [])

unfoldable pub fail_scope : State → ℕ → FailError → Result (List DomainEvent)
fail_scope s scope error = do
  c ← unwrap (Map.get scope s.scopes)
  ok (failure_events s c scope error)
