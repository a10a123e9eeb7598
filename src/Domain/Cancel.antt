-- ===== src/Domain/Cancel.antt =====
-- graphrun/src/domain.rs: cancelling a run, abandoning what it has yet to compensate, and giving a
-- blocked compensation a new input.
pub mod Abandoned
pub mod Ends
use graphrun.Prelude.{
  ℕ, String, Bool, true, false, not, ◌&&◌, Option, none, some, List, [], ◌∷◌, ◌++◌, ◌==◌, map,
  nat_eq, string_eq, if◌then◌else◌, find, filter, join_text,
}
use graphrun.Map
use graphrun.Error.{Result, ok, or_fail, refuse_if, invalid_argument, ◌>>=◌, ◌>>◌}
use graphrun.Value.{Value}
use graphrun.Ir.{FailError, Node}
use graphrun.Externals.{Externals, IdGen, to_hex}
use graphrun.Domain.Event.{DomainEvent, compensation_abandoned, obligation_registered}
use graphrun.Domain.State.{
  State, RunState, RunStatus, ScopeState, ActivationState, ObligationStatus, is_active, is_opened,
  is_root,
}
use graphrun.Domain.Contract.{node_at}
use graphrun.Domain.Evolve.Obligations.{is_forward}
use graphrun.Domain.Sessions.{Decision}
use graphrun.Domain.Follow.{fail_scope, close_pending_waits}
use graphrun.Domain.Sagas.{compensate_or_fail, is_blocked}

abbrev pub is_root_of : ℕ → ScopeState → Bool
is_root_of run c = c.run == run && is_root c.role

-- The root scope of a run.
unfoldable pub root_of : State → ℕ → Option ScopeState
root_of s run = find (is_root_of run) (Map.values s.scopes)

abbrev is_saga : Option Node → Bool
is_saga (some (Node.saga input body next)) = true
is_saga _ = false

abbrev pub is_open_saga : State → ℕ → ActivationState → Bool
is_open_saga s run act =
    act.run == run && (is_saga (node_at s act.scope act.node) && is_opened act.status)

-- The open sagas of a run.
unfoldable pub open_sagas : State → ℕ → List ℕ
open_sagas s run = map (λ act. act.id) (filter (is_open_saga s run) (Map.values s.activations))

-- Not yet compensated, released or abandoned.
abbrev pub is_unresolved : ObligationStatus → Bool
is_unresolved ObligationStatus.compensated = false
is_unresolved ObligationStatus.released = false
is_unresolved ObligationStatus.abandoned = false
is_unresolved _ = true

unfoldable pub unresolved_of : State → ℕ → List ℕ
unresolved_of s run =
    map (λ o. o.forward) (filter (λ o. o.run == run && is_unresolved o.status) s.obligations)

abbrev pub is_abandoned : RunStatus → Bool
is_abandoned (RunStatus.failed error) = error.code == "saga.abandoned"
is_abandoned _ = false

unfoldable pub decide_resolve_blocked : State → ℕ → ℕ → Value → Result Decision
decide_resolve_blocked s run forward input = do
  o ← or_fail (find (is_forward forward) s.obligations) invalid_argument "unknown obligation"
  refuse_if (not (o.run == run)) invalid_argument "obligation does not belong to run"
  refuse_if (not (is_blocked o.status)) invalid_argument "obligation is not blocked"
  ok (obligation_registered run forward o.handler o.handler_version input ∷ [])

module _ (ext : Externals) where
  -- The ids with commas between them.
  abbrev pub hex_list : List ℕ → String
  hex_list [] = ""
  hex_list (x ∷ []) = to_hex ext x
  hex_list (x ∷ y ∷ xs) = join_text (to_hex ext x) (join_text "," (hex_list (y ∷ xs)))

  abbrev pub abandonment : List ℕ → FailError
  abandonment unresolved = record {
    code = "saga.abandoned";
    message =
        join_text "unresolved obligations remain after operator abandonment: "
          (hex_list unresolved);
  }

  abbrev pub no_ids : List ℕ → Bool
  no_ids [] = true
  no_ids (x ∷ xs) = false

  abbrev pub fail_root : State → FailError → Option ScopeState → Result Decision
  fail_root s error none = ok []
  fail_root s error (some root) = fail_scope s root.id error

  unfoldable pub abandon : State → RunState → ℕ → String → Result Decision
  unfolding unresolved_of root_of
  abandon s r run reason = do
    let unresolved = unresolved_of s run
    refuse_if (no_ids unresolved) invalid_argument "no unresolved obligations to abandon"
    let close = fail_root s (abandonment unresolved) (root_of s run)
    events ← if is_active r.status then close else ok []
    ok (compensation_abandoned run reason unresolved ∷ events)

  unfoldable pub decide_abandon_compensation : State → ℕ → String → Result Decision
  unfolding abandon
  decide_abandon_compensation s run reason = do
    refuse_if (reason == "") invalid_argument "abandon requires a reason"
    r ← or_fail (Map.get run s.runs) invalid_argument "unknown run"
    let rest = abandon s r run reason
    if is_abandoned r.status then ok [] else rest

  -- Each open saga of the run starts to compensate.
  unfoldable pub compensate_each :
      State → List ℕ → FailError → IdGen → Result (List DomainEvent × IdGen)
  compensate_each s [] error ids = ok ([], ids)
  compensate_each s (saga ∷ sagas) error ids = do
    r ← compensate_or_fail ext s saga error ids
    rest ← compensate_each s sagas error r.1
    ok (r.0 ++ rest.0, rest.1)

  abbrev pub cancellation : String → FailError
  cancellation reason = record { code = "run.cancelled"; message = reason }

  unfoldable pub cancel_open : State → ℕ → List ℕ → FailError → IdGen → Result (Decision × IdGen)
  unfolding compensate_each root_of
  cancel_open s run [] error ids = do
    root ← or_fail (root_of s run) invalid_argument "run has no root scope"
    events ← fail_scope s root.id error
    ok (events, ids)
  cancel_open s run (saga ∷ sagas) error ids = do
    r ← compensate_each s (saga ∷ sagas) error ids
    ok (close_pending_waits s run ++ r.0, r.1)

  unfoldable pub decide_cancel : State → ℕ → String → IdGen → Result (Decision × IdGen)
  unfolding cancel_open open_sagas
  decide_cancel s run reason ids = do
    r ← or_fail (Map.get run s.runs) invalid_argument "unknown run"
    refuse_if (not (is_active r.status)) invalid_argument "run is not active"
    cancel_open s run (open_sagas s run) (cancellation reason) ids
