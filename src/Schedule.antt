-- ===== src/Schedule.antt =====
-- graphrun/src/schedule.rs: when a run is to be looked at again.
pub mod WakeUps
pub mod Found
use graphrun.Prelude.{
  ℕ, Bool, true, false, not, ◌&&◌, ◌||◌, Option, none, some, List, [], ◌∷◌, ◌==◌, nat_eq, option_eq,
  if◌then◌else◌, any, filter, map, ltb, min,
}
use graphrun.Map
use graphrun.Domain.State.{
  State, RunState, ActivationState, WaitState, ClaimState, is_active, is_ready,
}
use graphrun.Domain.Follow.{pending_in}

pub record RunSchedule : Type 0 where
  pub format : ℕ
  pub generation : ℕ
  pub progress : Bool
  pub ready : Bool
  pub deadline_ms : Option ℕ
  pub source_revision : ℕ

-- The smaller of two times, where both are known.
abbrev pub earlier : Option ℕ → Option ℕ → Option ℕ
earlier none o = o
earlier (some a) none = some a
earlier (some a) (some b) = some (min a b)

-- The earliest deadline.
unfoldable pub earliest : List (Option ℕ) → Option ℕ
earliest [] = none
earliest (o ∷ os) = earlier o (earliest os)

abbrev pub waits_on : ActivationState → WaitState → Bool
waits_on act w = w.activation == act.id && w.pending

-- The loop goes on to the next activation.
unfoldable pub is_passed_over : State → ActivationState → Bool
is_passed_over s act =
    not (is_ready act.status)
    || (Map.contains_key act.id s.interventions || any (waits_on act) (Map.values s.waits))

abbrev pub look_at : ℕ → Option ClaimState → Bool × Option ℕ → Bool × Option ℕ
look_at now_ms none (ready, deadline) = (true, deadline)
look_at now_ms (some claim) (ready, deadline) =
    if ltb now_ms claim.lease_expiry_ms
    then (ready, earlier deadline (some claim.lease_expiry_ms))
    else (true, deadline)

-- The loop over the activations of the run.
unfoldable pub scan_activations :
    State → ℕ → List ActivationState → Bool × Option ℕ → Bool × Option ℕ
scan_activations s now_ms [] found = found
scan_activations s now_ms (act ∷ acts) found =
    scan_activations s now_ms acts
      (if is_passed_over s act then found else look_at now_ms act.claim found)

abbrev pub scan_run : State → ℕ → ℕ → Bool × Option ℕ
scan_run s run now_ms =
    scan_activations s now_ms (filter (λ act. act.run == run) (Map.values s.activations))
      (false, earliest (map (λ w. w.deadline_ms) (filter (pending_in run) (Map.values s.waits))))

abbrev pub schedule_of : Bool → ℕ → ℕ → Bool × Option ℕ → RunSchedule
schedule_of progress generation source_revision (ready, deadline) = record {
  format = 1;
  generation = generation;
  progress = progress;
  ready = ready;
  deadline_ms = deadline;
  source_revision = source_revision;
}

abbrev pub from_run : State → ℕ → Bool → ℕ → ℕ → ℕ → Option RunState → Option RunSchedule
from_run s run progress now_ms generation source_revision none = none
from_run s run progress now_ms generation source_revision (some current) =
    if is_active current.status
    then some (schedule_of progress generation source_revision (scan_run s run now_ms))
    else none

unfoldable pub from_state : State → ℕ → Bool → ℕ → ℕ → ℕ → Option RunSchedule
unfolding scan_activations earliest
from_state s run progress now_ms generation source_revision =
    from_run s run progress now_ms generation source_revision (Map.get run s.runs)

abbrev differ : Bool → Bool → Bool
differ true b = not b
differ false b = b

unfoldable pub changed_from : RunSchedule → RunSchedule → Bool
changed_from a b =
    not (a.generation == b.generation)
    || (differ a.progress b.progress
        || (differ a.ready b.ready || not (a.deadline_ms == b.deadline_ms)))
