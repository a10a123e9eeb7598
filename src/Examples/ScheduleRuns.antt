-- ===== src/Examples/ScheduleRuns.antt =====
-- The schedules of a run with a claimed activation and a wait, and of one that a worker can take on.
use graphrun.Prelude.{◌≡◌, ◌≢◌, refl, true, false, some, [], ◌∷◌, nat_eq, filter, any, All}
use graphrun.Map
use graphrun.Domain.State.{State, WaitState}
use graphrun.Domain.Ready.{unclaimed_ready}
use graphrun.Schedule.{RunSchedule, from_state, scan_activations, earliest, is_passed_over}
use graphrun.Schedule.WakeUps.{from_state_wakes, is_overdue}
use graphrun.Schedule.Found.{from_state_finds}
use graphrun.Examples.Claims.{idle, held}
use graphrun.Examples.CancelRuns.{paid_wait}

abbrev timed_wait : WaitState
timed_wait = record paid_wait { deadline_ms = some 50000 }

abbrev busy : State
busy = record idle { activations = (101, held) ∷ []; waits = (30, timed_wait) ∷ [] }

abbrev until_lease : RunSchedule
until_lease = record {
  format = 1;
  generation = 3;
  progress = false;
  ready = false;
  deadline_ms = some 31000;
  source_revision = 8;
}

made : from_state busy 1 false 1000 3 8 ≡ some until_lease
unfolding from_state scan_activations earliest is_passed_over Map.get Map.values Map.contains_key
    filter any
made = refl

from_state_wakes_example :
    (unclaimed_ready busy 1 30999 ≡ [])
    × All (λ w. is_overdue busy 30999 1 w ≡ false) (Map.values busy.waits)
from_state_wakes_example =
    from_state_wakes busy 30999 1 1000 3 8 false until_lease
      (unfold Map.values Map.get in (refl, tt)) made refl refl

abbrev at_once : RunSchedule
at_once = record until_lease { ready = true }

made_ready : from_state idle 1 false 1000 3 8 ≡ some at_once
unfolding from_state scan_activations earliest is_passed_over Map.get Map.values Map.contains_key
    filter any
made_ready = refl

from_state_finds_example : unclaimed_ready idle 1 1000 ≢ []
from_state_finds_example =
    from_state_finds idle 1000 1 3 8 false at_once (unfold Map.values Map.get in (refl, (refl, tt)))
      made_ready refl
