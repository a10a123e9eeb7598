-- ===== src/Clock.antt =====
-- graphrun/src/clock.rs: the clock monitor, the authority around it, and voting quorums.
-- Wall and boot times are arguments. What the storage answers when a fault flag is persisted is an
-- argument too. Fault reasons are the format strings of the source.
pub mod Quorum
pub mod Latch
use graphrun.Prelude.{
  ℕ, ◌+◌, ◌-◌, ◌≡◌, String, Bool, true, false, ◌&&◌, ◌||◌, not, Option, none, some, List, [], ◌∷◌,
  ◌==◌, nat_eq, ltb, leb, if◌then◌else◌, is_some, saturating_add,
}
use graphrun.Error.{
  Error, Result, ok, err, panic, fail, invalid, failed_precondition, unavailable, invalid_argument,
  ◌>>=◌, ◌>>◌, refuse_if,
}
use graphrun.Time.{ClockDeltaFault, boot_reversed, watchdog_gap, wall_boot_skew, clock_delta_fault}

pub record Monitor : Type 0 where
  pub previous : Option (ℕ × ℕ)
  pub faulted : Bool
  pub fault_recorded : Bool
  pub healthy_since : Option ℕ
  pub fault_reason : Option String

abbrev delta_reason : ClockDeltaFault → String
delta_reason boot_reversed = "boot clock reversed"
delta_reason (watchdog_gap elapsed) = "watchdog gap {elapsed} ms exceeds 2000 ms"
delta_reason (wall_boot_skew discrepancy elapsed) =
    "wall/boot delta differs by {discrepancy} ms over {elapsed} ms"

abbrev watermark_fault : ℕ → ℕ → Option String
watermark_fault wall watermark =
    if ltb (saturating_add wall 2000) watermark
    then some "persisted watermark {watermark} ms is ahead of wall {wall} ms by more than 2 s"
    else none

-- A fault between two samples replaces one of the watermark.
abbrev delta_or : Option ClockDeltaFault → Option String → Option String
delta_or none fault = fault
delta_or (some delta) fault = some (delta_reason delta)

-- The fault that a sample shows.
unfoldable pub fault_of : Option (ℕ × ℕ) → ℕ → ℕ → ℕ → Option String
fault_of none wall boot watermark = watermark_fault wall watermark
fault_of (some (previous_wall, previous_boot)) wall boot watermark =
    delta_or (clock_delta_fault previous_wall previous_boot wall boot)
      (watermark_fault wall watermark)

abbrev since : Option ℕ → ℕ → Option ℕ
since none boot = some boot
since (some t) boot = some t

unfoldable pub note_fault : Monitor → Option String → ℕ → Monitor
note_fault m none boot = record m { healthy_since = since m.healthy_since boot }
note_fault m (some reason) boot = record m {
  faulted = true;
  healthy_since = none;
  fault_reason = some reason;
}

-- The monitor after a sample, and whether the sample shows a fault.
unfoldable pub observe : Monitor → ℕ → ℕ → ℕ → Monitor × Bool
unfolding note_fault
observe m wall boot watermark =
    let fault = fault_of m.previous wall boot watermark in
    (note_fault (record m { previous = some (wall, boot) }) fault boot, is_some fault)

pub data ClockFaultState : Type 0 where
  healthy : ClockFaultState
  latched : String → ClockFaultState

-- A sampled quorum of voters. A log id and a member are numbers.
pub record FreshVoterQuorum : Type 0 where
  pub membership_log_id : Option ℕ
  pub sampled_voters : List ℕ
  pub checked_boot_ms : ℕ
  pub voter_configs : List (List ℕ)

-- The authority: its monitor, the cached quorum, what its subscribers see, and the fault flag in
-- the storage.
pub record ClockAuthority : Type 0 where
  pub monitor : Monitor
  pub last_quorum : Option FreshVoterQuorum
  pub fault_signal : ClockFaultState
  pub persisted : Bool

abbrev persisted_reason : String
persisted_reason = "clock fault persisted from previous process"

-- `ClockAuthority::new`, over a storage whose flag is `faulted`.
unfoldable pub create : Bool → ClockAuthority
create faulted = record {
  monitor = record {
    previous = none;
    faulted = faulted;
    fault_recorded = faulted;
    healthy_since = none;
    fault_reason = if faulted then some persisted_reason else none;
  };
  last_quorum = none;
  fault_signal = if faulted then latched persisted_reason else healthy;
  persisted = faulted;
}

-- `if newly_faulted { fault_signal.send_replace(…) }`, where the reason is `expect`ed.
unfoldable pub announce : Bool → Option String → ClockAuthority → Result ClockAuthority
announce false reason a = ok a
announce true none a = panic
announce true (some reason) a = ok (record a { fault_signal = latched reason })

-- The two clocks as read, or the error of one of them.
pub data Reading : Type 0 where
  read : ℕ → ℕ → Reading
  unreadable : Error → Reading

-- What the storage answers: `none` if it did what it was asked.
abbrev pub Answer : Type 0
Answer = Option Error

-- `if !fault_recorded { persist_clock_fault(true)?; fault_recorded = true; }`: the authority after
-- it, and the storage's error if it refuses.
unfoldable pub record_fault : Bool → Answer → ClockAuthority → ClockAuthority × Answer
record_fault true answer a = (a, none)
record_fault false none a =
    (record a { monitor = record a.monitor { fault_recorded = true }; persisted = true }, none)
record_fault false (some e) a = (a, some e)

abbrev error_or {ℓ} : {A : Type ℓ} → Answer → Error → Result A
error_or none e = err e
error_or (some refused) e = err refused

abbrev clock_unsafe : Error
clock_unsafe = record {
  kind = failed_precondition;
  message = "clock unsafe ({}); explicit acknowledgement after ten healthy seconds required";
}

-- The end of `sample`: a faulted monitor refuses, after its fault was recorded.
unfoldable pub settle :
    Result ClockAuthority
    → Answer
    → Error
    → ClockAuthority
    → ℕ × ℕ
    → ClockAuthority × Result (ℕ × ℕ)
unfolding record_fault
settle (ok b) answer e a times =
    if b.monitor.faulted
    then (let (c, recorded) = record_fault b.monitor.fault_recorded answer b in
        (c, error_or recorded e))
    else (b, ok times)
settle (err e') answer e a times = (a, err e')
settle panic answer e a times = (a, panic)

-- `sample`: the reading of the two clocks, the watermark, and the storage's answer if it is asked.
unfoldable pub sample : ClockAuthority → Reading → ℕ → Answer → ClockAuthority × Result (ℕ × ℕ)
unfolding observe announce settle
sample a (read wall boot) watermark answer =
    let m = (observe a.monitor wall boot watermark).0 in
    let next = record a { monitor = m } in
    settle (announce (m.faulted && not a.monitor.faulted) m.fault_reason next) answer clock_unsafe
      next (wall, boot)
sample a (unreadable e) watermark answer =
    let m = record a.monitor {
      faulted = true;
      healthy_since = none;
      fault_reason = some e.message;
    } in
    let next = record a { monitor = m } in
    settle (announce (not a.monitor.faulted) m.fault_reason next) answer e next (0, 0)

abbrev healthy_for : Option ℕ → ℕ → ℕ
healthy_for none boot = boot - boot
healthy_for (some t) boot = boot - t

-- The end of `acknowledge`: the flag in the storage is cleared, and then the latch.
unfoldable pub clear_fault : ClockAuthority → Answer → ClockAuthority × Result (Unit {0})
clear_fault a none = (
  record a {
    monitor = record a.monitor { faulted = false; fault_recorded = false; fault_reason = none };
    last_quorum = none;
    fault_signal = healthy;
    persisted = false;
  },
  ok tt,
)
clear_fault a (some e) = (a, err e)

unfoldable pub acknowledge_read :
    ClockAuthority → ℕ → ℕ → ℕ → Answer → ClockAuthority × Result (Unit {0})
unfolding observe clear_fault
acknowledge_read a wall boot watermark answer =
    let (m, fault) = observe a.monitor wall boot watermark in
    let next = record a { monitor = m } in
    if fault || ltb (healthy_for m.healthy_since boot) 10000 || ltb (wall - 1000) watermark
    then (
      next,
      fail failed_precondition
          "clock must be healthy for ten seconds and catch up to the committed watermark",
    )
    else clear_fault next answer

unfoldable pub acknowledge_sampled :
    ClockAuthority → Reading → Result ℕ → Answer → ClockAuthority × Result (Unit {0})
unfolding acknowledge_read
acknowledge_sampled a (read wall boot) (ok watermark) answer =
    acknowledge_read a wall boot watermark answer
acknowledge_sampled a (read wall boot) (err e) answer = (a, err e)
acknowledge_sampled a (read wall boot) panic answer = (a, panic)
acknowledge_sampled a (unreadable e) watermark answer = (a, err e)

-- `acknowledge`: whether the trimmed reason is empty, the reading of the clocks, the stored
-- watermark, and the storage's answer to clearing its flag.
unfoldable pub acknowledge :
    ClockAuthority → Bool → Reading → Result ℕ → Answer → ClockAuthority × Result (Unit {0})
unfolding acknowledge_sampled
acknowledge a blank reading watermark answer =
    if blank
    then (a, invalid "clock acknowledgement requires a reason")
    else if not a.monitor.faulted
    then (a, fail failed_precondition "no clock fault to acknowledge")
    else if not a.monitor.fault_recorded
    then (a, fail unavailable "clock fault must be persisted before acknowledgement")
    else acknowledge_sampled a reading watermark answer
