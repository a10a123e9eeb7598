-- ===== src/Clock/Latch.antt =====
-- graphrun/src/clock.rs: the fault latch of the clock authority, and what it takes to release it.
use graphrun.Prelude.{
  ℕ, ◌+◌, ◌-◌, ◌≤◌, ◌≡◌, ◌≢◌, Bool, true, false, not, ◌||◌, List, [], ◌∷◌, arith,
}
use graphrun.Error.{Error, Result, ok}
use graphrun.Clock.{
  ClockAuthority, ClockFaultState, healthy, latched, Reading, read, unreadable, Answer, observe,
  sample, create, acknowledge,
}

-- A call of the authority: a sample with its reading, the watermark and the storage's answer, or an
-- acknowledgement with whether its reason is blank, its reading, the stored watermark and the answer.
pub data Call : Type 0 where
  sampled : Reading → ℕ → Answer → Call
  acknowledged : Bool → Reading → Result ℕ → Answer → Call

abbrev pub after_call : ClockAuthority → Call → ClockAuthority
after_call a (sampled r watermark answer) = (sample a r watermark answer).0
after_call a (acknowledged blank r watermark answer) = (acknowledge a blank r watermark answer).0

-- The calls made since the authority was created, the newest first.
unfoldable pub after_calls : ClockAuthority → List Call → ClockAuthority
after_calls a [] = a
after_calls a (c ∷ cs) = after_call (after_calls a cs) c

abbrev pub shows_fault : ClockFaultState → Bool
shows_fault healthy = false
shows_fault (latched reason) = true

-- What the subscribers see agrees with the monitor, and so does the flag in the storage.
pub record IsCoherent (a : ClockAuthority) : Type 0 where
  pub signal : shows_fault a.fault_signal ≡ a.monitor.faulted
  pub recorded : a.persisted ≡ a.monitor.fault_recorded
  pub recorded_fault : (not a.monitor.fault_recorded || a.monitor.faulted) ≡ true

create-IsCoherent : (faulted : Bool) → IsCoherent (create faulted)
unfolding create
create-IsCoherent true = ground arith
create-IsCoherent false = ground arith

sample-IsCoherent :
    (a : ClockAuthority) (r : Reading) (watermark : ℕ) (answer : Answer)
    → IsCoherent a
    → IsCoherent (sample a r watermark answer).0
unfolding sample
sample-IsCoherent a (read wall boot) watermark answer c = ground arith
sample-IsCoherent a (unreadable e) watermark answer c = ground arith

acknowledge-IsCoherent :
    (a : ClockAuthority) (blank : Bool) (r : Reading) (watermark : Result ℕ) (answer : Answer)
    → IsCoherent a
    → IsCoherent (acknowledge a blank r watermark answer).0
unfolding acknowledge
acknowledge-IsCoherent a blank (read wall boot) watermark answer c = ground arith
acknowledge-IsCoherent a blank (unreadable e) watermark answer c = ground arith

-- A latched fault survives every sample, however healthy, and no sample succeeds under it.
pub sample_latched :
    (a : ClockAuthority) (r : Reading) (watermark : ℕ) (answer : Answer) (times : ℕ × ℕ)
    → a.monitor.faulted ≡ true
    → ((sample a r watermark answer).0.monitor.faulted ≡ true)
      × ((sample a r watermark answer).1 ≢ ok times)
unfolding sample
sample_latched a (read wall boot) watermark answer times h = ground arith
sample_latched a (unreadable e) watermark answer times h = ground arith

-- From a coherent authority, whatever the call, what the subscribers see is `healthy` exactly when
-- no fault is latched, and the flag in the storage is the one that the monitor believes recorded.
pub calls-IsCoherent :
    (a : ClockAuthority) (r : Reading) (watermark : ℕ) (stored : Result ℕ) (blank : Bool)
    (answer : Answer)
    → IsCoherent a
    → IsCoherent (sample a r watermark answer).0
      × IsCoherent (acknowledge a blank r stored answer).0
calls-IsCoherent a r watermark stored blank answer c =
    (sample-IsCoherent a r watermark answer c, acknowledge-IsCoherent a blank r stored answer c)

-- A look at the clocks that shows no fault.
abbrev pub IsHealthyLook : ClockAuthority → ℕ → ℕ → ℕ → Type 0
IsHealthyLook a wall boot watermark = (observe a.monitor wall boot watermark).1 ≡ false

-- The newest calls, back to one that looked at the clocks at boot time `t`: every sample was read
-- and showed no fault, and every acknowledgement showed none or left the monitor as it was.
pub data HealthySince (a : ClockAuthority) (t : ℕ) : List Call → Type 0 where
  now_sampled :
      {wall boot watermark : ℕ} {answer : Answer} {cs : List Call}
      → IsHealthyLook (after_calls a cs) wall boot watermark
      → boot ≡ t
      → HealthySince a t (sampled (read wall boot) watermark answer ∷ cs)
  later_sampled :
      {wall boot watermark : ℕ} {answer : Answer} {cs : List Call}
      → IsHealthyLook (after_calls a cs) wall boot watermark
      → HealthySince a t cs
      → HealthySince a t (sampled (read wall boot) watermark answer ∷ cs)
  now_acknowledged :
      {wall boot watermark : ℕ} {blank : Bool} {answer : Answer} {cs : List Call}
      → IsHealthyLook (after_calls a cs) wall boot watermark
      → boot ≡ t
      → HealthySince a t (acknowledged blank (read wall boot) (ok watermark) answer ∷ cs)
  later_acknowledged :
      {wall boot watermark : ℕ} {blank : Bool} {answer : Answer} {cs : List Call}
      → IsHealthyLook (after_calls a cs) wall boot watermark
      → HealthySince a t cs
      → HealthySince a t (acknowledged blank (read wall boot) (ok watermark) answer ∷ cs)
  refused_unseen :
      {r : Reading} {watermark : Result ℕ} {blank : Bool} {answer : Answer} {cs : List Call}
      → (acknowledge (after_calls a cs) blank r watermark answer).0.monitor
        ≡ (after_calls a cs).monitor
      → HealthySince a t cs
      → HealthySince a t (acknowledged blank r watermark answer ∷ cs)

-- What an acknowledgement that succeeds has seen.
record Acknowledged (a : ClockAuthority) (wall boot watermark t : ℕ) : Type 0 where
  was_faulted : a.monitor.faulted ≡ true
  was_recorded : a.monitor.fault_recorded ≡ true
  no_fault : (observe a.monitor wall boot watermark).1 ≡ false
  window : t + 10000 ≤ boot
  caught_up : watermark ≤ wall - 1000
