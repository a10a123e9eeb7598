-- ===== src/Examples.antt =====
-- Runs of the definitions on concrete inputs.
pub mod Claims
pub mod Basics
pub mod SagaRuns
pub mod SessionRuns
pub mod SignalRuns
pub mod ReportRuns
pub mod ProgressRuns
pub mod ItemRuns
pub mod CommandRuns
pub mod CancelRuns
pub mod ScheduleRuns
