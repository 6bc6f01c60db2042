-- ===== src/Services/ChangeReportRun.antt =====
-- The worker's side of app/services/change_report.py.
pub mod Explain
pub mod MapImpacts
pub mod Runner
pub mod Covers
pub mod Outcomes
pub mod Kept
pub mod Finishes
