-- ===== src/Jobs.antt =====
-- The job tables (ADR-004): app/repositories/job_claims.py, and the queries and updates that
-- ingestion_jobs.py, extraction_jobs.py and change_report_jobs.py make on their own tables.
pub mod Table
pub mod Claims
pub mod Finish
pub mod Lifecycle
pub mod Active
