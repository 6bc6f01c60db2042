-- ===== src/Repositories.antt =====
-- app/repositories: each module's queries and writes, on the database.
pub mod Documents
pub mod DocumentTexts
pub mod DocumentChunks
pub mod IngestionJobs
pub mod ExtractionJobs
pub mod ChangeReportJobs
pub mod ReviewItems
pub mod Audit
pub mod Usage
