-- ===== src/Services.antt =====
-- app/services: the business rules, over the repositories.
pub mod Ingestion
pub mod Extraction
pub mod ChangeReport
pub mod ReviewQueue
pub mod AuditTrail
pub mod Documents
pub mod Enqueue
pub mod ExtractionRun
pub mod IngestionRun
pub mod ChangeReportRun
