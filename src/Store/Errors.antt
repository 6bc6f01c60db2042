-- ===== src/Store/Errors.antt =====
-- The exceptions of the service layer (app/services, app/llm, app/auth, app/ratelimit), one
-- constructor for each class with the fields that its handler reads.
use contract_change_intel.Prelude.{ℕ, Text, Option}

-- The `kind` of a missing prerequisite.
pub data Prerequisite : Type 0 where
  ingestion extraction : Prerequisite

pub data Error : Type 0 where
  mime_not_allowed : Option Text → Option Text → Error
  upload_too_large : ℕ → Error
  document_already_exists : Option ℕ → Error
  document_not_found : ℕ → Error
  document_has_amendments : ℕ → Error
  ingestion_job_not_found : ℕ → Error
  ingestion_job_conflict : ℕ → Error
  extraction_job_not_found : ℕ → Error
  extraction_job_conflict : ℕ → Error
  document_not_parsed : Option ℕ → Error
  change_report_job_not_found : ℕ → Error
  amendment_mismatch : ℕ → ℕ → Error
  prerequisite_missing : ℕ → Prerequisite → Option ℕ → Error
  review_item_not_found : ℕ → Error
  review_item_already_resolved : ℕ → Error
  -- sqlalchemy.exc.IntegrityError, which a service handles or lets through
  integrity_error : Error
  -- an OSError of the file system other than a missing file, which no service handles
  os_error : Error
