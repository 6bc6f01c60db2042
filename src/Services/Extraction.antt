-- ===== src/Services/Extraction.antt =====
-- app/services/extraction.py: the request side of extraction.
use contract_change_intel.Prelude.{ℕ, Option, none, some, not}
use contract_change_intel.Store.Json.{ident, obj, field, end}
use contract_change_intel.Store.Rows.{ExtractionJob, Job, Db, Ctx, is_parsed}
use contract_change_intel.Store.Errors.{
  document_not_found, document_not_parsed, extraction_job_conflict, extraction_job_not_found,
  integrity_error,
}
use contract_change_intel.Store.Exec.{
  Exec, ◌>>=◌, ◌>>◌, pure, query, write, made, require, raise_on, raise_if,
}
use contract_change_intel.Repositories.Documents
use contract_change_intel.Repositories.IngestionJobs
use contract_change_intel.Repositories.ExtractionJobs
use contract_change_intel.Repositories.Audit.{record_entry}

-- `latest.id if latest is not None else None`.
abbrev pub id_of : {S : Type 0} → Option (Job S) → Option ℕ
id_of none = none
id_of (some job) = some job.id

-- `meanwhile` is what other sessions commit between the check for an active job and the INSERT, which
-- the foreign key refuses when the document is gone.
unfoldable pub enqueue_extraction : (Db → Db) → Ctx → ℕ → ℕ → Exec ExtractionJob
enqueue_extraction meanwhile ctx tenant_id document_id = do
  found ← query (Documents.find_by_id tenant_id document_id)
  document ← require found (document_not_found document_id)
  latest ← query (IngestionJobs.find_latest_for_document document_id)
  raise_if (not (is_parsed document.status)) (document_not_parsed (id_of latest))
  active ← query (ExtractionJobs.find_active_for_document document_id)
  raise_on active (λ (j : ExtractionJob). extraction_job_conflict j.id)
  write meanwhile
  there ← query (λ db. Documents.document_exists db document_id)
  raise_if (not there) integrity_error
  job ← made (ExtractionJobs.create ctx tenant_id document_id)
  write (
      record_entry ctx tenant_id "extraction.enqueue" "extraction_job" job.id
        (obj (field "document_id" (ident document_id) end)))
  pure job

unfoldable pub get_extraction_job : ℕ → ℕ → Exec ExtractionJob
get_extraction_job tenant_id job_id = do
  job ← query (ExtractionJobs.find_by_id tenant_id job_id)
  require job (extraction_job_not_found job_id)
