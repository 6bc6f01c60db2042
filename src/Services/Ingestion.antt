-- ===== src/Services/Ingestion.antt =====
-- app/services/ingestion.py: the request side of ingestion.
use contract_change_intel.Prelude.{ℕ, not}
use contract_change_intel.Store.Json.{ident, obj, field, end}
use contract_change_intel.Store.Rows.{IngestionJob, Db, Ctx}
use contract_change_intel.Store.Errors.{
  document_not_found, ingestion_job_conflict, ingestion_job_not_found, integrity_error,
}
use contract_change_intel.Store.Exec.{
  Exec, ◌>>=◌, ◌>>◌, pure, query, write, made, require, raise_on, raise_if,
}
use contract_change_intel.Repositories.Documents
use contract_change_intel.Repositories.IngestionJobs
use contract_change_intel.Repositories.Audit.{record_entry}

-- `meanwhile` is what other sessions commit between the check for an active job and the INSERT, which
-- the foreign key refuses when the document is gone.
unfoldable pub enqueue_ingestion : (Db → Db) → Ctx → ℕ → ℕ → Exec IngestionJob
enqueue_ingestion meanwhile ctx tenant_id document_id = do
  document ← query (Documents.find_by_id tenant_id document_id)
  require document (document_not_found document_id)
  active ← query (IngestionJobs.find_active_for_document document_id)
  raise_on active (λ (j : IngestionJob). ingestion_job_conflict j.id)
  write meanwhile
  there ← query (λ db. Documents.document_exists db document_id)
  raise_if (not there) integrity_error
  job ← made (IngestionJobs.create ctx tenant_id document_id)
  write (
      record_entry ctx tenant_id "ingestion.enqueue" "ingestion_job" job.id
        (obj (field "document_id" (ident document_id) end)))
  pure job

unfoldable pub get_ingestion_job : ℕ → ℕ → Exec IngestionJob
get_ingestion_job tenant_id job_id = do
  job ← query (IngestionJobs.find_by_id tenant_id job_id)
  require job (ingestion_job_not_found job_id)
