-- ===== src/Services/ChangeReport.antt =====
-- app/services/change_report.py: the request side of change reports.
use contract_change_intel.Prelude.{ℕ, List, Option, none, some, Bool, false, not}
use contract_change_intel.Store.Json.{ident, obj, field, end}
use contract_change_intel.Store.Rows.{
  ChangeReportJob, ExtractionJob, Document, Ctx, is_parsed, is_completed,
}
use contract_change_intel.Store.Errors.{
  document_not_found, amendment_mismatch, prerequisite_missing, change_report_job_not_found,
  ingestion, extraction,
}
use contract_change_intel.Store.Exec.{
  Exec, ◌>>=◌, ◌>>◌, pure, query, write, made, require, raise_if,
}
use contract_change_intel.Repositories.Documents
use contract_change_intel.Repositories.Documents.{amends}
use contract_change_intel.Repositories.IngestionJobs
use contract_change_intel.Repositories.ExtractionJobs
use contract_change_intel.Repositories.ChangeReportJobs
use contract_change_intel.Repositories.Audit.{record_entry}
use contract_change_intel.Services.Extraction.{id_of}

abbrev pub latest_completed : Option ExtractionJob → Bool
latest_completed none = false
latest_completed (some job) = is_completed job.status

-- One turn of the loop over the two versions.
unfoldable pub check_prerequisites : Document → Exec (Unit {0})
check_prerequisites document = do
  latest ← query (IngestionJobs.find_latest_for_document document.id)
  raise_if (not (is_parsed document.status))
      (prerequisite_missing document.id ingestion (id_of latest))
  latest_extraction ← query (ExtractionJobs.find_latest_for_document document.id)
  raise_if (not (latest_completed latest_extraction))
      (prerequisite_missing document.id extraction (id_of latest_extraction))

unfoldable pub enqueue_change_report : Ctx → ℕ → ℕ → ℕ → Exec ChangeReportJob
unfolding check_prerequisites
enqueue_change_report ctx tenant_id base_document_id amended_document_id = do
  base_row ← query (Documents.find_by_id tenant_id base_document_id)
  base ← require base_row (document_not_found base_document_id)
  amended_row ← query (Documents.find_by_id tenant_id amended_document_id)
  amended ← require amended_row (document_not_found amended_document_id)
  raise_if (not (amends base.id amended)) (amendment_mismatch base.id amended.id)
  check_prerequisites base
  check_prerequisites amended
  job ← made (ChangeReportJobs.create ctx tenant_id base.id amended.id)
  write (
      record_entry ctx tenant_id "change_report.enqueue" "change_report_job" job.id (
        obj (
          field "base_document_id" (ident base.id)
            (field "amended_document_id" (ident amended.id) end))))
  pure job

unfoldable pub list_change_report_jobs : ℕ → ℕ → Exec (List ChangeReportJob)
list_change_report_jobs tenant_id base_document_id = do
  document ← query (Documents.find_by_id tenant_id base_document_id)
  require document (document_not_found base_document_id)
  query (ChangeReportJobs.list_for_base_document tenant_id base_document_id)

unfoldable pub get_change_report_job : ℕ → ℕ → Exec ChangeReportJob
get_change_report_job tenant_id job_id = do
  job ← query (ChangeReportJobs.find_by_id tenant_id job_id)
  require job (change_report_job_not_found job_id)
