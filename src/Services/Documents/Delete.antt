-- ===== src/Services/Documents/Delete.antt =====
-- Deletion: app/services/documents.py, `delete_document`.
pub mod Sweep
pub mod Effects
use contract_change_intel.Prelude.{ℕ, Text, Option, Bool, true, false, not, select, if◌then◌else◌}
use contract_change_intel.Store.Json.{Json, str, obj, field, end}
use contract_change_intel.Store.Rows.{Document, Db, Ctx}
use contract_change_intel.Store.Errors.{Error, document_has_amendments, integrity_error, os_error}
use contract_change_intel.Store.Exec.{
  Exec, Result, ok, err, ◌>>=◌, ◌>>◌, pure, query, write, raise_if,
}
use contract_change_intel.Repositories.Documents
use contract_change_intel.Repositories.DocumentTexts
use contract_change_intel.Repositories.DocumentChunks
use contract_change_intel.Repositories.IngestionJobs
use contract_change_intel.Repositories.ExtractionJobs
use contract_change_intel.Repositories.ChangeReportJobs
use contract_change_intel.Repositories.ReviewItems
use contract_change_intel.Repositories.Audit.{record_entry}
use contract_change_intel.Services.Documents.Upload.{at_key}
use contract_change_intel.Services.Documents.Read.{get_document}

-- The deletions that join the transaction of the document's own.
unfoldable pub sweep : ℕ → Db → Db
sweep id db =
    let (report_ids, db₁) = ChangeReportJobs.delete_for_amendment id db in
    let db₂ = ReviewItems.delete_for_jobs report_ids db₁ in
    let db₃ = ReviewItems.delete_for_document id db₂ in
    let db₄ = DocumentChunks.delete_for_document id db₃ in
    let db₅ = DocumentTexts.delete_for_document id db₄ in
    let db₆ = ExtractionJobs.delete_for_document id db₅ in IngestionJobs.delete_for_document id db₆

-- The `except IntegrityError` clause: the sweep is rolled back, to the database with what other
-- sessions have committed.
abbrev pub or_restricted : ℕ → Db → Result (Unit {0}) × Db → Result (Unit {0}) × Db
or_restricted id before (ok _, db) = (ok tt, db)
or_restricted id before (err integrity_error, db) = (
  err (if Documents.has_amendments id before then document_has_amendments id else integrity_error),
  before,
)
or_restricted id before (err e, db) = (err e, db)

-- app/storage/local.py, `delete_document`: a file that is gone already is no error. `is_denied` says
-- that the unlink raises another OSError.
unfoldable pub remove_file : Bool → ℕ → Text → Exec (Unit {0})
remove_file true tenant_id sha256 db = (err os_error, db)
remove_file false tenant_id sha256 db = (
  ok tt,
  record db { stored_files = select (λ f. not (at_key tenant_id sha256 f)) db.stored_files },
)

-- `meanwhile` is what other sessions commit between the check for amendments and the DELETE.
unfoldable pub delete_document : (Db → Db) → Bool → Ctx → ℕ → ℕ → Exec (Unit {0})
unfolding get_document sweep remove_file
delete_document meanwhile is_denied ctx tenant_id document_id = do
  document ← get_document tenant_id document_id
  amended ← query (Documents.has_amendments document_id)
  raise_if amended (document_has_amendments document_id)
  (λ db.
      or_restricted document_id (meanwhile db)
        (Documents.delete document (meanwhile (sweep document.id db))))
  remove_file is_denied tenant_id document.sha256
  write (
      record_entry ctx tenant_id "document.delete" "document" document.id
        (obj (field "filename" (str document.filename) (field "sha256" (str document.sha256) end))))
