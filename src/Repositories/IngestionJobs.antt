-- ===== src/Repositories/IngestionJobs.antt =====
-- app/repositories/ingestion_jobs.py
use contract_change_intel.Prelude.{ℕ, ◌+◌, Text, [], ◌∷◌, ◌++◌, Option, Bool, not, ◌==◌, select}
use contract_change_intel.Store.Json.{Json}
use contract_change_intel.Store.Rows.{Job, IngestionJob, Db, Ctx}
use contract_change_intel.Jobs.Table
use contract_change_intel.Jobs.Table.{new_job, save, completed_with, failed_with}
use contract_change_intel.Jobs.Claims

unfoldable pub create : Ctx → ℕ → ℕ → Db → IngestionJob × Db
create ctx tenant_id document_id db =
    let job = new_job ctx db.next_id tenant_id document_id in
    (job, record db { ingestion_jobs = db.ingestion_jobs ++ job ∷ []; next_id = db.next_id + 1 })

unfoldable pub find_by_id : ℕ → ℕ → Db → Option IngestionJob
unfolding Table.find_by_id
find_by_id tenant_id job_id db = Table.find_by_id tenant_id job_id db.ingestion_jobs

unfoldable pub find_active_for_document : ℕ → Db → Option IngestionJob
find_active_for_document document_id db =
    Table.find_active (λ d. d == document_id) db.ingestion_jobs

unfoldable pub find_latest_for_document : ℕ → Db → Option IngestionJob
find_latest_for_document document_id db =
    Table.find_latest (λ d. d == document_id) db.ingestion_jobs

unfoldable pub claim_next_queued : Ctx → (ℕ → Bool) → Db → Option IngestionJob × Db
claim_next_queued ctx locked db =
    let (job, jobs) = Claims.claim_next ctx.now locked db.ingestion_jobs in
    (job, record db { ingestion_jobs = jobs })

unfoldable pub mark_completed : IngestionJob → Json → Db → Db
mark_completed job result db = record db {
  ingestion_jobs = save (completed_with result job) db.ingestion_jobs;
}

unfoldable pub mark_failed : IngestionJob → Text → Db → Db
mark_failed job error db = record db {
  ingestion_jobs = save (failed_with error job) db.ingestion_jobs;
}

unfoldable pub delete_for_document : ℕ → Db → Db
delete_for_document document_id db = record db {
  ingestion_jobs = select (λ (j : Job ℕ). not (j.subject == document_id)) db.ingestion_jobs;
}
