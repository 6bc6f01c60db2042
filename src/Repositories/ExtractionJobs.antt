-- ===== src/Repositories/ExtractionJobs.antt =====
-- app/repositories/extraction_jobs.py
use contract_change_intel.Prelude.{ℕ, ◌+◌, Text, [], ◌∷◌, ◌++◌, Option, Bool, not, ◌==◌, select}
use contract_change_intel.Store.Json.{Json}
use contract_change_intel.Store.Rows.{Job, ExtractionJob, Db, Ctx}
use contract_change_intel.Jobs.Table
use contract_change_intel.Jobs.Table.{new_job, save, completed_with, failed_with}
use contract_change_intel.Jobs.Claims

unfoldable pub create : Ctx → ℕ → ℕ → Db → ExtractionJob × Db
create ctx tenant_id document_id db =
    let job = new_job ctx db.next_id tenant_id document_id in
    (job, record db { extraction_jobs = db.extraction_jobs ++ job ∷ []; next_id = db.next_id + 1 })

unfoldable pub find_by_id : ℕ → ℕ → Db → Option ExtractionJob
unfolding Table.find_by_id
find_by_id tenant_id job_id db = Table.find_by_id tenant_id job_id db.extraction_jobs

unfoldable pub find_active_for_document : ℕ → Db → Option ExtractionJob
find_active_for_document document_id db =
    Table.find_active (λ d. d == document_id) db.extraction_jobs

unfoldable pub find_latest_for_document : ℕ → Db → Option ExtractionJob
find_latest_for_document document_id db =
    Table.find_latest (λ d. d == document_id) db.extraction_jobs

unfoldable pub claim_next_queued : Ctx → (ℕ → Bool) → Db → Option ExtractionJob × Db
claim_next_queued ctx locked db =
    let (job, jobs) = Claims.claim_next ctx.now locked db.extraction_jobs in
    (job, record db { extraction_jobs = jobs })

unfoldable pub mark_completed : ExtractionJob → Json → Db → Db
mark_completed job result db = record db {
  extraction_jobs = save (completed_with result job) db.extraction_jobs;
}

unfoldable pub mark_failed : ExtractionJob → Text → Db → Db
mark_failed job error db = record db {
  extraction_jobs = save (failed_with error job) db.extraction_jobs;
}

unfoldable pub delete_for_document : ℕ → Db → Db
delete_for_document document_id db = record db {
  extraction_jobs = select (λ (j : Job ℕ). not (j.subject == document_id)) db.extraction_jobs;
}
