-- ===== src/Repositories/ChangeReportJobs.antt =====
-- app/repositories/change_report_jobs.py
use contract_change_intel.Prelude.{
  ℕ, ◌+◌, Text, List, [], ◌∷◌, ◌++◌, Option, Bool, not, ◌&&◌, ◌==◌, select, insert_by, exists,
}
use contract_change_intel.Store.Json.{Json}
use contract_change_intel.Store.Rows.{ChangeReportJob, Db, Ctx}
use contract_change_intel.Jobs.Table
use contract_change_intel.Jobs.Table.{new_job, newer, save, completed_with, failed_with}
use contract_change_intel.Jobs.Claims

unfoldable pub list_for_base_document : ℕ → ℕ → Db → List ChangeReportJob
list_for_base_document tenant_id base_document_id db = insert_by newer (
    select
      (λ (j : ChangeReportJob).
        j.tenant_id == tenant_id && j.subject.base_document_id == base_document_id)
      db.change_report_jobs)

unfoldable pub create : Ctx → ℕ → ℕ → ℕ → Db → ChangeReportJob × Db
create ctx tenant_id base_document_id amended_document_id db =
    let job =
      new_job ctx db.next_id tenant_id (record {
        base_document_id = base_document_id;
        amended_document_id = amended_document_id;
      }) in
    (
      job,
      record db {
        change_report_jobs = db.change_report_jobs ++ job ∷ [];
        next_id = db.next_id + 1;
      },
    )

unfoldable pub find_by_id : ℕ → ℕ → Db → Option ChangeReportJob
unfolding Table.find_by_id
find_by_id tenant_id job_id db = Table.find_by_id tenant_id job_id db.change_report_jobs

unfoldable pub claim_next_queued : Ctx → (ℕ → Bool) → Db → Option ChangeReportJob × Db
claim_next_queued ctx locked db =
    let (job, jobs) = Claims.claim_next ctx.now locked db.change_report_jobs in
    (job, record db { change_report_jobs = jobs })

unfoldable pub mark_completed : ChangeReportJob → Json → Db → Db
mark_completed job result db = record db {
  change_report_jobs = save (completed_with result job) db.change_report_jobs;
}

unfoldable pub mark_failed : ChangeReportJob → Text → Db → Db
mark_failed job error db = record db {
  change_report_jobs = save (failed_with error job) db.change_report_jobs;
}

abbrev pub names_amendment : ℕ → ChangeReportJob → Bool
names_amendment id j = j.subject.amended_document_id == id

abbrev pub ids_of : List ChangeReportJob → List ℕ
ids_of [] = []
ids_of (j ∷ js) = j.id ∷ ids_of js

abbrev pub has_id_in : List ℕ → ChangeReportJob → Bool
has_id_in ids j = exists (λ id. id == j.id) ids

abbrev pub delete_ids : List ℕ → Db → Db
delete_ids [] db = db
delete_ids (id ∷ ids) db = record db {
  change_report_jobs = select (λ j. not (has_id_in (id ∷ ids) j)) db.change_report_jobs;
}

-- The ids of the deleted reports, and the database without them.
unfoldable pub delete_for_amendment : ℕ → Db → List ℕ × Db
delete_for_amendment amended_document_id db =
    let ids = ids_of (select (names_amendment amended_document_id) db.change_report_jobs) in
    (ids, delete_ids ids db)
