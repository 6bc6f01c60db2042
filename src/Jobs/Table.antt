-- ===== src/Jobs/Table.antt =====
-- One job table: the queries and updates that app/repositories/{ingestion,extraction,
-- change_report}_jobs.py make, for rows whose subject is of a type `S`.
use contract_change_intel.Prelude.{
  ℕ, Text, List, Option, none, some, Bool, ◌||◌, ◌&&◌, ltb, ◌==◌, select, first, pick, update_where,
  take,
}
use contract_change_intel.Store.Json.{Json}
use contract_change_intel.Store.Rows.{Job, Ctx, queued, completed, failed, is_queued, is_running}

module _ {S : Type 0} where
  -- The row that `Model(...)`, `session.add` and `commit` make, with the columns' defaults.
  abbrev pub new_job : Ctx → ℕ → ℕ → S → Job S
  new_job ctx id tenant_id subject = record {
    id = id;
    tenant_id = tenant_id;
    subject = subject;
    status = queued;
    result = none;
    error = none;
    attempts = 0;
    lease_expires_at = none;
    created_at = ctx.now;
  }

  abbrev pub has_id : ℕ → Job S → Bool
  has_id id job = job.id == id

  -- `session.commit()` of a changed instance: an UPDATE of the row with its key.
  abbrev pub save : Job S → List (Job S) → List (Job S)
  save job = update_where (has_id job.id) (λ _. job)

  abbrev pub completed_with : Json → Job S → Job S
  completed_with result job = record job {
    status = completed;
    result = some result;
    error = none;
    lease_expires_at = none;
  }

  -- `error[:1024]`, the width of the column.
  abbrev pub failed_with : Text → Job S → Job S
  failed_with error job = record job {
    status = failed;
    result = none;
    error = some (take 1024 error);
    lease_expires_at = none;
  }

  unfoldable pub find_by_id : ℕ → ℕ → List (Job S) → Option (Job S)
  find_by_id tenant_id job_id = first (λ job. job.id == job_id && job.tenant_id == tenant_id)

  -- ORDER BY created_at DESC, id ASC.
  unfoldable pub newer : Job S → Job S → Bool
  newer a b = ltb b.created_at a.created_at || (a.created_at == b.created_at && ltb a.id b.id)

  -- ORDER BY created_at ASC, id ASC.
  unfoldable pub older : Job S → Job S → Bool
  older a b = ltb a.created_at b.created_at || (a.created_at == b.created_at && ltb a.id b.id)

  abbrev pub is_active : Job S → Bool
  is_active job = is_queued job.status || is_running job.status

  unfoldable pub find_active : (S → Bool) → List (Job S) → Option (Job S)
  find_active about jobs = pick newer (select (λ job. about job.subject && is_active job) jobs)

  unfoldable pub find_latest : (S → Bool) → List (Job S) → Option (Job S)
  find_latest about jobs = pick newer (select (λ job. about job.subject) jobs)
