-- ===== src/Jobs/Claims.antt =====
-- app/repositories/job_claims.py: claim, lease and attempt cap.
pub mod Order
pub mod Invariant
pub mod Lease
pub mod Budget
use contract_change_intel.Prelude.{
  ℕ, ◌+◌, ◌*◌, codes, List, Option, none, some, Bool, false, not, ◌||◌, ◌&&◌, ltb, leb,
  if◌then◌else◌, select, pick,
}
use contract_change_intel.Store.Rows.{Job, running, failed, is_queued, is_running}
use contract_change_intel.Jobs.Table.{older, save}

-- Timestamps count microseconds.
abbrev pub micros : ℕ
micros = 1000000

abbrev pub lease_seconds : ℕ
lease_seconds = 15 * 60

abbrev pub max_attempts : ℕ
max_attempts = 3

-- `lease_expires_at <= now`, which is not true of NULL.
abbrev pub lapsed : ℕ → Option ℕ → Bool
lapsed now none = false
lapsed now (some t) = leb t now

module _ {S : Type 0} where
  -- The WHERE of the claim.
  unfoldable pub runnable : ℕ → Job S → Bool
  runnable now job =
      is_queued job.status || (is_running job.status && lapsed now job.lease_expires_at)

  -- What the claim does to the row that it took.
  unfoldable pub claimed : ℕ → Job S → Job S
  claimed now job =
      let attempts = job.attempts + 1 in
      if ltb max_attempts attempts
      then record job {
        attempts = attempts;
        status = failed;
        result = none;
        error = some (codes "max_attempts_exceeded");
        lease_expires_at = none;
      }
      else record job {
        attempts = attempts;
        status = running;
        lease_expires_at = some (now + lease_seconds * micros);
      }

  -- The row that `ORDER BY created_at, id LIMIT 1 FOR UPDATE SKIP LOCKED` yields; `locked` are the
  -- rows that other transactions hold.
  unfoldable pub next_runnable : ℕ → (ℕ → Bool) → List (Job S) → Option (Job S)
  next_runnable now locked jobs =
      pick older (select (λ job. runnable now job && not (locked job.id)) jobs)

  abbrev pub take_claim : ℕ → List (Job S) → Option (Job S) → Option (Job S) × List (Job S)
  take_claim now jobs none = (none, jobs)
  take_claim now jobs (some job) = (some (claimed now job), save (claimed now job) jobs)

  unfoldable pub claim_next : ℕ → (ℕ → Bool) → List (Job S) → Option (Job S) × List (Job S)
  claim_next now locked jobs = take_claim now jobs (next_runnable now locked jobs)
