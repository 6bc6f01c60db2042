-- ===== src/Jobs/Claims/Invariant.antt =====
-- What the columns of a job row say together, and that every write keeps it.
use contract_change_intel.Prelude.{
  ℕ, ◌+◌, ◌≤◌, Text, List, none, Bool, true, false, ◌≡◌, ◌≢◌, arith, All, All-update_where, inl,
  inr,
}
use contract_change_intel.Store.Json.{Json}
use contract_change_intel.Store.Rows.{Job, Ctx, is_queued, is_running, is_completed, is_failed}
use contract_change_intel.Jobs.Table.{new_job, completed_with, failed_with}
use contract_change_intel.Jobs.Claims.{runnable, claimed, claim_next, max_attempts}
use contract_change_intel.Jobs.Claims.Order.{
  next_runnable-runnable, next_runnable-All, claim_next-cases,
}

-- A queued row is as new; a running row holds a lease and has been claimed at most `max_attempts`
-- times; a completed row has a result and no error, a failed one an error and no result, and
-- neither holds a lease.
pub record IsConsistent {S : Type 0} (job : Job S) : Type 0 where
  pub capped : job.attempts ≤ max_attempts + 1
  pub queued_fresh :
      is_queued job.status ≡ true
      → (job.attempts ≡ 0)
        × (job.result ≡ none)
        × (job.error ≡ none)
        × (job.lease_expires_at ≡ none)
  pub running_leased :
      is_running job.status ≡ true
      → (job.attempts ≤ max_attempts)
        × (job.result ≡ none)
        × (job.error ≡ none)
        × (job.lease_expires_at ≢ none)
  pub completed_done :
      is_completed job.status ≡ true
      → (job.result ≢ none) × (job.error ≡ none) × (job.lease_expires_at ≡ none)
  pub failed_done :
      is_failed job.status ≡ true
      → (job.result ≡ none) × (job.error ≢ none) × (job.lease_expires_at ≡ none)
  pub claimed_once : is_queued job.status ≡ false → 1 ≤ job.attempts

module _ {S : Type 0} where
  pub new_job-IsConsistent :
      (ctx : Ctx) (id tenant_id : ℕ) (subject : S) → IsConsistent (new_job ctx id tenant_id subject)
  new_job-IsConsistent ctx id tenant_id subject = ground arith

  pub claimed-IsConsistent :
      (now : ℕ) (job : Job S)
      → runnable now job ≡ true
      → IsConsistent job
      → IsConsistent (claimed now job)
  unfolding runnable claimed
  claimed-IsConsistent now job r c = ground arith

  pub completed_with-IsConsistent :
      (result : Json) (job : Job S)
      → is_queued job.status ≡ false
      → IsConsistent job
      → IsConsistent (completed_with result job)
  completed_with-IsConsistent result job q c = ground arith

  pub failed_with-IsConsistent :
      (error : Text) (job : Job S)
      → is_queued job.status ≡ false
      → IsConsistent job
      → IsConsistent (failed_with error job)
  failed_with-IsConsistent error job q c = ground arith

  -- Where every row of the table is consistent, every row is after a claim.
  pub claim_next-IsConsistent :
      (now : ℕ) (locked : ℕ → Bool) (jobs : List (Job S))
      → All IsConsistent jobs
      → All IsConsistent (claim_next now locked jobs).1
  claim_next-IsConsistent now locked jobs all = elim (claim_next-cases now locked jobs) [
    | inl e ↦ rw e all
    | inr (r, found, e) ↦ rw e (
        All-update_where IsConsistent _ _ jobs
          (λ _ _ _.
            claimed-IsConsistent now r (next_runnable-runnable now locked jobs found)
              (next_runnable-All IsConsistent now locked jobs all found))
          all)
  ]
