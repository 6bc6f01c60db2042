-- ===== src/Tests/JobClaims.antt =====
-- A table of three ingestion jobs, one of them left behind by a worker that crashed.
use contract_change_intel.Prelude.{
  ℕ, ◌+◌, ◌*◌, ◌≤◌, List, [], ◌∷◌, none, some, Bool, true, false, ◌≡◌, refl, arith, All, ◌==◌, ◌⊎◌,
  length, pick,
}
use mathlib.Core.List.{Memᴰ}
use contract_change_intel.Store.Rows.{IngestionJob, Ctx}
use contract_change_intel.Jobs.Table.{new_job, older}
use contract_change_intel.Jobs.Claims.{runnable, claimed, next_runnable, claim_next, max_attempts}
use contract_change_intel.Jobs.Claims.Order.{claimable, claim_next-oldest}
use contract_change_intel.Jobs.Claims.Invariant.{
  IsConsistent, new_job-IsConsistent, claim_next-IsConsistent,
}
use contract_change_intel.Jobs.Claims.Lease.{Attempt, claimed_ids, claim_next-exclusive}
use contract_change_intel.Jobs.Claims.Budget.{claims_bounded}

abbrev at_time : ℕ → Ctx
at_time now = record { now = now; request_id = []; actor = none }

abbrev early : IngestionJob
early = new_job (at_time 10) 1 7 100

abbrev late : IngestionJob
late = new_job (at_time 20) 2 7 101

abbrev table : List IngestionJob
table = late ∷ early ∷ []

abbrev unlocked : ℕ → Bool
unlocked _ = false

abbrev attempts : List Attempt
attempts = record { now = 31; locked = unlocked } ∷ record { now = 32; locked = unlocked } ∷ []

table-IsConsistent : All IsConsistent table
table-IsConsistent =
    (new_job-IsConsistent (at_time 20) 2 7 101, (new_job-IsConsistent (at_time 10) 1 7 100, tt))

claim_next-exclusive_example :
    All (λ i. (i == 1) ≡ false) (claimed_ids attempts (claim_next 30 unlocked table).1)
unfolding claim_next next_runnable runnable claimed older pick
claim_next-exclusive_example =
    claim_next-exclusive 30 unlocked table (claimed 30 early) attempts refl refl
      (omega arith, (omega arith, tt))

claims_bounded_example : length (claimed_ids attempts table) ≤ (max_attempts + 1) * 2
claims_bounded_example = claims_bounded attempts table table-IsConsistent ((refl, tt), (tt, tt))

claim_next-oldest_example :
    ((claim_next 30 unlocked table ≡ (none, table))
      × All (λ j. claimable 30 unlocked j ≡ false) table)
    ⊎ ((r : IngestionJob) × Memᴰ r table
        × (claimable 30 unlocked r ≡ true)
        × ((claim_next 30 unlocked table).0 ≡ some (claimed 30 r))
        × All (λ j. claimable 30 unlocked j ≡ true → older j r ≡ false) table)
claim_next-oldest_example = claim_next-oldest 30 unlocked table

claim_next-IsConsistent_example : All IsConsistent (claim_next 30 unlocked table).1
claim_next-IsConsistent_example = claim_next-IsConsistent 30 unlocked table table-IsConsistent
