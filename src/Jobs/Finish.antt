-- ===== src/Jobs/Finish.antt =====
-- The end of a claimed job's run, in any of the three tables.
use contract_change_intel.Prelude.{
  ℕ, Text, List, none, some, Bool, true, false, ◌≡◌, refl, sym, ◌∙◌, arith, All, All-overwrite,
  All-update_where, ◌==◌, ◌||◌, inl, inr, ◌⊎◌,
}
use mathlib.Core.Bool.{false≢true}
use contract_change_intel.Store.Json.{Json}
use contract_change_intel.Store.Rows.{Job, JobStatus, is_completed, is_failed, is_queued}
use contract_change_intel.Jobs.Table.{save, completed_with, failed_with}
use contract_change_intel.Jobs.Claims.{claim_next, claimed}
use contract_change_intel.Jobs.Claims.Order.{
  claim_next-cases, next_runnable-All, next_runnable-runnable,
}
use contract_change_intel.Jobs.Claims.Invariant.{
  IsConsistent, claimed-IsConsistent, completed_with-IsConsistent, failed_with-IsConsistent,
  claim_next-IsConsistent,
}

abbrev pub is_done : JobStatus → Bool
is_done s = is_completed s || is_failed s

module _ {S : Type 0} where
  abbrev pub IsDoneRow : ℕ → Job S → Type 0
  IsDoneRow id r = (r.id == id) ≡ true → is_done r.status ≡ true

  -- The rows with this id are finished, and all rows are consistent.
  abbrev pub AreFinished : ℕ → List (Job S) → Type 0
  AreFinished id jobs = All (IsDoneRow id) jobs × All IsConsistent jobs

  pub save-IsDoneRow :
      (j : Job S) (jobs : List (Job S))
      → is_done j.status ≡ true
      → All (IsDoneRow j.id) (save j jobs)
  save-IsDoneRow j jobs h =
      All-overwrite (IsDoneRow j.id) _ _ jobs (λ _ _ _. h)
        (λ x other same. absurd (false≢true (sym other ∙ same)))

  pub completed-AreFinished :
      (result : Json) (job : Job S) (jobs : List (Job S))
      → is_queued job.status ≡ false
      → IsConsistent job
      → All IsConsistent jobs
      → AreFinished job.id (save (completed_with result job) jobs)
  completed-AreFinished result job jobs fresh consistent all = (
    save-IsDoneRow (completed_with result job) jobs refl,
    All-update_where IsConsistent _ _ jobs
        (λ _ _ _. completed_with-IsConsistent result job fresh consistent) all,
  )

  pub failed-AreFinished :
      (error : Text) (job : Job S) (jobs : List (Job S))
      → is_queued job.status ≡ false
      → IsConsistent job
      → All IsConsistent jobs
      → AreFinished job.id (save (failed_with error job) jobs)
  failed-AreFinished error job jobs fresh consistent all = (
    save-IsDoneRow (failed_with error job) jobs refl,
    All-update_where IsConsistent _ _ jobs
        (λ _ _ _. failed_with-IsConsistent error job fresh consistent) all,
  )

  claimed-unqueued : (now : ℕ) (r : Job S) → is_queued (claimed now r).status ≡ false
  unfolding claimed
  claimed-unqueued now r = ground arith

  -- A job as a claim hands it to its runner, and the table at that moment.
  pub record IsHandedOver (job : Job S) (jobs : List (Job S)) : Type 0 where
    pub unqueued : is_queued job.status ≡ false
    pub consistent : IsConsistent job
    pub table : All IsConsistent jobs
    -- one that is past the attempt cap is failed in the table too
    pub saved : is_failed job.status ≡ true → AreFinished job.id jobs

  -- A claim of a consistent table takes no row and leaves the table, or hands a job over.
  pub claim_next-hands :
      (now : ℕ) (locked : ℕ → Bool) (jobs : List (Job S))
      → All IsConsistent jobs
      → (claim_next now locked jobs ≡ (none, jobs))
        ⊎ ((job : Job S) × (table : List (Job S)) × (claim_next now locked jobs ≡ (some job, table))
            × IsHandedOver job table)
  claim_next-hands now locked jobs all =
      let kept = claim_next-IsConsistent now locked jobs all in
      elim (claim_next-cases now locked jobs) [
        | inl e ↦ inl e
        | inr (r, found, e) ↦
            let table : All IsConsistent (save (claimed now r) jobs) = rw e at kept in
            inr (
              claimed now r,
              save (claimed now r) jobs,
              e,
              record {
                unqueued = claimed-unqueued now r;
                consistent =
                    claimed-IsConsistent now r (next_runnable-runnable now locked jobs found)
                      (next_runnable-All IsConsistent now locked jobs all found);
                table = table;
                saved = λ f. (save-IsDoneRow (claimed now r) jobs (ground (arith, f)), table);
              },
            )
      ]
