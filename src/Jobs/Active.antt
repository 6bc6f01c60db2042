-- ===== src/Jobs/Active.antt =====
-- How many jobs of a document are queued or running.
use contract_change_intel.Prelude.{
  ℕ, ◌≤◌, List, [], ◌∷◌, ◌++◌, none, Bool, ◌≡◌, arith, sym, select, length, ◌==◌, ◌&&◌, inl, inr,
  Bool-cases, select-append, length-append, pick-none,
}
use contract_change_intel.Store.Rows.{Job, Ctx}
use contract_change_intel.Jobs.Table.{new_job, is_active, find_active, newer}

abbrev pub about : ℕ → Job ℕ → Bool
about document_id job = (job.subject == document_id) && is_active job

-- No document has two jobs that are queued or running.
abbrev pub AtMostOneActive : List (Job ℕ) → Type 0
AtMostOneActive jobs = (document_id : ℕ) → length (select (about document_id) jobs) ≤ 1

-- A job for a document without one keeps that.
pub AtMostOneActive-new_job :
    (ctx : Ctx) (id tenant_id document_id : ℕ) (jobs : List (Job ℕ))
    → find_active (λ d. d == document_id) jobs ≡ none
    → AtMostOneActive jobs
    → AtMostOneActive (jobs ++ new_job ctx id tenant_id document_id ∷ [])
unfolding find_active
AtMostOneActive-new_job ctx id tenant_id document_id jobs h one n =
    let new = new_job ctx id tenant_id document_id in
    let idle : select (about document_id) jobs ≡ [] =
      pick-none newer (select (about document_id) jobs) h in
    let split = select-append (about n) jobs (new ∷ []) in
    rw split (elim (Bool-cases (document_id == n)) [
      | inl e ↦ let p : document_id ≡ n = ground arith in rw (sym p) (rw idle (ground arith))
      | inr e ↦
          let q : select (about n) (new ∷ []) ≡ [] = ground arith in
          rw q (ground (arith, one n, length-append (select (about n) jobs) []))
    ])
