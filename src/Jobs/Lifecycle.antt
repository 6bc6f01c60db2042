-- ===== src/Jobs/Lifecycle.antt =====
-- A job table as a lease queue: the phase of each job, and what a claim and an end do to it.
use contract_change_intel.Prelude.{
  ℕ, ◌+◌, ◌*◌, Text, List, [], ◌∷◌, Option, none, some, Bool, true, false, ltb, leb, ◌==◌, ◌≡◌,
  refl, ap, ◌∙◌, arith, All, if◌then◌else◌, Pairwise, inl, inr, Bool-cases, Option-cases,
}
use std.Path.{subst}
use contract_change_intel.Store.Json.{Json}
use contract_change_intel.Store.Rows.{Job, JobStatus, queued, running, completed, failed}
use contract_change_intel.Jobs.Table.{save, completed_with, failed_with}
use contract_change_intel.Jobs.Claims.{
  micros, lease_seconds, max_attempts, runnable, claimed, next_runnable, claim_next,
}
use contract_change_intel.Jobs.Claims.Order.{
  next_runnable-All, next_runnable-runnable, next_runnable-claimable, none-claimable, claimable,
  id-claimed,
}
use contract_change_intel.Jobs.Claims.Invariant.{IsConsistent}

-- Leased for the attempt with a number, up to a time.
pub data Phase : Type 0 where
  waiting : Phase
  leased : ℕ → ℕ → Phase
  finished given_up : Phase

abbrev pub can_lease : ℕ → Phase → Bool
can_lease now waiting = true
can_lease now (leased n until) = leb until now
can_lease now _ = false

-- The next attempt, if there is one left.
abbrev pub lease : ℕ → Phase → Phase
lease now waiting = leased 1 (now + lease_seconds * micros)
lease now (leased n until) =
    if ltb max_attempts (n + 1) then given_up else leased (n + 1) (now + lease_seconds * micros)
lease now p = p

-- The queue: the phase of each job.
abbrev pub Queue : Type 0
Queue = ℕ → Option Phase

abbrev pub moved : Phase → Option Phase → Option Phase
moved p none = none
moved p (some old) = some p

abbrev pub set_phase : ℕ → Phase → Queue → Queue
set_phase id p queue i = if i == id then moved p (queue i) else queue i

abbrev pub until_or : Option ℕ → ℕ
until_or none = 0
until_or (some t) = t

abbrev pub phase_with : JobStatus → ℕ → Option ℕ → Phase
phase_with queued n until = waiting
phase_with running n until = leased n (until_or until)
phase_with completed n until = finished
phase_with failed n until = given_up

module _ {S : Type 0} where
  abbrev pub phase_of : Job S → Phase
  phase_of job = phase_with job.status job.attempts job.lease_expires_at

  -- The queue that a table stands for: the order of the rows and their other columns are forgotten.
  abbrev pub view : List (Job S) → Queue
  view [] i = none
  view (x ∷ xs) i = let rest = view xs i in if x.id == i then some (phase_of x) else rest

  -- The rows have different ids.
  abbrev pub Keyed : List (Job S) → Type 0
  Keyed = Pairwise (λ (a b : Job S). (a.id == b.id) ≡ false)

  view-save :
      (j : Job S) (jobs : List (Job S)) (i : ℕ)
      → view (save j jobs) i ≡ set_phase j.id (phase_of j) (view jobs) i
  view-save j [] i = ground arith
  view-save j (x ∷ xs) i = ground (arith, view-save j xs i)

  view-later :
      (x : Job S) (xs ys : List (Job S))
      → All (λ y. (x.id == y.id) ≡ false) ys
      → All (λ (y : Job S). view xs y.id ≡ some (phase_of y)) ys
      → All (λ (y : Job S). view (x ∷ xs) y.id ≡ some (phase_of y)) ys
  view-later x xs [] d h = tt
  view-later x xs (y ∷ ys) d h = (ground (arith, d.0, h.0), view-later x xs ys d.1 h.1)

  view-own : (jobs : List (Job S)) → Keyed jobs → All (λ x. view jobs x.id ≡ some (phase_of x)) jobs
  view-own [] k = tt
  view-own (x ∷ xs) k = (ground arith, view-later x xs xs k.0 (view-own xs k.1))

  claimed-phase :
      (now : ℕ) (job : Job S)
      → runnable now job ≡ true
      → IsConsistent job
      → (phase_of (claimed now job) ≡ lease now (phase_of job))
        × (can_lease now (phase_of job) ≡ true)
  unfolding runnable claimed
  claimed-phase now job r c = (ground arith, ground arith)

  unclaimable-phase :
      (now : ℕ) (job : Job S)
      → runnable now job ≡ false
      → IsConsistent job
      → can_lease now (phase_of job) ≡ false
  unfolding runnable
  unclaimable-phase now job r c = ground arith

  view-All :
      (P : ℕ → Phase → Type 0) (jobs : List (Job S)) (i : ℕ) {p : Phase}
      → All (λ (x : Job S). P x.id (phase_of x)) jobs
      → view jobs i ≡ some p
      → P i p
  view-All P [] i h e = absurd (ground arith)
  view-All P (x ∷ xs) i {p = p} h e = elim (Bool-cases (x.id == i)) [
    | inl t ↦
        let found : some (phase_of x) ≡ some p = rw t at e in
        let same_phase : phase_of x ≡ p = cc in
        let same_id : x.id ≡ i = ground (arith, t) in
        subst (λ z. P i z) same_phase (subst (λ z. P z (phase_of x)) same_id h.0)
    | inr t ↦ let later : view xs i ≡ some p = rw t at e in view-All P xs i h.1 later
  ]

  -- A claim at a time, with the jobs that other transactions lock: it leases a job that it may
  -- lease, or there is none and it changes nothing.
  abbrev pub Claims : ℕ → (ℕ → Bool) → Queue → Option (Job S) → Queue → Type 0
  Claims now locked before none after =
      ((i : ℕ) (p : Phase) → locked i ≡ false → before i ≡ some p → can_lease now p ≡ false)
      × ((i : ℕ) → after i ≡ before i)
  Claims now locked before (some job) after =
      (p : Phase) × (locked job.id ≡ false)
      × (before job.id ≡ some p)
      × (can_lease now p ≡ true)
      × ((i : ℕ) → after i ≡ set_phase job.id (lease now p) before i)

  -- The table behaves as the queue that it stands for.
  pub record IsLeaseQueue (jobs : List (Job S)) : Type 0 where
    pub claims :
        (now : ℕ) (locked : ℕ → Bool)
        → Claims now locked
            (view jobs)
            (claim_next now locked jobs).0
            (view (claim_next now locked jobs).1)
    pub completes :
        (result : Json) (job : Job S) (i : ℕ)
        → view (save (completed_with result job) jobs) i ≡ set_phase job.id finished (view jobs) i
    pub fails :
        (error : Text) (job : Job S) (i : ℕ)
        → view (save (failed_with error job) jobs) i ≡ set_phase job.id given_up (view jobs) i

  unleasable :
      (now : ℕ) (locked : ℕ → Bool) (jobs : List (Job S))
      → All (λ j. claimable now locked j ≡ false) jobs
      → All IsConsistent jobs
      → All (λ (j : Job S). locked j.id ≡ false → can_lease now (phase_of j) ≡ false) jobs
  unleasable now locked [] h all = tt
  unleasable now locked (j ∷ jobs) h all = (
    λ unlocked. unclaimable-phase now j (ground (arith, h.0, unlocked)) all.0,
    unleasable now locked jobs h.1 all.1,
  )

  claim_next-Claims :
      (now : ℕ) (locked : ℕ → Bool) (jobs : List (Job S))
      → Keyed jobs
      → All IsConsistent jobs
      → Claims now locked
          (view jobs)
          (claim_next now locked jobs).0
          (view (claim_next now locked jobs).1)
  unfolding claim_next
  claim_next-Claims now locked jobs keyed all =
      elim (Option-cases (next_runnable now locked jobs)) [
        | inl e ↦
            let idle = unleasable now locked jobs (none-claimable now locked jobs e) all in
            rw e (
              λ i p unlocked here.
                  view-All (λ n q. locked n ≡ false → can_lease now q ≡ false) jobs i idle here
                    unlocked,
              λ i. refl,
            )
        | inr (r, found) ↦
            let (next, may) =
              claimed-phase now r (next_runnable-runnable now locked jobs found)
                (next_runnable-All IsConsistent now locked jobs all found) in
            let free : locked r.id ≡ false =
              ground (arith, next_runnable-claimable now locked jobs found) in
            let own =
              next_runnable-All (λ x. view jobs x.id ≡ some (phase_of x)) now locked jobs
                (view-own jobs keyed) found in
            rw found (
              phase_of r,
              ap locked (id-claimed now r) ∙ free,
              ap (view jobs) (id-claimed now r) ∙ own,
              may,
              λ i.
                  view-save (claimed now r) jobs i
                  ∙ ap (λ p. set_phase (claimed now r).id p (view jobs) i) next,
            )
      ]

  -- Where the rows of a table have different ids and are consistent, the table implements the lease
  -- queue that it stands for: a claim leases a job that no other transaction locks and that is
  -- waiting or whose lease has ended, or gives it up after its last attempt, and leaves the others;
  -- where there is no such job, it changes nothing; and the ends of a run finish the job or give it
  -- up and leave the others.
  pub table-IsLeaseQueue :
      (jobs : List (Job S)) → Keyed jobs → All IsConsistent jobs → IsLeaseQueue jobs
  table-IsLeaseQueue jobs keyed all = record {
    claims = λ now locked. claim_next-Claims now locked jobs keyed all;
    completes = λ result job i. view-save (completed_with result job) jobs i;
    fails = λ error job i. view-save (failed_with error job) jobs i;
  }
