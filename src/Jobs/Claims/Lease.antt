-- ===== src/Jobs/Claims/Lease.antt =====
-- While a lease lasts, no claim returns its row again.
use mathlib.Core.Bool.{false≢true}
use contract_change_intel.Prelude.{
  ℕ, ◌+◌, ◌*◌, ◌<◌, List, [], ◌∷◌, Option, none, some, Bool, true, false, ◌≡◌, arith, All,
  All-update_where, All-overwrite, sym, ◌∙◌, ◌==◌, inl, inr,
}
use contract_change_intel.Store.Rows.{Job, is_running}
use contract_change_intel.Jobs.Table.{save}
use contract_change_intel.Jobs.Claims.{runnable, claimed, claim_next, lease_seconds, micros}
use contract_change_intel.Jobs.Claims.Order.{
  next_runnable-runnable, next_runnable-All, claim_next-cases, id-claimed,
}

-- A claim by some worker: when, and which rows other transactions hold then.
pub record Attempt : Type 0 where
  pub now : ℕ
  pub locked : ℕ → Bool

module _ {S : Type 0} where
  abbrev pub note_id : Option (Job S) → List ℕ → List ℕ
  note_id none ids = ids
  note_id (some job) ids = job.id ∷ ids

  -- The ids of the rows that a sequence of claims returns.
  unfoldable pub claimed_ids : List Attempt → List (Job S) → List ℕ
  claimed_ids [] jobs = []
  claimed_ids (a ∷ attempts) jobs =
      let (job, jobs') = claim_next a.now a.locked jobs in note_id job (claimed_ids attempts jobs')

  abbrev HeldRow : ℕ → ℕ → Job S → Type 0
  HeldRow id until r =
      (r.id == id) ≡ true → (is_running r.status ≡ true) × (r.lease_expires_at ≡ some until)

  -- The rows with this id are running under a lease until then.
  abbrev Held : ℕ → ℕ → List (Job S) → Type 0
  Held id until = All (HeldRow id until)

  held_not_runnable :
      (id until now : ℕ) (r : Job S)
      → now < until
      → HeldRow id until r
      → runnable now r ≡ true
      → (r.id == id) ≡ false
  unfolding runnable
  held_not_runnable id until now r h held run = ground arith

  note-ne :
      (id until : ℕ) (a : Attempt) (jobs : List (Job S)) (ids : List ℕ)
      → a.now < until
      → Held id until jobs
      → All (λ i. (i == id) ≡ false) ids
      → All (λ i. (i == id) ≡ false) (note_id (claim_next a.now a.locked jobs).0 ids)
  note-ne id until a jobs ids h held rest = elim (claim_next-cases a.now a.locked jobs) [
    | inl e ↦ rw e rest
    | inr (r, found, e) ↦
        rw (e, id-claimed)
          (
            held_not_runnable id until a.now r h
                (next_runnable-All (HeldRow id until) a.now a.locked jobs held found)
                (next_runnable-runnable a.now a.locked jobs found),
            rest,
          )
  ]

  Held-claim_next :
      (id until : ℕ) (a : Attempt) (jobs : List (Job S))
      → a.now < until
      → Held id until jobs
      → Held id until (claim_next a.now a.locked jobs).1
  Held-claim_next id until a jobs h held = elim (claim_next-cases a.now a.locked jobs) [
    | inl e ↦ rw e held
    | inr (r, found, e) ↦
        let other : (r.id == id) ≡ false =
          held_not_runnable id until a.now r h
            (next_runnable-All (HeldRow id until) a.now a.locked jobs held found)
            (next_runnable-runnable a.now a.locked jobs found) in
        rw e (
          All-update_where (HeldRow id until) _ _ jobs
            (λ _ _ _ same. ground (arith, id-claimed a.now r)) held)
  ]

  claimed_ids-Held :
      (id until : ℕ) (attempts : List Attempt) (jobs : List (Job S))
      → All (λ a. a.now < until) attempts
      → Held id until jobs
      → All (λ i. (i == id) ≡ false) (claimed_ids attempts jobs)
  unfolding claimed_ids
  claimed_ids-Held id until [] jobs h held = tt
  claimed_ids-Held id until (a ∷ attempts) jobs h held =
      note-ne id until a jobs _ h.0 held
        (claimed_ids-Held id until attempts _ h.1 (Held-claim_next id until a jobs h.0 held))

  lease-claimed :
      (now : ℕ) (r : Job S)
      → is_running (claimed now r).status ≡ true
      → (claimed now r).lease_expires_at ≡ some (now + lease_seconds * micros)
  unfolding claimed
  lease-claimed now r h = ground arith

  Held-save :
      (now : ℕ) (r : Job S) (jobs : List (Job S))
      → is_running (claimed now r).status ≡ true
      → Held (claimed now r).id (now + lease_seconds * micros) (save (claimed now r) jobs)
  Held-save now r jobs h =
      All-overwrite (HeldRow (claimed now r).id (now + lease_seconds * micros)) _ _ jobs
        (λ _ _ _. (h, lease-claimed now r h))
        (λ x other same. absurd (false≢true (sym other ∙ same)))

  -- After a claim that returns a running row, whatever other claims are made by any workers before
  -- the lease of 15 minutes ends, none of them returns that row.
  pub claim_next-exclusive :
      (now : ℕ) (locked : ℕ → Bool) (jobs : List (Job S)) (job : Job S) (attempts : List Attempt)
      → (claim_next now locked jobs).0 ≡ some job
      → is_running job.status ≡ true
      → All (λ a. a.now < now + lease_seconds * micros) attempts
      → All (λ i. (i == job.id) ≡ false) (claimed_ids attempts (claim_next now locked jobs).1)
  claim_next-exclusive now locked jobs job attempts got run before =
      elim (claim_next-cases now locked jobs) [
        | inl e ↦ cc
        | inr (r, found, e) ↦
            let same : job ≡ claimed now r = cc in
            let run' : is_running (claimed now r).status ≡ true = rw same at run in
            rw (e, same)
              (claimed_ids-Held (claimed now r).id (now + lease_seconds * micros) attempts _ before
                (Held-save now r jobs run'))
      ]
