-- ===== src/Jobs/Claims/Budget.antt =====
-- Every claim that returns a row uses up one of the attempts that the table has left.
use contract_change_intel.Prelude.{
  ℕ, ◌+◌, ◌-◌, ◌*◌, ◌≤◌, List, [], ◌∷◌, Bool, true, false, ◌≡◌, refl, arith, All, All-at,
  All-of_mem, All-update_where, Bool-cases, inl, inr, if◌then◌else◌, length, update_where, ap, ◌∙◌,
}
use mathlib.Core.List.{Memᴰ}
use contract_change_intel.Store.Rows.{Job}
use contract_change_intel.Jobs.Table.{save, is_active, has_id}
use contract_change_intel.Jobs.Claims.{runnable, claimed, claim_next, max_attempts}
use contract_change_intel.Jobs.Claims.Invariant.{IsConsistent, claim_next-IsConsistent}
use contract_change_intel.Jobs.Claims.Order.{
  next_runnable-runnable, next_runnable-All, claim_next-cases, id-claimed,
}
use contract_change_intel.Jobs.Claims.Lease.{Attempt, claimed_ids, note_id}

module _ {S : Type 0} where
  -- How many more times a row can be claimed.
  remaining : Job S → ℕ
  remaining job = if is_active job then max_attempts + 1 - job.attempts else 0

  budget : List (Job S) → ℕ
  budget [] = 0
  budget (job ∷ jobs) = remaining job + budget jobs

  -- Ids are a primary key.
  abbrev pub UniqueIds : List (Job S) → Type 0
  UniqueIds [] = Unit
  UniqueIds (job ∷ jobs) = All (λ j. has_id job.id j ≡ false) jobs × UniqueIds jobs

  remaining-claimed :
      (now : ℕ) (r : Job S)
      → runnable now r ≡ true
      → IsConsistent r
      → remaining (claimed now r) + 1 ≤ remaining r
  unfolding remaining runnable claimed
  remaining-claimed now r h c = ground arith

  save_absent :
      (id : ℕ) (v : Job S) (jobs : List (Job S))
      → All (λ j. has_id id j ≡ false) jobs
      → update_where (has_id id) (λ _. v) jobs ≡ jobs
  save_absent id v [] h = refl
  save_absent id v (x ∷ jobs) h = rw (h.0, save_absent id v jobs h.1)

  budget-save :
      (v r : Job S) (jobs : List (Job S))
      → v.id ≡ r.id
      → UniqueIds jobs
      → Memᴰ r jobs
      → budget (save v jobs) + remaining r ≡ budget jobs + remaining v
  unfolding budget
  budget-save v r [] same u m = elim m [ ]
  budget-save v r (x ∷ jobs) same u (Memᴰ.head e) =
      let absent : All (λ j. has_id v.id j ≡ false) jobs =
        rw (same ∙ ap (λ (j : Job S). j.id) e) u.0 in
      ground (arith, ap (λ (j : Job S). j.id) e, ap remaining e, save_absent v.id v jobs absent)
  budget-save v r (x ∷ jobs) same u (Memᴰ.tail m) =
      ground
        (arith, All-at (λ j. has_id x.id j ≡ false) jobs u.0 m, budget-save v r jobs same u.1 m)

  absent-save :
      (id : ℕ) (v : Job S) (jobs : List (Job S))
      → All (λ j. has_id id j ≡ false) jobs
      → All (λ j. has_id id j ≡ false) (save v jobs)
  absent-save id v jobs h = All-update_where _ _ _ jobs (λ x hit k. ground arith) h

  UniqueIds-save : (v : Job S) (jobs : List (Job S)) → UniqueIds jobs → UniqueIds (save v jobs)
  UniqueIds-save v [] u = tt
  UniqueIds-save v (x ∷ jobs) u = elim (Bool-cases (has_id v.id x)) [
    | inl e ↦
        let same : x.id ≡ v.id = ground arith in
        rw e (absent-save v.id v jobs (rw (← same) u.0), UniqueIds-save v jobs u.1)
    | inr e ↦ rw e (absent-save x.id v jobs u.0, UniqueIds-save v jobs u.1)
  ]

  claim_next-UniqueIds :
      (now : ℕ) (locked : ℕ → Bool) (jobs : List (Job S))
      → UniqueIds jobs
      → UniqueIds (claim_next now locked jobs).1
  claim_next-UniqueIds now locked jobs u = elim (claim_next-cases now locked jobs) [
    | inl e ↦ rw e u
    | inr (r, found, e) ↦ rw e (UniqueIds-save (claimed now r) jobs u)
  ]

  -- One claim and the rest of the attempts left.
  budget-claim_next :
      (now : ℕ) (locked : ℕ → Bool) (jobs : List (Job S)) (ids : List ℕ)
      → All IsConsistent jobs
      → UniqueIds jobs
      → length ids ≤ budget (claim_next now locked jobs).1
      → length (note_id (claim_next now locked jobs).0 ids) ≤ budget jobs
  budget-claim_next now locked jobs ids all u h = elim (claim_next-cases now locked jobs) [
    | inl e ↦ rw e (rw e at h)
    | inr (r, found, e) ↦
        let member : Memᴰ r jobs =
          next_runnable-All (λ j. Memᴰ j jobs) now locked jobs (All-of_mem _ jobs (λ _ m. m))
            found in
        let h' : length ids ≤ budget (save (claimed now r) jobs) = rw e at h in
        rw e (
          omega (
            arith,
            h',
            budget-save (claimed now r) r jobs (id-claimed now r) u member,
            remaining-claimed now r (next_runnable-runnable now locked jobs found)
                (next_runnable-All IsConsistent now locked jobs all found),
          ))
  ]

  claimed_ids-budget :
      (attempts : List Attempt) (jobs : List (Job S))
      → All IsConsistent jobs
      → UniqueIds jobs
      → length (claimed_ids attempts jobs) ≤ budget jobs
  unfolding claimed_ids
  claimed_ids-budget [] jobs all u = omega arith
  claimed_ids-budget (a ∷ attempts) jobs all u = budget-claim_next a.now a.locked jobs _ all u (
      claimed_ids-budget attempts _ (claim_next-IsConsistent a.now a.locked jobs all)
        (claim_next-UniqueIds a.now a.locked jobs u))

  budget-le : (jobs : List (Job S)) → budget jobs ≤ (max_attempts + 1) * length jobs
  unfolding budget remaining
  budget-le [] = omega arith
  budget-le (x ∷ jobs) = ground (arith, budget-le jobs)

  -- In a table of consistent rows with distinct ids, however many claims are made, at whatever times,
  -- without any job being finished, they return a row at most four times for each row of the table:
  -- a job that crashes every worker is given up.
  pub claims_bounded :
      (attempts : List Attempt) (jobs : List (Job S))
      → All IsConsistent jobs
      → UniqueIds jobs
      → length (claimed_ids attempts jobs) ≤ (max_attempts + 1) * length jobs
  claims_bounded attempts jobs all u =
      omega (arith, claimed_ids-budget attempts jobs all u, budget-le jobs)
