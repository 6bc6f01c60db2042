-- ===== src/Jobs/Claims/Order.antt =====
-- The order in which a claim takes rows, and the row that it takes.
use contract_change_intel.Prelude.{
  ℕ, List, [], ◌∷◌, select, Bool-cases, pick-none, All-of_mem, Option-cases, none, some, ◌⊎◌, inl,
  inr, All-select, Bool, true, false, not, ◌&&◌, ◌≡◌, arith, All, select-passes, of_select,
  pick-All, pick-least, IsOrder,
}
use mathlib.Core.List.{Memᴰ}
use contract_change_intel.Store.Rows.{Job}
use contract_change_intel.Jobs.Table.{older, save}
use contract_change_intel.Jobs.Claims.{runnable, next_runnable, claimed, claim_next}

none_selected {ℓ} :
    {A : Type ℓ} (test : A → Bool) (xs : List A)
    → select test xs ≡ []
    → All (λ x. test x ≡ false) xs
none_selected test [] h = tt
none_selected test (x ∷ xs) h = elim (Bool-cases (test x)) [
  | inl e ↦ let k : x ∷ select test xs ≡ [] = rw e at h in cc
  | inr e ↦ (e, none_selected test xs (rw e at h))
]

module _ {S : Type 0} where
  older-IsOrder : IsOrder (older {S = S})
  unfolding older
  older-IsOrder = record { asym = λ x y h. ground arith; cotrans = λ x y z h k. ground arith }

  -- A row may be claimed: the WHERE holds of it, and no other transaction holds its lock.
  abbrev pub claimable : ℕ → (ℕ → Bool) → Job S → Bool
  claimable now locked job = runnable now job && not (locked job.id)

  pub next_runnable-claimable :
      (now : ℕ) (locked : ℕ → Bool) (jobs : List (Job S)) {r : Job S}
      → next_runnable now locked jobs ≡ some r
      → claimable now locked r ≡ true
  unfolding next_runnable
  next_runnable-claimable now locked jobs h =
      pick-All older (λ j. claimable now locked j ≡ true) _ (select-passes _ jobs) h

  pub next_runnable-oldest :
      (now : ℕ) (locked : ℕ → Bool) (jobs : List (Job S)) {r : Job S}
      → next_runnable now locked jobs ≡ some r
      → All (λ j. claimable now locked j ≡ true → older j r ≡ false) jobs
  unfolding next_runnable
  next_runnable-oldest now locked jobs h =
      of_select _ (claimable now locked) jobs (pick-least older older-IsOrder _ h)

  pub next_runnable-All {κ} :
      (P : Job S → Type κ) (now : ℕ) (locked : ℕ → Bool) (jobs : List (Job S)) {r : Job S}
      → All P jobs
      → next_runnable now locked jobs ≡ some r
      → P r
  unfolding next_runnable
  next_runnable-All P now locked jobs all h = pick-All older P _ (All-select P _ jobs all) h

  -- A claim takes nothing and leaves the table, or takes the oldest row that may be claimed.
  pub claim_next-cases :
      (now : ℕ) (locked : ℕ → Bool) (jobs : List (Job S))
      → (claim_next now locked jobs ≡ (none, jobs))
        ⊎ ((r : Job S) × (next_runnable now locked jobs ≡ some r)
            × (claim_next now locked jobs ≡ (some (claimed now r), save (claimed now r) jobs)))
  unfolding claim_next
  claim_next-cases now locked jobs = elim (Option-cases (next_runnable now locked jobs)) [
    | inl e ↦ inl (rw e)
    | inr (r, e) ↦ inr (r, e, rw e)
  ]

  pub id-claimed : (now : ℕ) (r : Job S) → (claimed now r).id ≡ r.id
  unfolding claimed
  id-claimed now r = ground arith

  pub next_runnable-runnable :
      (now : ℕ) (locked : ℕ → Bool) (jobs : List (Job S)) {r : Job S}
      → next_runnable now locked jobs ≡ some r
      → runnable now r ≡ true
  next_runnable-runnable now locked jobs {r = r} h =
      ground (arith, next_runnable-claimable now locked jobs h)

  take_nothing :
      (now : ℕ) (locked : ℕ → Bool) (jobs : List (Job S))
      → next_runnable now locked jobs ≡ none
      → claim_next now locked jobs ≡ (none, jobs)
  unfolding claim_next
  take_nothing now locked jobs e = rw e

  take_row :
      (now : ℕ) (locked : ℕ → Bool) (jobs : List (Job S)) {r : Job S}
      → next_runnable now locked jobs ≡ some r
      → (claim_next now locked jobs).0 ≡ some (claimed now r)
  unfolding claim_next
  take_row now locked jobs e = rw e

  pub none-claimable :
      (now : ℕ) (locked : ℕ → Bool) (jobs : List (Job S))
      → next_runnable now locked jobs ≡ none
      → All (λ j. claimable now locked j ≡ false) jobs
  unfolding next_runnable
  none-claimable now locked jobs e = none_selected (claimable now locked) jobs (pick-none older _ e)

  -- A claim that returns a job took a row of the table that may be claimed, and no older row may be
  -- claimed; a claim that returns none leaves the table, and no row of it may be claimed.
  pub claim_next-oldest :
      (now : ℕ) (locked : ℕ → Bool) (jobs : List (Job S))
      → ((claim_next now locked jobs ≡ (none, jobs))
          × All (λ j. claimable now locked j ≡ false) jobs)
        ⊎ ((r : Job S) × Memᴰ r jobs
            × (claimable now locked r ≡ true)
            × ((claim_next now locked jobs).0 ≡ some (claimed now r))
            × All (λ j. claimable now locked j ≡ true → older j r ≡ false) jobs)
  claim_next-oldest now locked jobs = elim (Option-cases (next_runnable now locked jobs)) [
    | inl e ↦ inl (take_nothing now locked jobs e, none-claimable now locked jobs e)
    | inr (r, e) ↦ inr (
      r,
      next_runnable-All (λ j. Memᴰ j jobs) now locked jobs (All-of_mem _ jobs (λ _ m. m)) e,
      next_runnable-claimable now locked jobs e,
      take_row now locked jobs e,
      next_runnable-oldest now locked jobs e,
    )
  ]
