-- ===== src/Impact/Candidates.antt =====
-- Which obligations are shown.
use contract_change_intel.Prelude.{
  ℕ, ◌+◌, ◌≤◌, ◌<◌, List, [], ◌∷◌, true, false, ◌≡◌, refl, arith, ◌==◌, ◌||◌, not, length,
  length-append, exists, All, All-append, inl, inr, Bool-cases,
}
use mathlib.Core.List.{Memᴰ}
use contract_change_intel.Extraction.{Obligation}
use contract_change_intel.Search.{SearchHit}
use contract_change_intel.Impact.{
  overlaps, Picking, visit, visit_obligations, visit_chunks, select_candidates,
}

-- The candidates are no more than the limit, and fewer while the loops go on.
record IsBounded (limit : ℕ) (st : Picking) : Type 0 where
  capped : length st.selected ≤ limit
  open_below : st.is_full ≡ false → length st.selected < limit

module _ (limit : ℕ) where
  visit-IsBounded :
      (chunk : SearchHit) (st : Picking) (index : ℕ) (o : Obligation)
      → IsBounded limit st
      → IsBounded limit (visit limit chunk st index o)
  unfolding visit
  visit-IsBounded chunk st index o b = ground (arith, length-append st.selected (o ∷ []))

  visit_obligations-IsBounded :
      (chunk : SearchHit) (st : Picking) (index : ℕ) (obligations : List Obligation)
      → IsBounded limit st
      → IsBounded limit (visit_obligations limit chunk st index obligations)
  unfolding visit_obligations
  visit_obligations-IsBounded chunk st index [] b = b
  visit_obligations-IsBounded chunk st index (o ∷ obligations) b =
      visit_obligations-IsBounded chunk (visit limit chunk st index o) (index + 1) obligations
        (visit-IsBounded chunk st index o b)

  visit_chunks-IsBounded :
      (obligations : List Obligation) (st : Picking) (chunks : List SearchHit)
      → IsBounded limit st
      → IsBounded limit (visit_chunks limit obligations st chunks)
  unfolding visit_chunks
  visit_chunks-IsBounded obligations st [] b = b
  visit_chunks-IsBounded obligations st (chunk ∷ chunks) b =
      visit_chunks-IsBounded obligations (visit_obligations limit chunk st 0 obligations) chunks
        (visit_obligations-IsBounded chunk st 0 obligations b)

-- At most `limit` obligations are shown to the model, if the limit is not zero.
pub select_candidates-bounded :
    (obligations : List Obligation) (chunks : List SearchHit) (limit : ℕ)
    → 0 < limit
    → length (select_candidates obligations chunks limit) ≤ limit
unfolding select_candidates
select_candidates-bounded obligations chunks limit h =
    (visit_chunks-IsBounded limit obligations
      (record { picked = []; selected = []; is_full = false }) chunks
      (record { capped = omega arith; open_below = λ _. h })).capped

-- An obligation whose citation overlaps one of the chunks.
abbrev pub Overlapping : List Obligation → List SearchHit → Obligation → Type 0
Overlapping obligations chunks o =
    Memᴰ o obligations × ((chunk : SearchHit) × Memᴰ chunk chunks × (overlaps chunk o ≡ true))

module _ (limit : ℕ) (obligations : List Obligation) (chunks : List SearchHit) where
  visit-Overlapping :
      (chunk : SearchHit) (st : Picking) (index : ℕ) (o : Obligation)
      → Memᴰ chunk chunks
      → Memᴰ o obligations
      → All (Overlapping obligations chunks) st.selected
      → All (Overlapping obligations chunks) (visit limit chunk st index o).selected
  unfolding visit
  visit-Overlapping chunk st index o mc mo h =
      elim (Bool-cases
        (st.is_full || exists (λ i. i == index) st.picked || not (overlaps chunk o))) [
          | inl e ↦ rw e h
          | inr e ↦ rw e (All-append _ st.selected (o ∷ []) h ((mo, (chunk, mc, ground arith)), tt))
        ]

  visit_obligations-Overlapping :
      (chunk : SearchHit) (st : Picking) (index : ℕ) (os : List Obligation)
      → Memᴰ chunk chunks
      → ((o : Obligation) → Memᴰ o os → Memᴰ o obligations)
      → All (Overlapping obligations chunks) st.selected
      → All (Overlapping obligations chunks) (visit_obligations limit chunk st index os).selected
  unfolding visit_obligations
  visit_obligations-Overlapping chunk st index [] mc sub h = h
  visit_obligations-Overlapping chunk st index (o ∷ os) mc sub h =
      visit_obligations-Overlapping chunk (visit limit chunk st index o) (index + 1) os mc
        (λ x m. sub x (Memᴰ.tail m))
        (visit-Overlapping chunk st index o mc (sub o (Memᴰ.head refl)) h)

  visit_chunks-Overlapping :
      (st : Picking) (cs : List SearchHit)
      → ((c : SearchHit) → Memᴰ c cs → Memᴰ c chunks)
      → All (Overlapping obligations chunks) st.selected
      → All (Overlapping obligations chunks) (visit_chunks limit obligations st cs).selected
  unfolding visit_chunks
  visit_chunks-Overlapping st [] sub h = h
  visit_chunks-Overlapping st (chunk ∷ cs) sub h =
      visit_chunks-Overlapping (visit_obligations limit chunk st 0 obligations) cs
        (λ x m. sub x (Memᴰ.tail m))
        (visit_obligations-Overlapping chunk st 0 obligations (sub chunk (Memᴰ.head refl))
          (λ o m. m) h)

-- Every obligation shown to the model is one of those given, and its citation overlaps one of the
-- retrieved chunks.
pub select_candidates-Overlapping :
    (obligations : List Obligation) (chunks : List SearchHit) (limit : ℕ)
    → All (Overlapping obligations chunks) (select_candidates obligations chunks limit)
unfolding select_candidates
select_candidates-Overlapping obligations chunks limit =
    visit_chunks-Overlapping limit obligations chunks
      (record { picked = []; selected = []; is_full = false }) chunks (λ c m. m) tt
