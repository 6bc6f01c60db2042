-- ===== src/Impact/Visit.antt =====
-- What one turn of the inner loop of `select_candidates` does.
use contract_change_intel.Prelude.{
  ℕ, List, [], ◌∷◌, some, true, false, ◌≡◌, refl, sym, ap, ◌∙◌, arith, ◌==◌, ◌||◌, not, length,
  exists, inl, inr, Bool-cases, get_elem?,
}
use mathlib.Core.List.{Memᴰ}
use mathlib.Core.List.Memᴰ.{append_left, append_right}
use contract_change_intel.Extraction.{Obligation}
use contract_change_intel.Search.{SearchHit}
use contract_change_intel.Impact.{overlaps, Picking, take_candidate, visit}

-- The loops have returned with as many candidates as the limit.
abbrev pub StopsAt : ℕ → Picking → Type 0
StopsAt limit st = st.is_full ≡ true → length st.selected ≡ limit

-- The obligation at an index that is picked is selected.
abbrev pub Covers : List Obligation → Picking → Type 0
Covers obligations st =
    (i : ℕ) (o : Obligation)
    → exists (λ j. j == i) st.picked ≡ true
    → get_elem? obligations i ≡ some o
    → Memᴰ o st.selected

some_injective {ℓ} : {A : Type ℓ} {x y : A} → some x ≡ some y → x ≡ y
some_injective h = cc

module _ (limit : ℕ) (obligations : List Obligation) where
  pub visit-StopsAt :
      (chunk : SearchHit) (st : Picking) (index : ℕ) (o : Obligation)
      → StopsAt limit st
      → StopsAt limit (visit limit chunk st index o)
  unfolding visit
  visit-StopsAt chunk st index o h = ground arith

  pub visit-open :
      (chunk : SearchHit) (st : Picking) (index : ℕ) (o : Obligation)
      → (visit limit chunk st index o).is_full ≡ false
      → st.is_full ≡ false
  unfolding visit
  visit-open chunk st index o h = ground arith

  pub visit-keeps :
      (chunk : SearchHit) (st : Picking) (index : ℕ) (o x : Obligation)
      → Memᴰ x st.selected
      → Memᴰ x (visit limit chunk st index o).selected
  unfolding visit
  visit-keeps chunk st index o x m =
      elim (Bool-cases
        (st.is_full || exists (λ i. i == index) st.picked || not (overlaps chunk o))) [
          | inl e ↦ rw e m
          | inr e ↦ rw e (append_left (o ∷ []) m)
        ]

  take-Covers :
      (st : Picking) (index : ℕ) (o : Obligation)
      → get_elem? obligations index ≡ some o
      → Covers obligations st
      → Covers obligations (take_candidate limit st index o)
  take-Covers st index o at_index c i x e g = elim (Bool-cases (index == i)) [
    | inl same ↦
        let p : index ≡ i = ground arith in
        let q : x ≡ o = some_injective (sym g ∙ (ap (get_elem? obligations) (sym p) ∙ at_index)) in
        append_right st.selected (Memᴰ.head q)
    | inr other ↦
        let k : exists (λ j. j == i) st.picked ≡ true = rw other at e in
        append_left (o ∷ []) (c i x k g)
  ]

  pub visit-Covers :
      (chunk : SearchHit) (st : Picking) (index : ℕ) (o : Obligation)
      → get_elem? obligations index ≡ some o
      → Covers obligations st
      → Covers obligations (visit limit chunk st index o)
  unfolding visit
  visit-Covers chunk st index o at_index c =
      elim (Bool-cases
        (st.is_full || exists (λ i. i == index) st.picked || not (overlaps chunk o))) [
          | inl e ↦ rw e c
          | inr e ↦ rw e (take-Covers st index o at_index c)
        ]

  pub visit-selects :
      (chunk : SearchHit) (st : Picking) (index : ℕ) (o : Obligation)
      → get_elem? obligations index ≡ some o
      → Covers obligations st
      → st.is_full ≡ false
      → overlaps chunk o ≡ true
      → Memᴰ o (visit limit chunk st index o).selected
  unfolding visit
  visit-selects chunk st index o at_index c f h =
      elim (Bool-cases (exists (λ i. i == index) st.picked)) [
        | inl e ↦ rw (f, e) (c index o e at_index)
        | inr e ↦ rw (f, e, h) (append_right st.selected (Memᴰ.head refl))
      ]
