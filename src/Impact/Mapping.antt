-- ===== src/Impact/Mapping.antt =====
-- What the check of the model's reply lets through.
use contract_change_intel.Prelude.{
  ℕ, List, [], ◌∷◌, Option, none, some, ◌≡◌, ◌≢◌, All-map_implies, refl, ◌==◌, exists, All, inl,
  inr, Bool-cases, Option-cases,
}
use mathlib.Core.List.{Memᴰ}
use contract_change_intel.Extraction.{Obligation}
use contract_change_intel.Impact.{
  MappedImpact, Impact, Mapped, mapped, unknown_index, with_impact, candidate_at, index_of,
  map_loop, map_change_impacts,
}

-- The impact is one that the model reported, for a candidate at the index that it gave.
abbrev pub IsReported : List Obligation → List MappedImpact → Impact → Type 0
IsReported candidates impacts i =
    (m : MappedImpact) × Memᴰ m impacts
    × (candidate_at candidates m.index ≡ some i.obligation)
    × (i.confidence ≡ m.confidence)

-- What the outcome of the check has to do with the reply.
abbrev pub IsChecked : List Obligation → List MappedImpact → Mapped → Type 0
IsChecked candidates impacts (mapped is) =
    All (λ (m : MappedImpact). candidate_at candidates m.index ≢ none) impacts
    × All (IsReported candidates impacts) is
IsChecked candidates impacts (unknown_index n) =
    (m : MappedImpact) × Memᴰ m impacts × (candidate_at candidates m.index ≡ none) × (m.index ≡ n)

some_not_none {ℓ} : {A : Type ℓ} {x : Option A} {a : A} → x ≡ some a → x ≢ none
some_not_none h k = cc

module _ (candidates : List Obligation) where
  further :
      (m : MappedImpact) (ms : List MappedImpact) (i : Impact)
      → IsReported candidates ms i
      → IsReported candidates (m ∷ ms) i
  further m ms i (x, mem, e, c) = (x, Memᴰ.tail mem, e, c)

  weaken :
      (m : MappedImpact) (ms : List MappedImpact) (r : Mapped)
      → candidate_at candidates m.index ≢ none
      → IsChecked candidates ms r
      → IsChecked candidates (m ∷ ms) r
  weaken m ms (mapped is) known (a, b) = ((known, a), All-map_implies _ _ is (further m ms) b)
  weaken m ms (unknown_index n) known (x, mem, e, c) = (x, Memᴰ.tail mem, e, c)

  with_impact-IsChecked :
      (m : MappedImpact) (ms : List MappedImpact) (o : Obligation) (r : Mapped)
      → candidate_at candidates m.index ≡ some o
      → IsChecked candidates (m ∷ ms) r
      → IsChecked candidates
          (m ∷ ms)
          (with_impact (record { obligation = o; confidence = m.confidence }) r)
  with_impact-IsChecked m ms o (mapped is) e (a, b) = (a, ((m, Memᴰ.head refl, e, refl), b))
  with_impact-IsChecked m ms o (unknown_index n) e h = h

  map_loop-IsChecked :
      (seen : List ℕ) (ms : List MappedImpact)
      → IsChecked candidates ms (map_loop candidates seen ms)
  unfolding map_loop
  map_loop-IsChecked seen [] = (tt, tt)
  map_loop-IsChecked seen (m ∷ ms) = elim (Option-cases (candidate_at candidates m.index)) [
    | inl e ↦ rw e (m, Memᴰ.head refl, e, refl)
    | inr (o, e) ↦
        let known : candidate_at candidates m.index ≢ none = λ z. some_not_none e z in
        elim (Bool-cases (exists (λ i. i == index_of m.index) seen)) [
          | inl s ↦ rw (e, s) (weaken m ms _ known (map_loop-IsChecked seen ms))
          | inr s ↦
              rw (e, s)
                (with_impact-IsChecked m ms o _ e
                  (weaken m ms _ known (map_loop-IsChecked (index_of m.index ∷ seen) ms)))
        ]
  ]

-- Where there is a candidate, a reply is refused only for an index in it that is no candidate's;
-- otherwise all its indices are candidates', and each impact is one that the reply reports, for the
-- candidate at its index and with its confidence.
pub map_change_impacts-IsChecked :
    (o : Obligation) (candidates : List Obligation) (impacts : List MappedImpact)
    → IsChecked (o ∷ candidates) impacts (map_change_impacts (o ∷ candidates) impacts)
unfolding map_change_impacts
map_change_impacts-IsChecked o candidates impacts = map_loop-IsChecked (o ∷ candidates) [] impacts
