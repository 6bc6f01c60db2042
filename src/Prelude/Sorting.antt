-- ===== src/Prelude/Sorting.antt =====
-- `ORDER BY` and `sorted`: insertion sort, stable, with what it keeps.
use mathlib.Core.Path.{◌≡◌, refl}
use mathlib.Core.Logic.{inl, inr}
use mathlib.Core.Bool.{Bool, true, false}
use mathlib.Core.List.{List, [], ◌∷◌}
use native.Mathlib.Omega.{arith}
use Prim.Native.Nat.{suc, ◌+◌}
use contract_change_intel.Prelude.Lists.{length}
use contract_change_intel.Prelude.Tests.{if◌then◌else◌, Bool-cases}
use contract_change_intel.Prelude.Select.{All, All-map_implies, exists}
use contract_change_intel.Prelude.Pick.{IsOrder}

-- `R` holds of each item and each one after it.
abbrev pub Pairwise {ℓ κ} : {A : Type ℓ} → (A → A → Type κ) → List A → Type κ
Pairwise R [] = Unit
Pairwise R (x ∷ xs) = All (R x) xs × Pairwise R xs

module _ {ℓ} {A : Type ℓ} where
  -- `x` is put after every item that it does not come before.
  pub place : (A → A → Bool) → A → List A → List A
  place before x [] = x ∷ []
  place before x (y ∷ ys) =
      let rest = place before x ys in if before x y then x ∷ y ∷ ys else y ∷ rest

  sort_onto : (A → A → Bool) → List A → List A → List A
  sort_onto before sorted [] = sorted
  sort_onto before sorted (x ∷ xs) = sort_onto before (place before x sorted) xs

  unfoldable pub insert_by : (A → A → Bool) → List A → List A
  unfolding place sort_onto
  insert_by before xs = sort_onto before [] xs

module _ {ℓ} {A : Type ℓ} (before : A → A → Bool) where
  place-All {κ} :
      (P : A → Type κ) (x : A) (ys : List A) → P x → All P ys → All P (place before x ys)
  unfolding place
  place-All P x [] p h = (p, tt)
  place-All P x (y ∷ ys) p h = elim (Bool-cases (before x y)) [
    | inl e ↦ rw e (p, h)
    | inr e ↦ rw e (h.0, place-All P x ys p h.1)
  ]

  sort_onto-All {κ} :
      (P : A → Type κ) (sorted xs : List A)
      → All P sorted
      → All P xs
      → All P (sort_onto before sorted xs)
  unfolding sort_onto
  sort_onto-All P sorted [] s h = s
  sort_onto-All P sorted (x ∷ xs) s h =
      sort_onto-All P (place before x sorted) xs (place-All P x sorted h.0 s) h.1

  pub insert_by-All {κ} : (P : A → Type κ) (xs : List A) → All P xs → All P (insert_by before xs)
  unfolding insert_by
  insert_by-All P xs h = sort_onto-All P [] xs tt h

  place-Pairwise {κ} :
      (R : A → A → Type κ) (x : A) (ys : List A)
      → ((a b : A) → R a b → R b a)
      → All (R x) ys
      → Pairwise R ys
      → Pairwise R (place before x ys)
  unfolding place
  place-Pairwise R x [] symm r h = (tt, tt)
  place-Pairwise R x (y ∷ ys) symm r h = elim (Bool-cases (before x y)) [
    | inl e ↦ rw e (r, h)
    | inr e ↦ rw e (place-All (R y) x ys (symm x y r.0) h.0, place-Pairwise R x ys symm r.1 h.1)
  ]

  across {κ} :
      (R : A → A → Type κ) (x : A) (sorted ys : List A)
      → ((a b : A) → R a b → R b a)
      → All (R x) ys
      → All (λ y. All (R y) sorted) ys
      → All (λ y. All (R y) (place before x sorted)) ys
  across R x sorted [] symm a c = tt
  across R x sorted (y ∷ ys) symm a c =
      (place-All (R y) x sorted (symm x y a.0) c.0, across R x sorted ys symm a.1 c.1)

  sort_onto-Pairwise {κ} :
      (R : A → A → Type κ) (sorted xs : List A)
      → ((a b : A) → R a b → R b a)
      → All (λ x. All (R x) sorted) xs
      → Pairwise R sorted
      → Pairwise R xs
      → Pairwise R (sort_onto before sorted xs)
  unfolding sort_onto
  sort_onto-Pairwise R sorted [] symm c s h = s
  sort_onto-Pairwise R sorted (x ∷ xs) symm c s h =
      sort_onto-Pairwise R (place before x sorted) xs symm (across R x sorted xs symm h.0 c.1)
        (place-Pairwise R x sorted symm c.0 s) h.1

  all_empty {κ} : (R : A → A → Type κ) (xs : List A) → All (λ x. All (R x) []) xs
  all_empty R [] = tt
  all_empty R (x ∷ xs) = (tt, all_empty R xs)

  pub insert_by-Pairwise {κ} :
      (R : A → A → Type κ) (xs : List A)
      → ((a b : A) → R a b → R b a)
      → Pairwise R xs
      → Pairwise R (insert_by before xs)
  unfolding insert_by
  insert_by-Pairwise R xs symm h = sort_onto-Pairwise R [] xs symm (all_empty R xs) tt h

  exists-place :
      (test : A → Bool) (x : A) (ys : List A)
      → exists test (place before x ys) ≡ exists test (x ∷ ys)
  unfolding place
  exists-place test x [] = refl
  exists-place test x (y ∷ ys) = ground (arith, exists-place test x ys)

  exists-sort_onto :
      (test : A → Bool) (sorted xs : List A)
      → exists test (sort_onto before sorted xs)
        ≡ (if exists test sorted then true else exists test xs)
  unfolding sort_onto
  exists-sort_onto test sorted [] = ground arith
  exists-sort_onto test sorted (x ∷ xs) =
      ground (arith, exists-sort_onto test (place before x sorted) xs, exists-place test x sorted)

  pub exists-insert_by :
      (test : A → Bool) (xs : List A) → exists test (insert_by before xs) ≡ exists test xs
  unfolding insert_by
  exists-insert_by test xs = exists-sort_onto test [] xs

  place-All_of {κ} :
      (P : A → Type κ) (x : A) (ys : List A) → All P (place before x ys) → P x × All P ys
  unfolding place
  place-All_of P x [] h = h
  place-All_of P x (y ∷ ys) h = elim (Bool-cases (before x y)) [
    | inl e ↦ let k : P x × (P y × All P ys) = rw e at h in k
    | inr e ↦
        let k : P y × All P (place before x ys) = rw e at h in
        let (px, pys) = place-All_of P x ys k.1 in (px, (k.0, pys))
  ]

  sort_onto-All_of {κ} :
      (P : A → Type κ) (sorted xs : List A)
      → All P (sort_onto before sorted xs)
      → All P sorted × All P xs
  unfolding sort_onto
  sort_onto-All_of P sorted [] h = (h, tt)
  sort_onto-All_of P sorted (x ∷ xs) h =
      let (placed, rest) = sort_onto-All_of P (place before x sorted) xs h in
      let (px, old) = place-All_of P x sorted placed in (old, (px, rest))

  -- What holds of all sorted items holds of all items.
  pub insert_by-All_of {κ} : (P : A → Type κ) (xs : List A) → All P (insert_by before xs) → All P xs
  unfolding insert_by
  insert_by-All_of P xs h = (sort_onto-All_of P [] xs h).1

  length-place : (x : A) (ys : List A) → length (place before x ys) ≡ suc (length ys)
  unfolding place
  length-place x [] = refl
  length-place x (y ∷ ys) = elim (Bool-cases (before x y)) [
    | inl e ↦ rw e refl
    | inr e ↦ rw e (omega (arith, length-place x ys))
  ]

  length-sort_onto :
      (sorted xs : List A) → length (sort_onto before sorted xs) ≡ length sorted + length xs
  unfolding sort_onto
  length-sort_onto sorted [] = omega arith
  length-sort_onto sorted (x ∷ xs) =
      omega (arith, length-sort_onto (place before x sorted) xs, length-place x sorted)

  pub length-insert_by : (xs : List A) → length (insert_by before xs) ≡ length xs
  unfolding insert_by
  length-insert_by xs = omega (arith, length-sort_onto [] xs)

  -- No item comes before one that stands before it.
  abbrev pub IsSorted : List A → Type 0
  IsSorted = Pairwise (λ x y. before y x ≡ false)

  module _ (order : IsOrder before) where
    place-IsSorted : (x : A) (ys : List A) → IsSorted ys → IsSorted (place before x ys)
    unfolding place
    place-IsSorted x [] h = (tt, tt)
    place-IsSorted x (y ∷ ys) h = elim (Bool-cases (before x y)) [
      | inl e ↦
          let first = order.asym x y e in
          rw e ((first, All-map_implies _ _ ys (λ z k. order.cotrans z y x k first) h.0), h)
      | inr e ↦ rw e (place-All (λ z. before z y ≡ false) x ys e h.0, place-IsSorted x ys h.1)
    ]

    sort_onto-IsSorted :
        (sorted xs : List A) → IsSorted sorted → IsSorted (sort_onto before sorted xs)
    unfolding sort_onto
    sort_onto-IsSorted sorted [] h = h
    sort_onto-IsSorted sorted (x ∷ xs) h =
        sort_onto-IsSorted (place before x sorted) xs (place-IsSorted x sorted h)

    pub insert_by-IsSorted : (xs : List A) → IsSorted (insert_by before xs)
    unfolding insert_by
    insert_by-IsSorted xs = sort_onto-IsSorted [] xs tt
