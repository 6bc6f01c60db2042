-- ===== src/Prelude/Pick.antt =====
-- `ORDER BY ... LIMIT 1`: the row that comes before all others.
use mathlib.Core.Path.{◌≡◌, refl, subst}
use mathlib.Core.Logic.{◌⊎◌, inl, inr}
use mathlib.Core.Bool.{Bool, true, false}
use mathlib.Core.Option.{Option, none, some}
use mathlib.Core.List.{List, [], ◌∷◌}
use native.Mathlib.Omega.{arith}
use contract_change_intel.Prelude.Tests.{if◌then◌else◌, Bool-cases, Option-cases}
use contract_change_intel.Prelude.Select.{All, All-map_implies}

module _ {ℓ} {A : Type ℓ} where
  abbrev pub better : (A → A → Bool) → A → Option A → Option A
  better before x none = some x
  better before x (some y) = if before y x then some y else some x

  unfoldable pub pick : (A → A → Bool) → List A → Option A
  pick before [] = none
  pick before (x ∷ xs) = better before x (pick before xs)

module _ {ℓ} {A : Type ℓ} (before : A → A → Bool) where
  pub pick-none : (xs : List A) → pick before xs ≡ none → xs ≡ []
  unfolding pick
  pick-none [] h = refl
  pick-none (x ∷ xs) h = ground arith

  better-some : (x : A) (o : Option A) {r : A} → better before x o ≡ some r → (x ≡ r) ⊎ (o ≡ some r)
  better-some x none h = inl (cc)
  better-some x (some y) h = ground arith

  -- What holds of every row holds of the row picked.
  pub pick-All {κ} :
      (P : A → Type κ) (xs : List A) {r : A} → All P xs → pick before xs ≡ some r → P r
  unfolding pick
  pick-All P [] a h = cc
  pick-All P (x ∷ xs) a h = elim (better-some x (pick before xs) h) [
    | inl e ↦ subst P e a.0
    | inr e ↦ pick-All P xs a.1 e
  ]

-- `before` is the strict part of a total preorder.
pub record IsOrder {ℓ} {A : Type ℓ} (before : A → A → Bool) : Type ℓ where
  pub asym : (x y : A) → before x y ≡ true → before y x ≡ false
  pub cotrans : (x y z : A) → before x y ≡ false → before y z ≡ false → before x z ≡ false

module _ {ℓ} {A : Type ℓ} (before : A → A → Bool) (order : IsOrder before) where
  before_irrefl : (x : A) → before x x ≡ false
  before_irrefl x = elim (Bool-cases (before x x)) [ inl e ↦ order.asym x x e | inr e ↦ e ]

  -- A row that comes before all of `xs` but `y`, the best of `xs`.
  least-cons :
      (x y : A) (xs : List A) {r : A}
      → better before x (some y) ≡ some r
      → All (λ z. before z y ≡ false) xs
      → All (λ z. before z r ≡ false) (x ∷ xs)
  least-cons x y xs {r = r} h a = elim (Bool-cases (before y x)) [
    | inl e ↦
        let p : y ≡ r = cc in
        subst (λ r. All (λ z. before z r ≡ false) (x ∷ xs)) p (order.asym y x e, a)
    | inr e ↦
        let p : x ≡ r = cc in
        subst (λ r. All (λ z. before z r ≡ false) (x ∷ xs)) p
          (before_irrefl x, All-map_implies _ _ xs (λ z k. order.cotrans z y x k e) a)
  ]

  -- No row comes before the row picked.
  pub pick-least :
      (xs : List A) {r : A} → pick before xs ≡ some r → All (λ y. before y r ≡ false) xs
  unfolding pick
  pick-least [] h = tt
  pick-least (x ∷ xs) {r = r} h = elim (Option-cases (pick before xs)) [
    | inl e ↦
        let p : x ≡ r = cc in
        rw (pick-none before xs e)
          (subst (λ r. All (λ z. before z r ≡ false) (x ∷ [])) p (before_irrefl x, tt))
    | inr (y, e) ↦ least-cons x y xs (rw e at h) (pick-least xs e)
  ]
