-- ===== src/Prelude/Select.antt =====
-- Comprehensions and queries: the rows that pass a test, the first of them, and what holds of all.
use mathlib.Core.Path.{◌≡◌, refl, sym, subst, ◌∙◌}
use mathlib.Core.Logic.{inl, inr}
use Prim.Native.Nat.{◌≤◌}
use mathlib.Core.Bool.{Bool, true, false, false≢true}
use mathlib.Core.Option.{Option, none, some}
use mathlib.Core.List.{List, [], ◌∷◌, ◌++◌, Memᴰ}
use native.Mathlib.Omega.{arith}
use contract_change_intel.Prelude.Tests.{if◌then◌else◌, Bool-cases}
use contract_change_intel.Prelude.Lists.{length}

-- `P` holds of every item.
abbrev pub All {ℓ κ} : {A : Type ℓ} → (A → Type κ) → List A → Type κ
All P [] = Unit
All P (x ∷ xs) = P x × All P xs

module _ {ℓ} {A : Type ℓ} where
  -- `[x for x in xs if test(x)]`, and the rows of a `WHERE`.
  abbrev pub select : (A → Bool) → List A → List A
  select test [] = []
  select test (x ∷ xs) = let rest = select test xs in if test x then x ∷ rest else rest

  -- `next((x for x in xs if test(x)), None)`.
  abbrev pub first : (A → Bool) → List A → Option A
  first test [] = none
  first test (x ∷ xs) = let rest = first test xs in if test x then some x else rest

  abbrev pub exists : (A → Bool) → List A → Bool
  exists test [] = false
  exists test (x ∷ xs) = let rest = exists test xs in if test x then true else rest

  -- Every row that passes the test, changed; the others as they are. An `UPDATE`.
  abbrev pub update_where : (A → Bool) → (A → A) → List A → List A
  update_where test f [] = []
  update_where test f (x ∷ xs) =
      let rest = update_where test f xs in if test x then f x ∷ rest else x ∷ rest

  pub select-append :
      (test : A → Bool) (xs ys : List A) → select test (xs ++ ys) ≡ select test xs ++ select test ys
  select-append test [] ys = refl
  select-append test (x ∷ xs) ys = ground (arith, select-append test xs ys)

  pub length-select_le : (test : A → Bool) (xs : List A) → length (select test xs) ≤ length xs
  length-select_le test [] = omega arith
  length-select_le test (x ∷ xs) = ground (arith, length-select_le test xs)

  pub All-append {κ} : (P : A → Type κ) (xs ys : List A) → All P xs → All P ys → All P (xs ++ ys)
  All-append P [] ys hx hy = hy
  All-append P (x ∷ xs) ys hx hy = (hx.0, All-append P xs ys hx.1 hy)

  pub All-map_implies {κ κ'} :
      (P : A → Type κ) (Q : A → Type κ') (xs : List A) → ((x : A) → P x → Q x) → All P xs → All Q xs
  All-map_implies P Q [] f h = tt
  All-map_implies P Q (x ∷ xs) f h = (f x h.0, All-map_implies P Q xs f h.1)

  pub All-select {κ} :
      (P : A → Type κ) (test : A → Bool) (xs : List A) → All P xs → All P (select test xs)
  All-select P test [] h = tt
  All-select P test (x ∷ xs) h =
      elim (test x) as (λ b. All P (if b then x ∷ select test xs else select test xs)) [
        | true ↦ (h.0, All-select P test xs h.1)
        | false ↦ All-select P test xs h.1
      ]

  pub All-update_where {κ} :
      (P : A → Type κ) (test : A → Bool) (f : A → A) (xs : List A)
      → ((x : A) → test x ≡ true → P x → P (f x))
      → All P xs
      → All P (update_where test f xs)
  All-update_where P test f [] keep h = tt
  All-update_where P test f (x ∷ xs) keep h =
      (elim (test x)
          as (λ b.
            (b ≡ true → P (f x))
            → All P (if b then f x ∷ update_where test f xs else x ∷ update_where test f xs)) [
              | true ↦ λ k. (k refl, All-update_where P test f xs keep h.1)
              | false ↦ λ k. (h.0, All-update_where P test f xs keep h.1)
            ])
        (λ e. keep x e h.0)

  -- Every row that a query returns passes its test.
  pub select-passes : (test : A → Bool) (xs : List A) → All (λ x. test x ≡ true) (select test xs)
  select-passes test [] = tt
  select-passes test (x ∷ xs) = elim (Bool-cases (test x)) [
    | inl e ↦ rw e (e, select-passes test xs)
    | inr e ↦ rw e (select-passes test xs)
  ]

  -- What holds of all rows that a query returns holds of each row that passes its test.
  pub of_select {κ} :
      (P : A → Type κ) (test : A → Bool) (xs : List A)
      → All P (select test xs)
      → All (λ x. test x ≡ true → P x) xs
  of_select P test [] h = tt
  of_select P test (x ∷ xs) h = elim (Bool-cases (test x)) [
    | inl e ↦
        let k : P x × All P (select test xs) = rw e at h in ((λ _. k.0), of_select P test xs k.1)
    | inr e ↦
        let k : All P (select test xs) = rw e at h in
        ((λ t. absurd (false≢true (sym e ∙ t))), of_select P test xs k)
  ]

  pub All-of_mem {κ} : (P : A → Type κ) (xs : List A) → ((x : A) → Memᴰ x xs → P x) → All P xs
  All-of_mem P [] f = tt
  All-of_mem P (x ∷ xs) f = (f x (Memᴰ.head refl), All-of_mem P xs (λ y m. f y (Memᴰ.tail m)))

  pub All-at {κ} : (P : A → Type κ) {x : A} (xs : List A) → All P xs → Memᴰ x xs → P x
  All-at P [] a m = elim m [ ]
  All-at P (y ∷ ys) a (Memᴰ.head e) = subst P (sym e) a.0
  All-at P (y ∷ ys) a (Memᴰ.tail m) = All-at P ys a.1 m

  pub All-overwrite {κ} :
      (P : A → Type κ) (test : A → Bool) (f : A → A) (xs : List A)
      → ((x : A) → test x ≡ true → P (f x))
      → ((x : A) → test x ≡ false → P x)
      → All P (update_where test f xs)
  All-overwrite P test f [] hit miss = tt
  All-overwrite P test f (x ∷ xs) hit miss = elim (Bool-cases (test x)) [
    | inl e ↦ rw e (hit x e, All-overwrite P test f xs hit miss)
    | inr e ↦ rw e (miss x e, All-overwrite P test f xs hit miss)
  ]

  pub first-found :
      (test : A → Bool) (xs : List A) {x : A} → first test xs ≡ some x → Memᴰ x xs × (test x ≡ true)
  first-found test [] h = absurd (ground arith)
  first-found test (y ∷ ys) {x = x} h = elim (Bool-cases (test y)) [
    | inl e ↦
        let same : some y ≡ some x = rw e at h in
        let y_x : y ≡ x = cc in (Memᴰ.head (sym y_x), subst (λ z. test z ≡ true) y_x e)
    | inr e ↦
        let later : first test ys ≡ some x = rw e at h in
        let (mem, passes) = first-found test ys later in (Memᴰ.tail mem, passes)
  ]

  pub first-none :
      (test : A → Bool) (xs : List A) → first test xs ≡ none → All (λ x. test x ≡ false) xs
  first-none test [] h = tt
  first-none test (x ∷ xs) h = elim (Bool-cases (test x)) [
    | inl e ↦ let never : some x ≡ none = rw e at h in absurd (ground arith)
    | inr e ↦ let later : first test xs ≡ none = rw e at h in (e, first-none test xs later)
  ]
