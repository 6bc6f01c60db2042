-- ===== src/Llm/Runs.antt =====
-- What every outcome of a run has, and what a run leaves as it is, one step after another.
use contract_change_intel.Prelude.{◌≡◌, refl, ◌∙◌, Option, none, some, inl, inr}
use contract_change_intel.Store.Rows.{Db}
use contract_change_intel.Llm.Failure.{
  Failure, Outcome, returned, raised, Outcome-cases, Run, ◌>>=◌, require,
}

module _ {B : Type 0} (of : Db → B) where
  -- A run leaves this part of the database as it is.
  abbrev pub Leaves : {A : Type 0} → Run A → Type 0
  Leaves m = (db : Db) → of (m db).1 ≡ of db

  pub Leaves-bind :
      {A C : Type 0} (m : Run A) (f : A → Run C)
      → Leaves m
      → ((a : A) → Leaves (f a))
      → Leaves (m >>= f)
  Leaves-bind m f first_part rest db = elim (Outcome-cases (m db).0) [
    | inl (a, e) ↦ rw e (rest a (m db).1 ∙ first_part db)
    | inr (z, e) ↦ rw e (first_part db)
  ]

  pub Leaves-require : {A : Type 0} (o : Option A) (e : Failure) → Leaves (require o e)
  Leaves-require none e db = refl
  Leaves-require (some a) e db = refl

-- `P` holds of what is returned, and `R` of what is raised.
abbrev pub Yields : {A : Type 0} → (A → Type 0) → (Failure → Type 0) → Outcome A → Type 0
Yields P R (returned a) = P a
Yields P R (raised e) = R e

abbrev pub Ensures : {A : Type 0} → (A → Type 0) → (Failure → Type 0) → Run A → Type 0
Ensures P R m = (db : Db) → Yields P R (m db).0

pub Ensures-bind :
    {A C : Type 0} (P : A → Type 0) (Q : C → Type 0) (R : Failure → Type 0) (m : Run A)
    (f : A → Run C)
    → Ensures P R m
    → ((a : A) → P a → Ensures Q R (f a))
    → Ensures Q R (m >>= f)
Ensures-bind P Q R m f first_part rest db =
    let have = first_part db in
    elim (Outcome-cases (m db).0) [
      | inl (a, e) ↦
          let holds : Yields P R (returned a) = rw e at have in rw e (rest a holds (m db).1)
      | inr (z, e) ↦ let holds : Yields P R (raised z) = rw e at have in rw e holds
    ]
