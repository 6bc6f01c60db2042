-- ===== src/Store/Json.antt =====
-- The `dict[str, Any]` values of the JSONB columns, and the shapes that the code writes into them.
use contract_change_intel.Prelude.{ℕ, ℤ, Text, String, List, [], ◌∷◌, Option, none, some}

mutual
  pub data Json : Type 0 where
    null : Json
    int : ℕ → Json
    -- an integer that may be negative
    signed : ℤ → Json
    -- a double, in units of 2^-1074
    float : ℤ → Json
    str : Text → Json
    -- the text of a UUID
    ident : ℕ → Json
    -- the value of an enumeration, a fixed word
    word : String → Json
    arr : Items → Json
    obj : Fields → Json

  pub data Items : Type 0 where
    nil : Items
    cons : Json → Items → Items

  pub data Fields : Type 0 where
    end : Fields
    field : String → Json → Fields → Fields

-- `f(x) if x is not None else None`.
abbrev pub opt_json {ℓ} : {A : Type ℓ} → (A → Json) → Option A → Json
opt_json f none = null
opt_json f (some a) = f a

abbrev pub items_of {ℓ} : {A : Type ℓ} → (A → Json) → List A → Items
items_of f [] = nil
items_of f (x ∷ xs) = cons (f x) (items_of f xs)
