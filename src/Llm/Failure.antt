-- ===== src/Llm/Failure.antt =====
-- The exceptions that a job's runner meets, and computations on the database that may raise them:
-- app/llm/client.py, `LlmError` and its subclasses, and ValueError.
use contract_change_intel.Prelude.{◌≡◌, refl, ◌⊎◌, inl, inr, Text, Option, none, some}
use contract_change_intel.Store.Rows.{Db}
use contract_change_intel.Repositories.Usage.{LlmUsage}

pub data Failure : Type 0 where
  -- LlmCallError: the call failed
  call_error : Text → Failure
  -- LlmOutputError: the reply is not usable; its usage, if the reply had one
  output_error : Text → Option LlmUsage → Failure
  -- another LlmError
  llm_error : Text → Failure
  value_error : Text → Failure
  -- any other Exception
  other_error : Text → Failure

-- `str(exc)`
abbrev pub message_of : Failure → Text
message_of (call_error m) = m
message_of (output_error m usage) = m
message_of (llm_error m) = m
message_of (value_error m) = m
message_of (other_error m) = m

-- `exc.usage if isinstance(exc, LlmOutputError) else None`
abbrev pub usage_of : Failure → Option LlmUsage
usage_of (output_error m usage) = usage
usage_of _ = none

pub data Outcome (A : Type 0) : Type 0 where
  returned : A → Outcome A
  raised : Failure → Outcome A

pub Outcome-cases :
    {A : Type 0} (o : Outcome A) → ((a : A) × (o ≡ returned a)) ⊎ ((e : Failure) × (o ≡ raised e))
Outcome-cases (returned a) = inl (a, refl)
Outcome-cases (raised e) = inr (e, refl)

-- What a call of the client gives beside its data.
pub record Reply (A : Type 0) : Type 0 where
  pub content : A
  pub usage : LlmUsage

-- What was written before a raise stays written.
abbrev pub Run : Type 0 → Type 0
Run A = Db → Outcome A × Db

abbrev pub follow : {A B : Type 0} → (A → Run B) → Outcome A → Run B
follow f (returned a) db = f a db
follow f (raised e) db = (raised e, db)

infixl 10 ◌>>=◌ ◌>>◌
abbrev pub ◌>>=◌ : {A B : Type 0} → Run A → (A → Run B) → Run B
◌>>=◌ m f db = follow f (m db).0 (m db).1

abbrev pub ◌>>◌ : {A B : Type 0} → Run A → Run B → Run B
m >> n = m >>= λ _. n

abbrev pub pure : {A : Type 0} → A → Run A
pure a db = (returned a, db)

abbrev pub raise : {A : Type 0} → Failure → Run A
raise e db = (raised e, db)

abbrev pub attempt : {A : Type 0} → Outcome A → Run A
attempt o db = (o, db)

abbrev pub query : {A : Type 0} → (Db → A) → Run A
query f db = (returned (f db), db)

abbrev pub write : (Db → Db) → Run (Unit {0})
write f db = (returned tt, f db)

-- `if x is None: raise e`
abbrev pub require : {A : Type 0} → Option A → Failure → Run A
require none e = raise e
require (some a) e = pure a
