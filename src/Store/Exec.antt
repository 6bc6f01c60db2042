-- ===== src/Store/Exec.antt =====
-- Service functions on one session: they read and write the database and may raise. What was
-- committed before a raise stays committed, so the database comes back beside the error too.
use contract_change_intel.Prelude.{Bool, true, false, Option, none, some}
use contract_change_intel.Store.Rows.{Db}
use contract_change_intel.Store.Errors.{Error}

pub data Result (A : Type 0) : Type 0 where
  ok : A → Result A
  err : Error → Result A

abbrev pub Exec : Type 0 → Type 0
Exec A = Db → Result A × Db

infixl 10 ◌>>=◌ ◌>>◌
abbrev pub resume : {A B : Type 0} → (A → Exec B) → Result A → Exec B
resume f (ok a) db = f a db
resume f (err e) db = (err e, db)

abbrev pub ◌>>=◌ : {A B : Type 0} → Exec A → (A → Exec B) → Exec B
◌>>=◌ m f db = resume f (m db).0 (m db).1

abbrev pub ◌>>◌ : {A B : Type 0} → Exec A → Exec B → Exec B
m >> n = m >>= λ _. n

abbrev pub pure : {A : Type 0} → A → Exec A
pure a db = (ok a, db)

abbrev pub raise : {A : Type 0} → Error → Exec A
raise e db = (err e, db)

-- A query.
abbrev pub query : {A : Type 0} → (Db → A) → Exec A
query f db = (ok (f db), db)

-- A write that does not fail.
abbrev pub write : (Db → Db) → Exec (Unit {0})
write f db = (ok tt, f db)

-- A write that returns what it made.
abbrev pub made : {A : Type 0} → (Db → A × Db) → Exec A
made f db = (ok (f db).0, (f db).1)

-- `if test: raise e`.
abbrev pub raise_if : Bool → Error → Exec (Unit {0})
raise_if true e = raise e
raise_if false e = pure tt

-- `if x is None: raise e`.
abbrev pub require : {A : Type 0} → Option A → Error → Exec A
require none e = raise e
require (some a) e = pure a

-- `if x is not None: raise e(x)`.
abbrev pub raise_on : {A : Type 0} → Option A → (A → Error) → Exec (Unit {0})
raise_on none e = pure tt
raise_on (some a) e = raise (e a)

-- What other sessions commit when there are none.
abbrev pub alone : Db → Db
alone db = db
