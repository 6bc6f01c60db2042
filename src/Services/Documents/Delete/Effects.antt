-- ===== src/Services/Documents/Delete/Effects.antt =====
-- What a deletion leaves behind.
use contract_change_intel.Prelude.{
  ℕ, Text, List, [], ◌∷◌, none, some, false, not, ◌≡◌, refl, arith, first, exists, select, inl, inr,
  Bool, true, Bool-cases, ◌==◌, ◌&&◌,
}
use contract_change_intel.Store.Json.{str, obj, field, end}
use contract_change_intel.Store.Rows.{Document, StoredFile, Db, Ctx}
use contract_change_intel.Store.Errors.{os_error}
use contract_change_intel.Store.Exec.{alone, Exec, Result, ok, err, ◌>>◌, write}
use contract_change_intel.Repositories.Documents.{
  find_by_id, has_amendments, is_referenced, document_exists, delete,
}
use contract_change_intel.Repositories.Audit.{record_entry}
use contract_change_intel.Services.Documents.Upload.{at_key}
use contract_change_intel.Services.Documents.Read.{get_document}
use contract_change_intel.Services.Documents.Delete.{delete_document, sweep, remove_file}
use contract_change_intel.Services.Documents.Delete.Sweep.{
  compares_from, sweep-unreferenced, sweep-files,
}

exists_removed :
    (id : ℕ) (ds : List Document)
    → exists (λ (d : Document). d.id == id) (select (λ (d : Document). not (d.id == id)) ds) ≡ false
exists_removed id [] = refl
exists_removed id (d ∷ ds) = ground (arith, exists_removed id ds)

file_removed :
    (tenant_id : ℕ) (sha256 : Text) (fs : List StoredFile)
    → exists (at_key tenant_id sha256) (select (λ f. not (at_key tenant_id sha256 f)) fs) ≡ false
file_removed tenant_id sha256 [] = refl
file_removed tenant_id sha256 (f ∷ fs) = elim (Bool-cases (at_key tenant_id sha256 f)) [
  | inl e ↦ rw e (file_removed tenant_id sha256 fs)
  | inr e ↦ rw (e, e) (file_removed tenant_id sha256 fs)
]

id-found :
    (tenant_id document_id : ℕ) (ds : List Document) {d : Document}
    → first (λ (d : Document). d.id == document_id && d.tenant_id == tenant_id) ds ≡ some d
    → d.id ≡ document_id
id-found tenant_id document_id [] h = cc
id-found tenant_id document_id (x ∷ ds) {d = d} h =
    elim (Bool-cases (x.id == document_id && x.tenant_id == tenant_id)) [
      | inl e ↦ ground arith
      | inr e ↦ id-found tenant_id document_id ds {d = d} (rw e at h)
    ]

amended_removed :
    (id n : ℕ) (ds : List Document)
    → exists
        (λ (d : Document). elim d.amends_document_id [ none ↦ false | some parent ↦ parent == id ])
        ds
      ≡ false
    → exists
        (λ (d : Document). elim d.amends_document_id [ none ↦ false | some parent ↦ parent == id ])
        (select (λ (d : Document). not (d.id == n)) ds)
      ≡ false
amended_removed id n [] h = refl
amended_removed id n (d ∷ ds) h = ground (arith, amended_removed id n ds)

-- A DELETE that goes through leaves no row that names the document.
delete_ok :
    (d : Document) (db : Db) {db' : Db}
    → delete d db ≡ (ok tt, db')
    → (is_referenced d.id db' ≡ false) × (document_exists db' d.id ≡ false)
unfolding delete is_referenced has_amendments
delete_ok d db {db' = db'} h = elim (Bool-cases (is_referenced d.id db)) [
  | inl e ↦ ground arith
  | inr e ↦ (
    ground (arith, amended_removed d.id d.id db.documents),
    ground (arith, exists_removed d.id db.documents),
  )
]

-- No row of a table with a foreign key to the documents names the document, and its own is gone.
abbrev pub AreRowsGone : ℕ → Db → Type 0
AreRowsGone id db = (is_referenced id db ≡ false) × (document_exists db id ≡ false)

-- The rows and the file are gone.
abbrev pub IsGone : ℕ → Document → Db → Type 0
IsGone tenant_id d db =
    AreRowsGone d.id db × (exists (at_key tenant_id d.sha256) db.stored_files ≡ false)

abbrev without : Document → Db → Db
without d db = record db { documents = select (λ (x : Document). not (x.id == d.id)) db.documents }

-- The call succeeds and the document is gone, or the unlink is refused: the call raises, the rows are
-- gone and the files as they were.
abbrev pub Cleared : ℕ → Document → Db → Bool → Result (Unit {0}) × Db → Type 0
Cleared tenant_id d db false (r, db') = (r ≡ ok tt) × IsGone tenant_id d db'
Cleared tenant_id d db true (r, db') =
    (r ≡ err os_error) × AreRowsGone d.id db' × (db'.stored_files ≡ db.stored_files)

-- The steps behind the checks.
abbrev finish : Bool → Ctx → ℕ → Document → Exec (Unit {0})
finish is_denied ctx tenant_id d = do
  remove_file is_denied tenant_id d.sha256
  write (
      record_entry ctx tenant_id "document.delete" "document" d.id
        (obj (field "filename" (str d.filename) (field "sha256" (str d.sha256) end))))

finish-Cleared :
    (is_denied : Bool) (ctx : Ctx) (tenant_id : ℕ) (d : Document) (before db : Db)
    → is_referenced d.id db ≡ false
    → db.stored_files ≡ before.stored_files
    → Cleared tenant_id d before is_denied (finish is_denied ctx tenant_id d (without d db))
unfolding remove_file record_entry is_referenced has_amendments delete
finish-Cleared false ctx tenant_id d before db k f = (
  refl,
  (
    delete_ok d db {db' = without d db} (rw k refl),
    file_removed tenant_id d.sha256 db.stored_files,
  ),
)
finish-Cleared true ctx tenant_id d before db k f =
    (refl, delete_ok d db {db' = without d db} (rw k refl), f)

-- Where a tenant's document has no amendments and is not the base of a report, and no other session
-- writes to the database, its deletion is not refused: the sweep removes every row of the six tables
-- with a foreign key to it, and the document's own. Unless the unlink is refused, the call succeeds
-- and the file is gone too; otherwise it raises, with the rows gone and the file left.
pub delete_document-Cleared :
    (is_denied : Bool) (ctx : Ctx) (tenant_id document_id : ℕ) (db : Db) (d : Document)
    → find_by_id tenant_id document_id db ≡ some d
    → has_amendments document_id db ≡ false
    → exists (compares_from document_id) db.change_report_jobs ≡ false
    → Cleared tenant_id d db is_denied
        (delete_document alone is_denied ctx tenant_id document_id db)
unfolding delete_document get_document delete find_by_id
delete_document-Cleared is_denied ctx tenant_id document_id db d e a b =
    let same : d.id ≡ document_id = id-found tenant_id document_id db.documents e in
    let k : is_referenced d.id (sweep d.id db) ≡ false =
      sweep-unreferenced d.id db (rw same a) (rw same b) in
    rw (e, a, k)
      (finish-Cleared is_denied ctx tenant_id d db (sweep d.id db) k (sweep-files d.id db))
