-- ===== src/Repositories/Documents.antt =====
-- app/repositories/documents.py, and the constraints of the documents table that the services rely
-- on: the unique key (tenant_id, sha256) and the foreign keys into documents.
use contract_change_intel.Prelude.{
  ℕ, ◌+◌, Text, List, [], ◌∷◌, ◌++◌, Option, none, some, Bool, true, false, not, ◌||◌, ◌&&◌, ltb,
  ◌==◌, if◌then◌else◌, select, first, exists, update_where, text_eq, take, drop, length, insert_by,
}
use contract_change_intel.Store.Rows.{
  Document, DocumentStatus, DocumentText, DocumentChunk, Job, ReportPair, ReviewItem, Db, Ctx,
  uploaded,
}
use contract_change_intel.Store.Errors.{integrity_error}
use contract_change_intel.Store.Exec.{Exec, ok, err}

abbrev pub same_sha : ℕ → Text → Document → Bool
same_sha tenant_id sha256 d = d.tenant_id == tenant_id && text_eq d.sha256 sha256

abbrev pub amends : ℕ → Document → Bool
amends id d = elim d.amends_document_id [ none ↦ false | some parent ↦ parent == id ]

abbrev pub document_exists : Db → ℕ → Bool
document_exists db id = exists (λ (d : Document). d.id == id) db.documents

abbrev pub parent_exists : Db → Option ℕ → Bool
parent_exists db none = true
parent_exists db (some id) = document_exists db id

unfoldable pub find_by_sha256 : ℕ → Text → Db → Option Document
find_by_sha256 tenant_id sha256 db = first (same_sha tenant_id sha256) db.documents

unfoldable pub find_by_id : ℕ → ℕ → Db → Option Document
find_by_id tenant_id document_id db =
    first (λ (d : Document). d.id == document_id && d.tenant_id == tenant_id) db.documents

abbrev pub new_document : Ctx → ℕ → ℕ → Text → Text → Text → Option ℕ → Document
new_document ctx id tenant_id filename mime_type sha256 amends_document_id = record {
  id = id;
  tenant_id = tenant_id;
  filename = filename;
  mime_type = mime_type;
  sha256 = sha256;
  amends_document_id = amends_document_id;
  status = uploaded;
  created_at = ctx.now;
}

-- The INSERT fails on a second row with the tenant's hash, and on a parent that is not there.
unfoldable pub create : Ctx → ℕ → Text → Text → Text → Option ℕ → Exec Document
create ctx tenant_id filename mime_type sha256 amends_document_id db =
    let document =
      new_document ctx db.next_id tenant_id filename mime_type sha256 amends_document_id in
    if exists (same_sha tenant_id sha256) db.documents || not (parent_exists db amends_document_id)
    then (err integrity_error, db)
    else (
      ok document,
      record db { documents = db.documents ++ document ∷ []; next_id = db.next_id + 1 },
    )

-- ORDER BY created_at DESC, id ASC.
unfoldable pub newer : Document → Document → Bool
newer a b = ltb b.created_at a.created_at || (a.created_at == b.created_at && ltb a.id b.id)

unfoldable pub list_page : ℕ → ℕ → ℕ → Db → List Document
list_page tenant_id limit offset db = take limit (
    drop offset
      (insert_by newer (select (λ (d : Document). d.tenant_id == tenant_id) db.documents)))

unfoldable pub count_for_tenant : ℕ → Db → ℕ
count_for_tenant tenant_id db =
    length (select (λ (d : Document). d.tenant_id == tenant_id) db.documents)

unfoldable pub has_amendments : ℕ → Db → Bool
has_amendments document_id db = exists (amends document_id) db.documents

unfoldable pub set_status : Document → DocumentStatus → Db → Db
set_status document status db = record db {
  documents =
      update_where (λ (d : Document). d.id == document.id) (λ d. record d { status = status })
        db.documents;
}

-- Some row still names the document: the DELETE violates a foreign key.
unfoldable pub is_referenced : ℕ → Db → Bool
is_referenced id db =
    has_amendments id db
    || exists (λ (t : DocumentText). t.document_id == id) db.document_texts
    || exists (λ (c : DocumentChunk). c.document_id == id) db.document_chunks
    || exists (λ (j : Job ℕ). j.subject == id) db.ingestion_jobs
    || exists (λ (j : Job ℕ). j.subject == id) db.extraction_jobs
    || exists
        (λ (j : Job ReportPair).
          j.subject.base_document_id == id || j.subject.amended_document_id == id)
        db.change_report_jobs
    || exists (λ (r : ReviewItem). r.document_id == id) db.review_items

unfoldable pub delete : Document → Exec (Unit {0})
delete document db = if is_referenced document.id db then (err integrity_error, db) else (
  ok tt,
  record db { documents = select (λ (d : Document). not (d.id == document.id)) db.documents },
)
