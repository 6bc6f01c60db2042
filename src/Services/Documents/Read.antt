-- ===== src/Services/Documents/Read.antt =====
-- app/services/documents.py, `get_document`, `list_documents` and `resolve_document_file`.
use contract_change_intel.Prelude.{ℕ, List, not, exists}
use contract_change_intel.Store.Rows.{Document, Db}
use contract_change_intel.Store.Errors.{document_not_found}
use contract_change_intel.Store.Exec.{Exec, ◌>>=◌, ◌>>◌, pure, query, require, raise_if}
use contract_change_intel.Repositories.Documents
use contract_change_intel.Services.Documents.Upload.{at_key}

unfoldable pub get_document : ℕ → ℕ → Exec Document
get_document tenant_id document_id = do
  document ← query (Documents.find_by_id tenant_id document_id)
  require document (document_not_found document_id)

unfoldable pub list_documents : ℕ → ℕ → ℕ → Db → List Document × ℕ
list_documents tenant_id limit offset db =
    (Documents.list_page tenant_id limit offset db, Documents.count_for_tenant tenant_id db)

-- The row of a document whose file is there.
unfoldable pub resolve_document_file : ℕ → ℕ → Exec Document
unfolding get_document
resolve_document_file tenant_id document_id = do
  document ← get_document tenant_id document_id
  is_file ← query (λ db. exists (at_key tenant_id document.sha256) db.stored_files)
  raise_if (not is_file) (document_not_found document_id)
  pure document
