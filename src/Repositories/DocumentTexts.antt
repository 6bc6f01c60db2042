-- ===== src/Repositories/DocumentTexts.antt =====
-- app/repositories/document_texts.py
use contract_change_intel.Prelude.{ℕ, Text, List, [], ◌∷◌, ◌++◌, Option, not, ◌==◌, select, first}
use contract_change_intel.Store.Rows.{DocumentText, PageSpan, Db}

unfoldable pub find_by_document_id : ℕ → Db → Option DocumentText
find_by_document_id document_id db =
    first (λ (t : DocumentText). t.document_id == document_id) db.document_texts

unfoldable pub delete_for_document : ℕ → Db → Db
delete_for_document document_id db = record db {
  document_texts =
      select (λ (t : DocumentText). not (t.document_id == document_id)) db.document_texts;
}

-- Delete, then insert.
unfoldable pub replace : ℕ → ℕ → Text → List PageSpan → Db → Db
replace tenant_id document_id text page_map db =
    let db' = delete_for_document document_id db in
    record db' {
      document_texts =
          db'.document_texts
          ++ record {
            document_id = document_id;
            tenant_id = tenant_id;
            text = text;
            page_map = page_map;
          }
            ∷ [];
    }
