-- ===== src/Repositories/DocumentChunks.antt =====
-- app/repositories/document_chunks.py. The two rankings are Postgres queries with the operators of
-- pgvector and of full-text search: the order and the match of a chunk are parameters.
use contract_change_intel.Prelude.{
  ℕ, ℤ, ◌+◌, Text, List, [], ◌∷◌, ◌++◌, Option, none, some, Bool, true, false, not, ◌&&◌, ◌==◌,
  select, first, length, take, insert_by, if◌then◌else◌,
}
use contract_change_intel.Store.Rows.{Document, DocumentChunk, Db}

unfoldable pub count_for_document : ℕ → Db → ℕ
count_for_document document_id db =
    length (select (λ (c : DocumentChunk). c.document_id == document_id) db.document_chunks)

-- A chunk as the chunker makes it: (text, char_start, char_end).
pub record Chunk : Type 0 where
  pub text : Text
  pub char_start : ℕ
  pub char_end : ℕ

unfoldable pub delete_for_document : ℕ → Db → Db
delete_for_document document_id db = record db {
  document_chunks =
      select (λ (c : DocumentChunk). not (c.document_id == document_id)) db.document_chunks;
}

-- One row for each chunk and its vector, numbered from `ordinal`, with ids from `id`.
abbrev pub chunk_rows : ℕ → ℕ → ℕ → ℕ → List Chunk → List (List ℤ) → List DocumentChunk
chunk_rows tenant_id document_id id ordinal [] embeddings = []
chunk_rows tenant_id document_id id ordinal (c ∷ chunks) [] = []
chunk_rows tenant_id document_id id ordinal (c ∷ chunks) (e ∷ embeddings) =
    record {
      id = id;
      tenant_id = tenant_id;
      document_id = document_id;
      ordinal = ordinal;
      text = c.text;
      char_start = c.char_start;
      char_end = c.char_end;
      embedding = some e;
    }
    ∷ chunk_rows tenant_id document_id (id + 1) (ordinal + 1) chunks embeddings

-- `EMBEDDING_DIMENSIONS`, the length of the vectors of the column.
abbrev pub embedding_dimensions : ℕ
embedding_dimensions = 1536

abbrev pub all_fit : List (List ℤ) → Bool
all_fit [] = true
all_fit (e ∷ embeddings) = length e == embedding_dimensions && all_fit embeddings

-- The rows are written, or there is not a vector for each chunk (ValueError), or the INSERT is refused
-- for a vector of another length than the column's.
pub data Replacement : Type 0 where
  replaced : Db → Replacement
  unmatched : Replacement
  refused : Replacement

unfoldable pub replace_with_embeddings : ℕ → ℕ → List Chunk → List (List ℤ) → Db → Replacement
replace_with_embeddings tenant_id document_id chunks embeddings db =
    let db' = delete_for_document document_id db in
    if not (length chunks == length embeddings)
    then unmatched
    else if not (all_fit embeddings)
    then refused
    else replaced (record db' {
      document_chunks =
          db'.document_chunks ++ chunk_rows tenant_id document_id db.next_id 0 chunks embeddings;
      next_id = db.next_id + length chunks;
    })

abbrev pub in_scope : ℕ → Option ℕ → DocumentChunk → Bool
in_scope tenant_id none c = c.tenant_id == tenant_id
in_scope tenant_id (some id) c = c.tenant_id == tenant_id && c.document_id == id

abbrev pub has_embedding : DocumentChunk → Bool
has_embedding c = elim c.embedding [ none ↦ false | some _ ↦ true ]

-- A row of the join of a chunk with its document.
abbrev pub Ranked : Type 0
Ranked = DocumentChunk × Document

abbrev pub join_row : DocumentChunk → Option Document → List Ranked → List Ranked
join_row c none rest = rest
join_row c (some d) rest = (c, d) ∷ rest

-- JOIN documents ON documents.id = document_chunks.document_id, on the chunks that pass a filter.
abbrev pub join_documents :
    (DocumentChunk → Bool) → List Document → List DocumentChunk → List Ranked
join_documents test documents [] = []
join_documents test documents (c ∷ chunks) =
    let rest = join_documents test documents chunks in
    if test c
    then join_row c (first (λ (d : Document). d.id == c.document_id) documents) rest
    else rest

-- `closer` says that one chunk's vector is nearer to the query's than another's.
unfoldable pub rank_by_similarity :
    (DocumentChunk → DocumentChunk → Bool) → ℕ → ℕ → Option ℕ → Db → List Ranked
rank_by_similarity closer tenant_id limit document_id db = take limit (
    insert_by (λ (a b : Ranked). closer a.0 b.0)
      (join_documents (λ c. in_scope tenant_id document_id c && has_embedding c) db.documents
        db.document_chunks))

-- `hits` is the match of the query with a chunk, `better` the order of `ts_rank`.
unfoldable pub rank_by_full_text :
    (DocumentChunk → Bool)
    → (DocumentChunk → DocumentChunk → Bool)
    → ℕ
    → ℕ
    → Option ℕ
    → Db
    → List Ranked
rank_by_full_text hits better tenant_id limit document_id db = take limit (
    insert_by (λ (a b : Ranked). better a.0 b.0)
      (join_documents (λ c. in_scope tenant_id document_id c && hits c) db.documents
        db.document_chunks))
