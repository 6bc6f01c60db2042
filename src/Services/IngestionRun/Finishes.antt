-- ===== src/Services/IngestionRun/Finishes.antt =====
-- A claimed ingestion job and its document reach a final status.
use contract_change_intel.Prelude.{
  ℕ, zero, suc, ◌+◌, ℤ, Text, codes, List, [], ◌∷◌, ◌++◌, map, Option, none, some, Bool, true,
  false, ◌≡◌, ◌≢◌, refl, sym, ◌∙◌, arith, All, All-overwrite, All-map_implies, first-found,
  first-none, ◌==◌, ◌&&◌, inl, inr, ◌⊎◌, Bool-cases, length, take, drop,
}
use std.Path.{subst}
use contract_change_intel.Store.Rows.{
  Document, DocumentStatus, IngestionJob, StoredFile, Db, is_failed,
}
use contract_change_intel.Store.Rows
use contract_change_intel.Jobs.Claims.Invariant.{IsConsistent}
use contract_change_intel.Jobs.Finish.{
  AreFinished, IsHandedOver, claim_next-hands, completed-AreFinished, failed-AreFinished,
}
use contract_change_intel.Repositories.Documents
use contract_change_intel.Repositories.DocumentTexts
use contract_change_intel.Repositories.DocumentChunks
use contract_change_intel.Repositories.IngestionJobs
use contract_change_intel.Repositories.Usage.{record_usage}
use contract_change_intel.Parsing.Formats.{parse}
use contract_change_intel.Chunking.{chunk_document}
use contract_change_intel.Llm.Failure.{Outcome, returned, raised, Outcome-cases, message_of}
use contract_change_intel.Services.IngestionRun.{
  Surroundings, Ingested, embed_batch, report_usage, embed_loop, embed_chunk_texts, chunk_text,
  read_bytes, ingest, vanished_text, fail_run, commit_run, has_nul, settle, with_document,
  fail_capped, run_claimed, run_next_ingestion_job, chunk_count,
}

-- The jobs and the documents are those of the other database.
abbrev pub SameRows : Db → Db → Type 0
SameRows db db' = (db'.ingestion_jobs ≡ db.ingestion_jobs) × (db'.documents ≡ db.documents)

module _ (s : Surroundings) (job : IngestionJob) where
  embed_loop-SameRows :
      (fuel n : ℕ) (texts : List Text) (db : Db) → SameRows db (embed_loop s fuel n job texts db).1
  unfolding embed_loop record_usage
  embed_loop-SameRows fuel n [] db = (refl, refl)
  embed_loop-SameRows zero n (text ∷ texts) db = (refl, refl)
  embed_loop-SameRows (suc fuel) n (text ∷ texts) db =
      elim (Outcome-cases (s.embed n (take embed_batch (text ∷ texts)))) [
        | inl (r, e) ↦
            let later =
              embed_loop-SameRows fuel (n + 1) (drop embed_batch (text ∷ texts))
                (report_usage s job r.usage db) in
            elim (Outcome-cases
              (embed_loop s fuel (n + 1) job (drop embed_batch (text ∷ texts))
                (report_usage s job r.usage db)).0) [
                  | inl (v, f) ↦ rw (e, f) later
                  | inr (z, f) ↦ rw (e, f) later
                ]
        | inr (z, e) ↦ rw e (refl, refl)
      ]

  ingest-SameRows : (document : Document) (db : Db) → SameRows db (ingest s job document db).1
  unfolding ingest embed_chunk_texts
  ingest-SameRows document db = elim (Outcome-cases (read_bytes s document db)) [
    | inl (content, e) ↦
        elim (Outcome-cases (parse s.readers s.unicode s.repr document.mime_type content)) [
          | inl (parsed, f) ↦
              let texts = map chunk_text (chunk_document parsed) in
              let embedded = embed_loop-SameRows (length texts) 0 texts db in
              elim (Outcome-cases (embed_loop s (length texts) 0 job texts db).0) [
                | inl (v, g) ↦ rw (e, f, g) embedded
                | inr (z, g) ↦ rw (e, f, g) embedded
              ]
          | inr (z, f) ↦ rw (e, f) (refl, refl)
        ]
    | inr (z, e) ↦ rw e (refl, refl)
  ]

abbrev pub is_final : DocumentStatus → Bool
is_final Rows.DocumentStatus.uploaded = false
is_final _ = true

-- The document of the job, if it is still there, is parsed or failed.
abbrev pub IsFinalRow : IngestionJob → Document → Type 0
IsFinalRow job d =
    (d.id == job.subject && d.tenant_id == job.tenant_id) ≡ true → is_final d.status ≡ true

abbrev pub IsSettled : IngestionJob → Db → Type 0
IsSettled job db = AreFinished job.id db.ingestion_jobs × All (IsFinalRow job) db.documents

set_status-IsFinalRow :
    (job : IngestionJob) (document : Document) (status : DocumentStatus) (db : Db)
    → is_final status ≡ true
    → (document.id == job.subject) ≡ true
    → All (IsFinalRow job) (Documents.set_status document status db).documents
unfolding Documents.set_status
set_status-IsFinalRow job document status db final same =
    All-overwrite (IsFinalRow job) _ _ db.documents (λ _ _ _. final)
      (λ x other own. absurd (ground arith))

capped-IsFinalRow :
    (s : Surroundings) (job : IngestionJob) (document : Option Document) (db : Db)
    → Documents.find_by_id job.tenant_id job.subject db ≡ document
    → All (IsFinalRow job) (fail_capped s document db).documents
unfolding Documents.find_by_id
capped-IsFinalRow s job none db found =
    All-map_implies _ _ db.documents (λ d miss own. absurd (ground arith))
      (first-none _ db.documents found)
capped-IsFinalRow s job (some document) db found =
    set_status-IsFinalRow job document Rows.DocumentStatus.failed db refl
      (ground (arith, (first-found _ db.documents found).1))

capped-jobs :
    (s : Surroundings) (id : ℕ) (document : Option Document) (db : Db)
    → AreFinished id db.ingestion_jobs
    → AreFinished id (fail_capped s document db).ingestion_jobs
unfolding Documents.set_status
capped-jobs s id none db h = h
capped-jobs s id (some document) db h = h

abbrev or_db : Db → DocumentChunks.Replacement → Db
or_db db (DocumentChunks.replaced db') = db'
or_db db _ = db

-- There is not a vector of the column's length for each chunk.
abbrev pub IsMisfit : List DocumentChunks.Chunk → List (List ℤ) → Type 0
IsMisfit chunks vectors =
    (length chunks ≢ length vectors) ⊎ (DocumentChunks.all_fit vectors ≡ false)

abbrev MisfitUnless :
    DocumentChunks.Replacement → List DocumentChunks.Chunk → List (List ℤ) → Type 0
MisfitUnless (DocumentChunks.replaced db) chunks vectors = Unit
MisfitUnless _ chunks vectors = IsMisfit chunks vectors

module _ (tenant_id document_id : ℕ) (chunks : List DocumentChunks.Chunk)
    (vectors : List (List ℤ)) where
  stored-SameRows :
      (base db : Db)
      → SameRows base db
      → SameRows base (
          or_db base
            (DocumentChunks.replace_with_embeddings tenant_id document_id chunks vectors db))
  unfolding DocumentChunks.replace_with_embeddings DocumentChunks.delete_for_document
  stored-SameRows base db same = elim (Bool-cases (length chunks == length vectors)) [
    | inl e ↦ elim (Bool-cases (DocumentChunks.all_fit vectors)) [
      | inl f ↦ rw (e, f) same
      | inr f ↦ rw (e, f) (refl, refl)
    ]
    | inr e ↦ rw e (refl, refl)
  ]

  stored-MisfitUnless :
      (db : Db)
      → MisfitUnless
          (DocumentChunks.replace_with_embeddings tenant_id document_id chunks vectors db)
          chunks
          vectors
  unfolding DocumentChunks.replace_with_embeddings
  stored-MisfitUnless db = elim (Bool-cases (length chunks == length vectors)) [
    | inl e ↦ elim (Bool-cases (DocumentChunks.all_fit vectors)) [
      | inl f ↦ rw (e, f) tt
      | inr f ↦ rw (e, f) (inr f)
    ]
    | inr e ↦ rw e (inl (λ k. ground (arith, e, k)))
  ]

text_replaced-SameRows :
    (tenant_id document_id : ℕ) (text : Text) (page_map : List Rows.PageSpan) (db : Db)
    → SameRows db (DocumentTexts.replace tenant_id document_id text page_map db)
unfolding DocumentTexts.replace DocumentTexts.delete_for_document
text_replaced-SameRows tenant_id document_id text page_map db = (refl, refl)

module _ (s : Surroundings) (job : IngestionJob) where
  -- How the run of a claimed job ends: job and document are settled, or an uncaught exception
  -- leaves the rows as the claim left them, where there is not a fitting vector for each
  -- chunk or the text has a character 0.
  abbrev pub Ends : Db → Outcome Bool → Db → Type 0
  Ends claimed (returned ran) db = (ran ≡ true) × IsSettled job db
  Ends claimed (raised e) db =
      (document : Document) × (i : Ingested) × (ingest s job document claimed ≡ (returned i, db))
      × ((has_nul i.parsed.text ≡ true) ⊎ IsMisfit i.chunks i.embeddings)
      × SameRows claimed db

  module _ (unqueued : Rows.is_queued job.status ≡ false) (consistent : IsConsistent job) where
    completed_run-IsSettled :
        (document : Document) (i : Ingested) (db : Db)
        → (document.id == job.subject) ≡ true
        → All IsConsistent db.ingestion_jobs
        → IsSettled job (
            Documents.set_status document Rows.DocumentStatus.parsed
              (IngestionJobs.mark_completed job (chunk_count s i) db))
    unfolding IngestionJobs.mark_completed Documents.set_status
    completed_run-IsSettled document i db same all = (
      completed-AreFinished (chunk_count s i) job db.ingestion_jobs unqueued consistent all,
      set_status-IsFinalRow job document Rows.DocumentStatus.parsed
          (IngestionJobs.mark_completed job (chunk_count s i) db) refl same,
    )

    failed_run-IsSettled :
        (document : Document) (error : Text) (db : Db)
        → (document.id == job.subject) ≡ true
        → All IsConsistent db.ingestion_jobs
        → IsSettled job (fail_run s job document error db)
    unfolding IngestionJobs.mark_failed Documents.set_status
    failed_run-IsSettled document error db same all = (
      failed-AreFinished error job db.ingestion_jobs unqueued consistent all,
      set_status-IsFinalRow job document Rows.DocumentStatus.failed
          (IngestionJobs.mark_failed job error db) refl same,
    )

    commit_run-Ends :
        (document : Document) (i : Ingested) (claimed db : Db) (stored : DocumentChunks.Replacement)
        → (document.id == job.subject) ≡ true
        → ingest s job document claimed ≡ (returned i, db)
        → SameRows claimed db
        → All IsConsistent claimed.ingestion_jobs
        → SameRows db (or_db db stored)
        → MisfitUnless stored i.chunks i.embeddings
        → Ends claimed
            (commit_run s job document stored i db).0
            (commit_run s job document stored i db).1
    commit_run-Ends document i claimed db DocumentChunks.unmatched same run kept all rows misfit =
        (document, i, run, inr misfit, kept)
    commit_run-Ends document i claimed db DocumentChunks.refused same run kept all rows misfit =
        (document, i, run, inr misfit, kept)
    commit_run-Ends document i claimed db (DocumentChunks.replaced db') same run kept all rows
          misfit =
        (
          refl,
          completed_run-IsSettled document i db' same
              (subst (All IsConsistent) (sym (rows.0 ∙ kept.0)) all),
        )

    settle-Ends :
        (document : Document) (claimed db : Db) (o : Outcome Ingested)
        → (document.id == job.subject) ≡ true
        → ingest s job document claimed ≡ (o, db)
        → SameRows claimed db
        → All IsConsistent claimed.ingestion_jobs
        → Ends claimed (settle s job document o db).0 (settle s job document o db).1
    settle-Ends document claimed db (raised e) same run kept all = (
      refl,
      failed_run-IsSettled document (message_of e) db same
          (subst (All IsConsistent) (sym kept.0) all),
    )
    settle-Ends document claimed db (returned i) same run kept all =
        let replaced =
          DocumentTexts.replace job.tenant_id document.id i.parsed.text i.parsed.page_map db in
        elim (Bool-cases (has_nul i.parsed.text)) [
          | inl z ↦ rw z (document, i, run, inl z, kept)
          | inr z ↦ rw z (
              commit_run-Ends document i claimed db
                (DocumentChunks.replace_with_embeddings job.tenant_id document.id i.chunks
                  i.embeddings replaced)
                same run kept all
                (stored-SameRows job.tenant_id document.id i.chunks i.embeddings db replaced (
                  text_replaced-SameRows job.tenant_id document.id i.parsed.text i.parsed.page_map
                    db))
                (stored-MisfitUnless job.tenant_id document.id i.chunks i.embeddings replaced))
        ]

    with_document-Ends :
        (document : Option Document) (db : Db)
        → Documents.find_by_id job.tenant_id job.subject db ≡ document
        → All IsConsistent db.ingestion_jobs
        → Ends db (with_document s job document db).0 (with_document s job document db).1
    unfolding Documents.find_by_id IngestionJobs.mark_failed
    with_document-Ends none db found all = (
      refl,
      (
        failed-AreFinished (codes "document " ++ s.show_id job.subject ++ vanished_text) job
            db.ingestion_jobs unqueued consistent all,
        All-map_implies _ _ db.documents (λ d miss own. absurd (ground arith))
            (first-none _ db.documents found),
      ),
    )
    with_document-Ends (some document) db found all =
        let (mem, test) = first-found _ db.documents found in
        settle-Ends document db (ingest s job document db).1 (ingest s job document db).0
          (ground (arith, test)) refl (ingest-SameRows s job document db) all

  run_claimed-Ends :
      (db : Db)
      → IsHandedOver job db.ingestion_jobs
      → Ends db (run_claimed s (some job) db).0 (run_claimed s (some job) db).1
  run_claimed-Ends db h = elim (Bool-cases (is_failed job.status)) [
    | inl f ↦ rw f (
      refl,
      (
        capped-jobs s job.id (Documents.find_by_id job.tenant_id job.subject db) db (h.saved f),
        capped-IsFinalRow s job (Documents.find_by_id job.tenant_id job.subject db) db refl,
      ),
    )
    | inr f ↦ rw f (
        with_document-Ends h.unqueued h.consistent
          (Documents.find_by_id job.tenant_id job.subject db) db refl h.table)
  ]

-- Where the rows of the table are consistent, a run of the ingestion queue that claims no job
-- changes nothing. One that claims a job leaves it completed or failed, the rows consistent, and its
-- document, if it is still there, parsed or failed, whatever the file, the parser and the client do,
-- but for one case: where the text has a character 0, or the client gave more or fewer vectors than
-- there are chunks, or one that is not of the column's length, the run raises, with the jobs and
-- documents as the claim left them. It is taken that the database refuses no other write.
pub run_next_ingestion_job-Ends :
    (s : Surroundings) (locked : ℕ → Bool) (db : Db)
    → All IsConsistent db.ingestion_jobs
    → (run_next_ingestion_job s locked db ≡ (returned false, db))
      ⊎ ((job : IngestionJob) × (claimed : Db) × (IngestionJobs.claim_next_queued s.ctx locked db
            ≡ (some job, claimed))
          × Ends s job claimed
              (run_next_ingestion_job s locked db).0
              (run_next_ingestion_job s locked db).1)
unfolding run_next_ingestion_job IngestionJobs.claim_next_queued
run_next_ingestion_job-Ends s locked db all =
    elim (claim_next-hands s.ctx.now locked db.ingestion_jobs all) [
      | inl e ↦ inl (rw e refl)
      | inr (job, table, e, h) ↦
          let claimed = record db { ingestion_jobs = table } in
          inr (job, claimed, rw e refl, rw e (run_claimed-Ends s job claimed h))
    ]
