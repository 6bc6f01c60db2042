-- ===== src/Services/IngestionRun.antt =====
-- The worker's side of app/services/ingestion.py: `_embed_chunk_texts`, `_ingest` and
-- `run_next_ingestion_job`. An exception that the handler does not catch rolls the session back.
pub mod Batches
pub mod Finishes
use contract_change_intel.Prelude.{
  ℕ, zero, suc, ◌+◌, ℤ, Text, codes, List, [], ◌∷◌, ◌++◌, map, Option, none, some, Bool, true,
  false, first, exists, ◌==◌, if◌then◌else◌, length, take, drop, ltb,
}
use contract_change_intel.Store.Json.{Json, int, obj, field, end}
use contract_change_intel.Store.Rows.{Document, StoredFile, IngestionJob, Db, Ctx, is_failed}
use contract_change_intel.Store.Rows
use contract_change_intel.Repositories.Documents
use contract_change_intel.Repositories.DocumentTexts
use contract_change_intel.Repositories.DocumentChunks.{
  Chunk, Replacement, replaced, unmatched, refused, replace_with_embeddings,
}
use contract_change_intel.Repositories.IngestionJobs
use contract_change_intel.Repositories.Usage.{LlmUsage, record_usage}
use contract_change_intel.Services.Documents.Upload.{at_key}
use contract_change_intel.Diffing.Keys.{Unicode}
use contract_change_intel.Parsing.{ParsedDocument}
use contract_change_intel.Parsing.Formats.{Readers, parse}
use contract_change_intel.Chunking.{chunk_document}
use contract_change_intel.Llm.Failure.{
  Failure, value_error, other_error, message_of, Outcome, returned, raised, Reply, Run, ◌>>=◌, ◌>>◌,
  pure, raise, attempt, query, write, require,
}

abbrev pub embed_batch : ℕ
embed_batch = 128

-- What a run takes from its surroundings: the file readers, the Unicode database, Python's `repr`
-- of a text, the message of a missing file, the text of a UUID, the client's `embed` by the number
-- of the call, the messages of an INSERT that is refused for a vector's length or for a text, the clock and the
-- request.
pub record Surroundings : Type 0 where
  pub readers : Readers
  pub unicode : Unicode
  pub repr : Text → Text
  pub no_file : ℕ → Text → Text
  pub show_id : ℕ → Text
  pub embed : ℕ → List Text → Outcome (Reply (List (List ℤ)))
  pub refused_vector : Text
  pub refused_text : Text
  pub ctx : Ctx

-- What `_ingest` returns.
pub record Ingested : Type 0 where
  pub parsed : ParsedDocument
  pub chunks : List Chunk
  pub embeddings : List (List ℤ)

abbrev pub chunk_text : Chunk → Text
chunk_text c = c.text

-- The text column of Postgres takes no character 0.
abbrev pub has_nul : Text → Bool
has_nul text = exists (λ c. c == 0) text

-- The ValueError of `replace_with_embeddings`.
abbrev pub unmatched_text : Text
unmatched_text = codes "every chunk needs exactly one embedding vector"

abbrev pub vanished_text : Text
vanished_text = codes " vanished after enqueue"

module _ (s : Surroundings) where
  -- `sink`, bound to the job.
  abbrev pub report_usage : IngestionJob → LlmUsage → Db → Db
  report_usage job usage db =
      record_usage s.ctx job.tenant_id Rows.UsageJobKind.ingestion (some job.id) usage db

  -- The loop over the batches, the first of which is the call of number `n`; on fuel.
  unfoldable pub embed_loop : ℕ → ℕ → IngestionJob → List Text → Run (List (List ℤ))
  embed_loop fuel n job [] = pure []
  embed_loop zero n job (text ∷ texts) = pure []
  embed_loop (suc fuel) n job (text ∷ texts) = do
    reply ← attempt (s.embed n (take embed_batch (text ∷ texts)))
    write (report_usage job reply.usage)
    vectors ← embed_loop fuel (n + 1) job (drop embed_batch (text ∷ texts))
    pure (reply.content ++ vectors)

  unfoldable pub embed_chunk_texts : IngestionJob → List Text → Run (List (List ℤ))
  unfolding embed_loop
  embed_chunk_texts job texts = embed_loop (length texts) 0 job texts

  -- `Path.read_bytes`
  abbrev pub bytes_at : ℕ → Text → Option StoredFile → Outcome Text
  bytes_at tenant_id sha256 none = raised (other_error (s.no_file tenant_id sha256))
  bytes_at tenant_id sha256 (some f) = returned f.content

  abbrev pub read_bytes : Document → Db → Outcome Text
  read_bytes document db =
      bytes_at document.tenant_id document.sha256
        (first (at_key document.tenant_id document.sha256) db.stored_files)

  unfoldable pub ingest : IngestionJob → Document → Run Ingested
  unfolding embed_chunk_texts
  ingest job document = do
    bytes ← query (read_bytes document)
    content ← attempt bytes
    parsed ← attempt (parse s.readers s.unicode s.repr document.mime_type content)
    embeddings ← embed_chunk_texts job (map chunk_text (chunk_document parsed))
    pure (record { parsed = parsed; chunks = chunk_document parsed; embeddings = embeddings })

  abbrev pub fail_run : IngestionJob → Document → Text → Db → Db
  fail_run job document error db =
      Documents.set_status document Rows.DocumentStatus.failed
        (IngestionJobs.mark_failed job error db)

  abbrev pub chunk_count : Ingested → Json
  chunk_count i = obj (field "chunk_count" (int (length i.chunks)) end)

  -- The commit of text and chunks; where replace_with_embeddings raises, neither stays.
  abbrev pub commit_run : IngestionJob → Document → Replacement → Ingested → Db → Outcome Bool × Db
  commit_run job document unmatched i db = (raised (value_error unmatched_text), db)
  commit_run job document refused i db = (raised (other_error s.refused_vector), db)
  commit_run job document (replaced stored) i db = (
    returned true,
    Documents.set_status document Rows.DocumentStatus.parsed
        (IngestionJobs.mark_completed job (chunk_count i) stored),
  )

  abbrev pub settle : IngestionJob → Document → Outcome Ingested → Db → Outcome Bool × Db
  settle job document (raised e) db = (returned true, fail_run job document (message_of e) db)
  settle job document (returned i) db =
      if has_nul i.parsed.text
      then (raised (other_error s.refused_text), db)
      else commit_run job document
          (replace_with_embeddings job.tenant_id document.id i.chunks i.embeddings
            (DocumentTexts.replace job.tenant_id document.id i.parsed.text i.parsed.page_map db))
          i db

  abbrev pub with_document : IngestionJob → Option Document → Db → Outcome Bool × Db
  with_document job none db = (
    returned true,
    IngestionJobs.mark_failed job (codes "document " ++ s.show_id job.subject ++ vanished_text) db,
  )
  with_document job (some document) db =
      settle job document (ingest job document db).0 (ingest job document db).1

  -- The document of a job past the attempt cap.
  abbrev pub fail_capped : Option Document → Db → Db
  fail_capped none db = db
  fail_capped (some document) db = Documents.set_status document Rows.DocumentStatus.failed db

  abbrev pub run_claimed : Option IngestionJob → Db → Outcome Bool × Db
  run_claimed none db = (returned false, db)
  run_claimed (some job) db =
      let document = Documents.find_by_id job.tenant_id job.subject db in
      if is_failed job.status
      then (returned true, fail_capped document db)
      else with_document job document db

  unfoldable pub run_next_ingestion_job : (ℕ → Bool) → Db → Outcome Bool × Db
  unfolding ingest
  run_next_ingestion_job locked db =
      let (job, claimed) = IngestionJobs.claim_next_queued s.ctx locked db in
      run_claimed job claimed
