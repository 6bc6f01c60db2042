-- ===== src/Tests/Runs.antt =====
-- A run of the ingestion queue and one of the change report queue, on a client with fixed replies.
use contract_change_intel.Prelude.{
  ℕ, ◌+◌, ◌<◌, arith, true, ◌≡◌, refl, ◌⊎◌, ℤ, pos, Text, codes, List, [], ◌∷◌, map, none, some,
  Bool, false,
}
use contract_change_intel.Store.Rows.{IngestionJob, ChangeReportJob, Db, Ctx, empty_db}
use contract_change_intel.Jobs.Table.{new_job}
use contract_change_intel.Jobs.Claims.Invariant.{new_job-IsConsistent}
use contract_change_intel.Repositories.IngestionJobs
use contract_change_intel.Repositories.ChangeReportJobs
use contract_change_intel.Diffing.Align.{Change, added}
use contract_change_intel.Services.IngestionRun.{
  Surroundings, embed_chunk_texts, run_next_ingestion_job,
}
use contract_change_intel.Services.IngestionRun.Batches.{
  Embeds, AreEmbedded, embed_chunk_texts-AreEmbedded,
}
use contract_change_intel.Services.IngestionRun.Finishes as IngestionEnd
use contract_change_intel.Services.IngestionRun.Finishes.{run_next_ingestion_job-Ends}
use contract_change_intel.Services.ChangeReportRun.Explain.{ChangeExplanation, low, explain_changes}
use contract_change_intel.Services.ChangeReportRun.Covers.{Covers, explain_changes-Covers}
use contract_change_intel.Services.ChangeReportRun.MapImpacts.{Tools}
use contract_change_intel.Services.ChangeReportRun.Runner.{run_next_change_report_job}
use contract_change_intel.Services.ChangeReportRun.Finishes as ReportEnd
use contract_change_intel.Repositories.Usage.{LlmUsage}
use contract_change_intel.Llm.Failure.{Outcome, returned, llm_error, Reply}
use contract_change_intel.Extraction.{no_reply}
use contract_change_intel.Services.ExtractionRun.{run_next_extraction_job}
use contract_change_intel.Worker.{queue_at, queue_count, run_turns}
use contract_change_intel.Worker.Fairness.{turns_until, run_turns-served}
use contract_change_intel.Tests.Versions.{ascii}
use contract_change_intel.Tests.Searches.{thousandths, contract, any_match, usage, ascii_readers}

abbrev at_noon : Ctx
at_noon = record { now = 50; request_id = []; actor = none }

abbrev vector_of : Text → List ℤ
vector_of text = pos 1 ∷ []

abbrev as_is : Text → Text
as_is text = text

abbrev show_id : ℕ → Text
show_id id = codes "id"

abbrev surroundings : Surroundings
surroundings = record {
  readers = ascii_readers;
  unicode = ascii;
  repr = as_is;
  refused_vector = codes "the vector has another length";
  refused_text = codes "the text has a NUL";
  no_file = λ tenant_id sha256. codes "no file";
  show_id = show_id;
  embed = λ n texts. returned (record { content = map vector_of texts; usage = usage });
  ctx = at_noon;
}

abbrev job : IngestionJob
job = new_job at_noon 3 7 1

embeds_all : Embeds surroundings vector_of
embeds_all n texts = (record { content = map vector_of texts; usage = usage }, refl, refl)

embed_chunk_texts-AreEmbedded_example :
    AreEmbedded surroundings vector_of embeds_all job
      (codes "a" ∷ codes "b" ∷ [])
      empty_db
      (embed_chunk_texts surroundings job (codes "a" ∷ codes "b" ∷ []) empty_db)
embed_chunk_texts-AreEmbedded_example =
    embed_chunk_texts-AreEmbedded surroundings vector_of embeds_all job (codes "a" ∷ codes "b" ∷ [])
      empty_db

abbrev unlocked : ℕ → Bool
unlocked id = false

-- One document with its file, and one queued ingestion of it.
abbrev ingestion_db : Db
ingestion_db = record empty_db {
  documents = contract ∷ [];
  stored_files = record { tenant_id = 7; sha256 = codes "ab"; content = codes "Pay." } ∷ [];
  ingestion_jobs = job ∷ [];
  next_id = 9;
}

run_next_ingestion_job-Ends_example :
    (run_next_ingestion_job surroundings unlocked ingestion_db ≡ (returned false, ingestion_db))
    ⊎ ((j : IngestionJob) × (claimed : Db) × (IngestionJobs.claim_next_queued at_noon unlocked
            ingestion_db
          ≡ (some j, claimed))
        × IngestionEnd.Ends surroundings j claimed
            (run_next_ingestion_job surroundings unlocked ingestion_db).0
            (run_next_ingestion_job surroundings unlocked ingestion_db).1)
run_next_ingestion_job-Ends_example =
    run_next_ingestion_job-Ends surroundings unlocked ingestion_db
      (new_job-IsConsistent at_noon 3 7 1, tt)

abbrev addition : Change
addition = record {
  kind = added;
  clause_ref = none;
  base_span = none;
  amended_span = some (record { char_start = 0; char_end = 4 });
}

abbrev explanation : ChangeExplanation
explanation = record { index = pos 0; description = codes "A fee."; severity = low }

abbrev explain_one : Text → Outcome (Reply (List ChangeExplanation))
explain_one prompt = returned (record { content = explanation ∷ []; usage = usage })

abbrev show_int : ℤ → Text
show_int n = codes "0"

abbrev no_sink : LlmUsage → Db → Db
no_sink u db = db

explain_changes-Covers_example :
    Covers show_int explain_one []
      (codes "Pay.")
      (addition ∷ [])
      (explain_changes show_int explain_one no_sink (addition ∷ []) [] (codes "Pay.") empty_db).0
explain_changes-Covers_example =
    explain_changes-Covers show_int explain_one [] (codes "Pay.") no_sink (addition ∷ []) empty_db

abbrev tools : Tools
tools = record {
  client = record {
    explain = explain_one;
    embed = λ n text. returned (record { content = vector_of text ∷ []; usage = usage });
    map_impacts = λ n text. returned (record { content = []; usage = usage });
  };
  index = any_match;
  doubles = thousandths;
  show_int = show_int;
  validate = λ result. none;
}

-- One queued report on two documents with their texts.
abbrev report_job : ChangeReportJob
report_job = new_job at_noon 4 7 (record { base_document_id = 1; amended_document_id = 2 })

abbrev report_db : Db
report_db = record empty_db {
  document_texts =
      record { document_id = 1; tenant_id = 7; text = []; page_map = [] }
      ∷ record { document_id = 2; tenant_id = 7; text = codes "Pay."; page_map = [] }
      ∷ [];
  change_report_jobs = report_job ∷ [];
  next_id = 9;
}

-- The three queues, on a model that gives no reply.
abbrev queues : ℕ → Db → Outcome Bool × Db
queues =
    queue_at
      (run_next_extraction_job show_id at_noon (λ n. no_reply (llm_error (codes "down"))) (pos 5)
        unlocked)
      (run_next_ingestion_job surroundings unlocked)
      (run_next_change_report_job tools ascii show_id at_noon (pos 5) unlocked)

-- An extraction and an ingestion of documents that are gone.
abbrev waiting_db : Db
waiting_db = record empty_db {
  extraction_jobs = new_job at_noon 5 7 1 ∷ [];
  ingestion_jobs = job ∷ [];
  next_id = 9;
}

abbrev after_extraction : Db
after_extraction =
    (run_next_extraction_job show_id at_noon (λ n. no_reply (llm_error (codes "down"))) (pos 5)
      unlocked waiting_db).1

first_turn : run_turns queues (turns_until 1 0) 0 waiting_db ≡ (returned tt, after_extraction)
unfolding run_turns run_next_extraction_job
    contract_change_intel.Repositories.ExtractionJobs.claim_next_queued
    contract_change_intel.Jobs.Claims.claim_next contract_change_intel.Jobs.Claims.next_runnable
    contract_change_intel.Prelude.pick contract_change_intel.Jobs.Claims.runnable
    contract_change_intel.Jobs.Claims.claimed
    contract_change_intel.Repositories.Documents.find_by_id
first_turn = refl

has_ingestion : (queues 1 after_extraction).0 ≡ returned true
unfolding run_next_ingestion_job IngestionJobs.claim_next_queued
    contract_change_intel.Jobs.Claims.claim_next contract_change_intel.Jobs.Claims.next_runnable
    contract_change_intel.Prelude.pick run_next_extraction_job
    contract_change_intel.Repositories.ExtractionJobs.claim_next_queued
    contract_change_intel.Jobs.Claims.runnable contract_change_intel.Jobs.Claims.claimed
    contract_change_intel.Repositories.Documents.find_by_id
    contract_change_intel.Repositories.ExtractionJobs.mark_failed
has_ingestion = refl

run_turns-served_example :
    (turns_until 1 0 < queue_count)
    × (run_turns queues (turns_until 1 0 + 1) 0 waiting_db
        ≡ (returned tt, (queues 1 after_extraction).1))
run_turns-served_example =
    run_turns-served queues 1 0 waiting_db after_extraction (omega arith) (omega arith) first_turn
      has_ingestion
