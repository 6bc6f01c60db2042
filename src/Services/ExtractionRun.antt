-- ===== src/Services/ExtractionRun.antt =====
-- The worker's side of app/services/extraction.py: `run_next_extraction_job`, and the sink of
-- app/services/usage.py that it writes the usage of its calls to.
pub mod Finishes
use contract_change_intel.Prelude.{
  ℕ, ℤ, Text, codes, List, [], ◌∷◌, ◌++◌, Option, none, some, Bool, true, false, if◌then◌else◌, map,
}
use contract_change_intel.Store.Json.{
  Json, Fields, null, signed, float, str, arr, obj, field, end, opt_json, items_of,
}
use contract_change_intel.Store.Rows.{
  Document, DocumentText, Job, ExtractionJob, Db, Ctx, extraction, is_failed,
}
use contract_change_intel.Store.Rows
use contract_change_intel.Repositories.Documents
use contract_change_intel.Repositories.DocumentTexts
use contract_change_intel.Repositories.ExtractionJobs
use contract_change_intel.Repositories.ReviewItems.{Candidate}
use contract_change_intel.Repositories.Usage.{LlmUsage, record_usage}
use contract_change_intel.Extraction.{
  Citation, Obligation, DefinedTerm, ObligationExtraction, LlmReply, Extracted, extracted, failed,
  extract_obligations,
}
use contract_change_intel.Llm.Failure.{
  Failure, value_error, other_error, message_of, usage_of, Outcome, returned, raised,
}
use contract_change_intel.Services.ReviewQueue.{route_for_review}

-- `model_dump(mode="json")`
abbrev pub citation_json : Citation → Json
citation_json c =
    obj (field "char_start" (signed c.char_start) (field "char_end" (signed c.char_end) end))

abbrev pub obligation_json : Obligation → Json
obligation_json o = obj (
    field "clause_ref" (str o.clause_ref) (
      field "description" (str o.description) (
        field "owner" (opt_json str o.owner) (
          field "citation" (citation_json o.citation)
            (field "confidence" (float o.confidence) end)))))

abbrev pub term_json : DefinedTerm → Json
term_json t = obj (
    field "term" (str t.term) (
      field "definition" (str t.definition) (
        field "citation" (citation_json t.citation) (field "confidence" (float t.confidence) end))))

abbrev pub extraction_json : ObligationExtraction → Json
extraction_json e = obj (
    field "obligations" (arr (items_of obligation_json e.obligations))
      (field "defined_terms" (arr (items_of term_json e.defined_terms)) end))

abbrev pub obligation_candidate : Obligation → Candidate
obligation_candidate o = record {
  item_type = "obligation";
  payload = obligation_json o;
  confidence = o.confidence;
}

abbrev pub term_candidate : DefinedTerm → Candidate
term_candidate t = record {
  item_type = "defined_term";
  payload = term_json t;
  confidence = t.confidence;
}

abbrev pub vanished_text : Text
vanished_text = codes " vanished after enqueue"

abbrev pub no_text : Text
no_text = codes " has no parsed text; extraction requires a completed ingestion"

-- `except (LlmError, ValueError)`
abbrev pub is_handled : Failure → Bool
is_handled (other_error m) = false
is_handled _ = true

-- `show_id` is the text of a UUID, `llm` the model's replies by the number of the call.
module _ (show_id : ℕ → Text) (ctx : Ctx) (llm : ℕ → LlmReply) (threshold : ℤ) where
  -- `sink`: a usage row for each call, in order.
  abbrev pub report_usages : ExtractionJob → List LlmUsage → Db → Db
  report_usages job [] db = db
  report_usages job (u ∷ usages) db =
      report_usages job usages
        (record_usage ctx job.tenant_id Rows.UsageJobKind.extraction (some job.id) u db)

  -- `account_rejected_output`
  abbrev pub report_rejected : ExtractionJob → Option LlmUsage → Db → Db
  report_rejected job none db = db
  report_rejected job (some u) db = report_usages job (u ∷ []) db

  -- `_route_low_confidence_items`
  abbrev pub route_items : ExtractionJob → ObligationExtraction → Db → Db
  route_items job e db =
      (route_for_review ctx job.tenant_id extraction job.subject job.id
        (map obligation_candidate e.obligations ++ map term_candidate e.defined_terms) threshold
        db).1

  -- The handler. Another exception leaves the run; the usages that were reported stay.
  abbrev pub fail_run : ExtractionJob → Failure → Db → Outcome Bool × Db
  fail_run job e db =
      if is_handled e
      then (
        returned true,
        report_rejected job (usage_of e) (ExtractionJobs.mark_failed job (message_of e) db),
      )
      else (raised e, db)

  abbrev pub finish : ExtractionJob → Extracted → Db → Outcome Bool × Db
  finish job (extracted e) db =
      (returned true, route_items job e (ExtractionJobs.mark_completed job (extraction_json e) db))
  finish job (failed e) db = fail_run job e db

  abbrev pub with_text : ExtractionJob → Option DocumentText → Db → Outcome Bool × Db
  with_text job none db =
      fail_run job (value_error (codes "document " ++ show_id job.subject ++ no_text)) db
  with_text job (some row) db =
      let (outcome, usages) = extract_obligations llm row.text in
      finish job outcome (report_usages job usages db)

  abbrev pub with_document : ExtractionJob → Option Document → Db → Outcome Bool × Db
  with_document job none db =
      fail_run job (value_error (codes "document " ++ show_id job.subject ++ vanished_text)) db
  with_document job (some document) db =
      with_text job (DocumentTexts.find_by_document_id job.subject db) db

  abbrev pub run_claimed : Option ExtractionJob → Db → Outcome Bool × Db
  run_claimed none db = (returned false, db)
  run_claimed (some job) db =
      if is_failed job.status
      then (returned true, db)
      else with_document job (Documents.find_by_id job.tenant_id job.subject db) db

  unfoldable pub run_next_extraction_job : (ℕ → Bool) → Db → Outcome Bool × Db
  run_next_extraction_job locked db =
      let (job, claimed) = ExtractionJobs.claim_next_queued ctx locked db in run_claimed job claimed
