-- ===== src/Services/ExtractionRun/Finishes.antt =====
-- How the run of a claimed extraction job ends.
use contract_change_intel.Prelude.{
  ℕ, zero, suc, ◌+◌, arith, ℤ, Text, List, [], ◌∷◌, Option, none, some, Bool, true, false, ◌≡◌,
  refl, sym, All, inl, inr, ◌⊎◌, Bool-cases,
}
use std.Path.{subst}
use contract_change_intel.Store.Json.{Json}
use contract_change_intel.Store.Rows.{
  ExtractionJob, DocumentText, Document, Db, Ctx, ReviewItemSource, is_failed, is_queued,
}
use contract_change_intel.Jobs.Claims.Invariant.{IsConsistent}
use contract_change_intel.Jobs.Finish.{
  AreFinished, IsHandedOver, claim_next-hands, completed-AreFinished, failed-AreFinished,
}
use contract_change_intel.Repositories.Documents
use contract_change_intel.Repositories.ExtractionJobs
use contract_change_intel.Repositories.ReviewItems.{Candidate, create_many}
use contract_change_intel.Repositories.Usage.{LlmUsage, record_usage}
use contract_change_intel.Services.ReviewQueue.{route_for_review, persist, below_threshold}
use contract_change_intel.Extraction.{
  ObligationExtraction, Citation, LlmReply, reply, no_reply, Extracted, extracted, failed, is_empty,
  split_cited, judge, after_reply, attempt_loop, extract_obligations, citation_attempts,
}
use contract_change_intel.Llm.Failure.{
  Failure, value_error, message_of, usage_of, Outcome, returned, raised,
}
use contract_change_intel.Services.ExtractionRun.{
  extraction_json, report_usages, report_rejected, route_items, is_handled, fail_run, finish,
  with_text, with_document, run_claimed, run_next_extraction_job,
}

persist-jobs :
    (ctx : Ctx) (tenant_id : ℕ) (source : ReviewItemSource) (document_id job_id : ℕ)
    (cs : List Candidate) (db : Db)
    → (persist ctx tenant_id source document_id job_id cs db).1.extraction_jobs ≡ db.extraction_jobs
unfolding create_many
persist-jobs ctx tenant_id source document_id job_id [] db = refl
persist-jobs ctx tenant_id source document_id job_id (c ∷ cs) db = refl

abbrev pub IsFinished : ℕ → Db → Type 0
IsFinished id db = AreFinished id db.extraction_jobs

-- A failure that the handler takes, or one that a call of the model raised.
abbrev pub IsBlamed : (ℕ → LlmReply) → Failure → Type 0
IsBlamed llm e = (is_handled e ≡ true) ⊎ ((n : ℕ) × (llm n ≡ no_reply e))

abbrev BlamedUnless : (ℕ → LlmReply) → Extracted → Type 0
BlamedUnless llm (extracted e) = Unit
BlamedUnless llm (failed e) = IsBlamed llm e

module _ (llm : ℕ → LlmReply) where
  judge-BlamedUnless :
      (is_last : Bool) (e : ObligationExtraction) (split : ObligationExtraction × List Citation)
      (usage : LlmUsage) (rest : Extracted × List LlmUsage)
      → BlamedUnless llm rest.0
      → BlamedUnless llm (judge is_last e split usage rest).0
  judge-BlamedUnless is_last e (grounded, []) usage rest h = tt
  judge-BlamedUnless false e (grounded, c ∷ rejected) usage rest h = h
  judge-BlamedUnless true e (grounded, c ∷ rejected) usage rest h =
      elim (Bool-cases (is_empty grounded)) [ inl k ↦ rw k (inl refl) | inr k ↦ rw k tt ]

  after_reply-BlamedUnless :
      (is_last : Bool) (text : Text) (n : ℕ) (r : LlmReply) (rest : Extracted × List LlmUsage)
      → llm n ≡ r
      → BlamedUnless llm rest.0
      → BlamedUnless llm (after_reply is_last text r rest).0
  after_reply-BlamedUnless is_last text n (no_reply f) rest e h = inr (n, e)
  after_reply-BlamedUnless is_last text n (reply x usage) rest e h =
      judge-BlamedUnless is_last x (split_cited x text) usage rest h

  attempt_loop-BlamedUnless :
      (n attempt : ℕ) (text : Text) → BlamedUnless llm (attempt_loop n attempt llm text).0
  unfolding attempt_loop
  attempt_loop-BlamedUnless zero attempt text = inl refl
  attempt_loop-BlamedUnless (suc n) attempt text =
      after_reply-BlamedUnless _ text attempt (llm attempt) _ refl
        (attempt_loop-BlamedUnless n (attempt + 1) text)

-- How the run of a claimed job ends: the job is finished, or a call of the model raised an exception
-- that the handler does not take, and the jobs are as the claim left them.
abbrev pub Ends : (ℕ → LlmReply) → ExtractionJob → Db → Outcome Bool → Db → Type 0
Ends llm job claimed (returned ran) db = (ran ≡ true) × IsFinished job.id db
Ends llm job claimed (raised e) db =
    (is_handled e ≡ false)
    × ((n : ℕ) × (llm n ≡ no_reply e))
    × (db.extraction_jobs ≡ claimed.extraction_jobs)

module _ (show_id : ℕ → Text) (ctx : Ctx) (llm : ℕ → LlmReply) (threshold : ℤ) where
  report_usages-jobs :
      (job : ExtractionJob) (usages : List LlmUsage) (db : Db)
      → (report_usages show_id ctx llm threshold job usages db).extraction_jobs ≡ db.extraction_jobs
  unfolding record_usage
  report_usages-jobs job [] db = refl
  report_usages-jobs job (u ∷ usages) db = report_usages-jobs job usages _

  report_rejected-jobs :
      (job : ExtractionJob) (usage : Option LlmUsage) (db : Db)
      → (report_rejected show_id ctx llm threshold job usage db).extraction_jobs
        ≡ db.extraction_jobs
  unfolding record_usage
  report_rejected-jobs job none db = refl
  report_rejected-jobs job (some u) db = refl

  route_items-jobs :
      (job : ExtractionJob) (e : ObligationExtraction) (db : Db)
      → (route_items show_id ctx llm threshold job e db).extraction_jobs ≡ db.extraction_jobs
  unfolding route_for_review below_threshold
  route_items-jobs job e db = persist-jobs ctx job.tenant_id _ job.subject job.id _ db

  module _ (job : ExtractionJob) (fresh : is_queued job.status ≡ false)
      (consistent : IsConsistent job) where
    completed-IsFinished :
        (result : Json) (db : Db)
        → All IsConsistent db.extraction_jobs
        → IsFinished job.id (ExtractionJobs.mark_completed job result db)
    unfolding ExtractionJobs.mark_completed
    completed-IsFinished result db all =
        completed-AreFinished result job db.extraction_jobs fresh consistent all

    failed-IsFinished :
        (error : Text) (db : Db)
        → All IsConsistent db.extraction_jobs
        → IsFinished job.id (ExtractionJobs.mark_failed job error db)
    unfolding ExtractionJobs.mark_failed
    failed-IsFinished error db all =
        failed-AreFinished error job db.extraction_jobs fresh consistent all

    fail_run-Ends :
        (e : Failure) (claimed db : Db)
        → IsBlamed llm e
        → db.extraction_jobs ≡ claimed.extraction_jobs
        → All IsConsistent db.extraction_jobs
        → Ends llm job claimed
            (fail_run show_id ctx llm threshold job e db).0
            (fail_run show_id ctx llm threshold job e db).1
    fail_run-Ends e claimed db blamed same all = elim (Bool-cases (is_handled e)) [
      | inl h ↦ rw h (
        refl,
        subst (AreFinished job.id)
            (sym (
              report_rejected-jobs job (usage_of e)
                (ExtractionJobs.mark_failed job (message_of e) db)))
            (failed-IsFinished (message_of e) db all),
      )
      | inr h ↦ rw h (h, elim blamed [ inl k ↦ absurd (ground (arith, h, k)) | inr n ↦ n ], same)
    ]

    finish-Ends :
        (o : Extracted) (claimed db : Db)
        → BlamedUnless llm o
        → db.extraction_jobs ≡ claimed.extraction_jobs
        → All IsConsistent db.extraction_jobs
        → Ends llm job claimed
            (finish show_id ctx llm threshold job o db).0
            (finish show_id ctx llm threshold job o db).1
    finish-Ends (extracted e) claimed db blamed same all = (
      refl,
      subst (AreFinished job.id)
          (sym (route_items-jobs job e (ExtractionJobs.mark_completed job (extraction_json e) db)))
          (completed-IsFinished (extraction_json e) db all),
    )
    finish-Ends (failed e) claimed db blamed same all = fail_run-Ends e claimed db blamed same all

    with_text-Ends :
        (row : Option DocumentText) (db : Db)
        → All IsConsistent db.extraction_jobs
        → Ends llm job db
            (with_text show_id ctx llm threshold job row db).0
            (with_text show_id ctx llm threshold job row db).1
    unfolding extract_obligations
    with_text-Ends none db all = fail_run-Ends (value_error _) db db (inl refl) refl all
    with_text-Ends (some row) db all =
        let same = report_usages-jobs job (extract_obligations llm row.text).1 db in
        finish-Ends (extract_obligations llm row.text).0 db
          (report_usages show_id ctx llm threshold job (extract_obligations llm row.text).1 db)
          (attempt_loop-BlamedUnless llm citation_attempts 1 row.text) same
          (subst (All IsConsistent) (sym same) all)

    with_document-Ends :
        (document : Option Document) (db : Db)
        → All IsConsistent db.extraction_jobs
        → Ends llm job db
            (with_document show_id ctx llm threshold job document db).0
            (with_document show_id ctx llm threshold job document db).1
    with_document-Ends none db all = fail_run-Ends (value_error _) db db (inl refl) refl all
    with_document-Ends (some document) db all = with_text-Ends _ db all

  -- A claimed job that is past the attempt cap is failed already; any other is run.
  run_claimed-Ends :
      (job : ExtractionJob) (db : Db)
      → IsHandedOver job db.extraction_jobs
      → Ends llm job db
          (run_claimed show_id ctx llm threshold (some job) db).0
          (run_claimed show_id ctx llm threshold (some job) db).1
  run_claimed-Ends job db h = elim (Bool-cases (is_failed job.status)) [
    | inl f ↦ rw f (refl, h.saved f)
    | inr f ↦ rw f (
        with_document-Ends job h.unqueued h.consistent
          (Documents.find_by_id job.tenant_id job.subject db) db h.table)
  ]

-- Where the rows of the table are consistent, a run of the extraction queue that claims no job
-- changes nothing. One that claims a job leaves it completed or failed and the rows consistent,
-- whether or not the document and its text are still there and whatever the model replies, but for
-- one case: where a call of the model raises an exception that is neither an LlmError nor a
-- ValueError, the run raises it, with the jobs as the claim left them. It is taken that the database
-- refuses no write.
pub run_next_extraction_job-Ends :
    (show_id : ℕ → Text) (ctx : Ctx) (llm : ℕ → LlmReply) (threshold : ℤ) (locked : ℕ → Bool)
    (db : Db)
    → All IsConsistent db.extraction_jobs
    → (run_next_extraction_job show_id ctx llm threshold locked db ≡ (returned false, db))
      ⊎ ((job : ExtractionJob) × (claimed : Db) × (ExtractionJobs.claim_next_queued ctx locked db
            ≡ (some job, claimed))
          × Ends llm job claimed
              (run_next_extraction_job show_id ctx llm threshold locked db).0
              (run_next_extraction_job show_id ctx llm threshold locked db).1)
unfolding run_next_extraction_job ExtractionJobs.claim_next_queued
run_next_extraction_job-Ends show_id ctx llm threshold locked db all =
    elim (claim_next-hands ctx.now locked db.extraction_jobs all) [
      | inl e ↦ inl (rw e refl)
      | inr (job, table, e, h) ↦
          let claimed = record db { extraction_jobs = table } in
          inr (
            job,
            claimed,
            rw e refl,
            rw e (run_claimed-Ends show_id ctx llm threshold job claimed h),
          )
    ]
