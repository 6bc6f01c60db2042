-- ===== src/Services/ChangeReportRun/Runner.antt =====
-- `run_next_change_report_job`: the analysis of two versions, the stored report and the routed
-- impacts. An exception that the handler does not catch leaves what was committed before it.
use contract_change_intel.Prelude.{
  ℕ, ℤ, Text, String, codes, List, [], ◌∷◌, ◌++◌, map, Option, none, some, Bool, true, false,
  if◌then◌else◌,
}
use contract_change_intel.Store.Json.{
  Json, Fields, int, float, str, word, arr, obj, field, end, opt_json, items_of,
}
use contract_change_intel.Store.Rows.{
  ChangeReportJob, ReportPair, DocumentText, Db, Ctx, impact_mapping, is_failed,
}
use contract_change_intel.Store.Rows
use contract_change_intel.Repositories.DocumentTexts
use contract_change_intel.Repositories.ChangeReportJobs
use contract_change_intel.Repositories.ReviewItems.{Candidate}
use contract_change_intel.Repositories.Usage.{LlmUsage, record_usage}
use contract_change_intel.Services.ReviewQueue.{route_for_review}
use contract_change_intel.Diffing.Keys.{Unicode}
use contract_change_intel.Diffing.Align.{
  Change, ChangeKind, added, removed, modified, Span, detect_changes,
}
use contract_change_intel.Impact.{Impact}
use contract_change_intel.Impact.Call.{excerpt}
use contract_change_intel.Services.ChangeReportRun.Explain.{
  ChangeExplanation, severity_word, explain_changes,
}
use contract_change_intel.Services.ChangeReportRun.MapImpacts.{Tools, map_impacts}
use contract_change_intel.Llm.Failure.{
  Failure, value_error, other_error, message_of, usage_of, Outcome, returned, raised, Run, ◌>>=◌,
  pure, query, require,
}

-- What `zip(changes, explanations, impacts)` gives one turn of a loop.
pub record Row : Type 0 where
  pub change : Change
  pub explanation : ChangeExplanation
  pub impacts : List Impact

abbrev pub with_row : Row → Option (List Row) → Option (List Row)
with_row row none = none
with_row row (some rows) = some (row ∷ rows)

-- `none` is the ValueError of `strict=True` for lists that are not as long as each other.
unfoldable pub zip_rows :
    List Change → List ChangeExplanation → List (List Impact) → Option (List Row)
zip_rows [] [] [] = some []
zip_rows (c ∷ cs) (e ∷ es) (is ∷ iss) =
    with_row (record { change = c; explanation = e; impacts = is }) (zip_rows cs es iss)
zip_rows _ _ _ = none

pub record Analysis : Type 0 where
  pub base_text : Text
  pub amended_text : Text
  pub changes : List Change
  pub explanations : List ChangeExplanation
  pub impacts : List (List Impact)

abbrev pub kind_name : ChangeKind → String
kind_name added = "added"
kind_name removed = "removed"
kind_name modified = "modified"

abbrev pub span_json : Span → Json
span_json s = obj (field "char_start" (int s.char_start) (field "char_end" (int s.char_end) end))

-- The entries of an impact, before those of `rest`.
abbrev pub impact_fields : Impact → Fields → Fields
impact_fields i rest = field "clause_ref" (str i.obligation.clause_ref) (
    field "description" (str i.obligation.description) (
      field "owner" (opt_json str i.obligation.owner)
        (field "confidence" (float i.confidence) rest)))

abbrev pub impact_json : Impact → Json
impact_json i = obj (impact_fields i end)

abbrev pub row_json : Text → Text → Row → Json
row_json base_text amended_text r = obj (
    field "kind" (word (kind_name r.change.kind)) (
      field "clause_ref" (opt_json str r.change.clause_ref) (
        field "base_span" (opt_json span_json r.change.base_span) (
          field "amended_span" (opt_json span_json r.change.amended_span) (
            field "base_excerpt" (opt_json (λ s. str (excerpt base_text s)) r.change.base_span) (
              field "amended_excerpt"
                (opt_json (λ s. str (excerpt amended_text s)) r.change.amended_span)
                (field "description" (str r.explanation.description) (
                  field "severity" (word (severity_word r.explanation.severity))
                    (field "impacts" (arr (items_of impact_json r.impacts)) end)))))))))

abbrev pub report_json : Text → Text → List Row → Json
report_json base_text amended_text rows =
    obj (field "changes" (arr (items_of (row_json base_text amended_text) rows)) end)

-- `_review_change`
abbrev pub review_change : Change → ChangeExplanation → Json
review_change c e = obj (
    field "kind" (word (kind_name c.kind)) (
      field "clause_ref" (opt_json str c.clause_ref) (
        field "severity" (word (severity_word e.severity))
          (field "description" (str e.description) end))))

abbrev pub impact_candidate : Row → Impact → Candidate
impact_candidate r i = record {
  item_type = "impact";
  payload = obj (impact_fields i (field "change" (review_change r.change r.explanation) end));
  confidence = i.confidence;
}

abbrev pub review_candidates : List Row → List Candidate
review_candidates [] = []
review_candidates (r ∷ rows) = map (impact_candidate r) r.impacts ++ review_candidates rows

-- `except (LlmError, ValueError)`
abbrev pub is_caught : Failure → Bool
is_caught (other_error m) = false
is_caught _ = true

abbrev pub no_text : Text
no_text = codes " has no parsed text; change reports require completed ingestions"

-- `show_id` is the text of a UUID.
module _ (t : Tools) (unicode : Unicode) (show_id : ℕ → Text) (ctx : Ctx) (threshold : ℤ) where
  -- `_parsed_text`
  unfoldable pub parsed_text : ℕ → Run Text
  parsed_text document_id = do
    row ← query (DocumentTexts.find_by_document_id document_id)
    text_row ← require row (value_error (codes "document " ++ (show_id document_id ++ no_text)))
    pure text_row.text

  -- `sink`, bound to the job.
  abbrev pub report_usage : ChangeReportJob → LlmUsage → Db → Db
  report_usage job usage db =
      record_usage ctx job.tenant_id Rows.UsageJobKind.change_report (some job.id) usage db

  -- The body of the `try`.
  unfoldable pub analyse : ChangeReportJob → Run Analysis
  unfolding parsed_text
  analyse job = do
    base_text ← parsed_text job.subject.base_document_id
    amended_text ← parsed_text job.subject.amended_document_id
    explanations ←
        explain_changes t.show_int t.client.explain (report_usage job)
          (detect_changes unicode base_text amended_text) base_text amended_text
    impacts ←
        map_impacts t (report_usage job) job.tenant_id job.subject.base_document_id
          (detect_changes unicode base_text amended_text) base_text amended_text
    pure (record {
      base_text = base_text;
      amended_text = amended_text;
      changes = detect_changes unicode base_text amended_text;
      explanations = explanations;
      impacts = impacts;
    })

  -- `account_rejected_output`
  abbrev pub account_rejected : ChangeReportJob → Option LlmUsage → Db → Db
  account_rejected job none db = db
  account_rejected job (some usage) db = report_usage job usage db

  abbrev pub route_impacts : ChangeReportJob → List Row → Db → Db
  route_impacts job rows db =
      (route_for_review ctx job.tenant_id impact_mapping job.subject.base_document_id job.id
        (review_candidates rows) threshold db).1

  abbrev pub complete_run : ChangeReportJob → Analysis → Option (List Row) → Db → Outcome Bool × Db
  complete_run job a none db = (raised (value_error (codes "zip() arguments differ in length")), db)
  complete_run job a (some rows) db = (
    returned true,
    route_impacts job rows
        (ChangeReportJobs.mark_completed job (report_json a.base_text a.amended_text rows) db),
  )

  abbrev pub settle : ChangeReportJob → Outcome Analysis → Db → Outcome Bool × Db
  settle job (raised e) db =
      if is_caught e
      then (
        returned true,
        account_rejected job (usage_of e) (ChangeReportJobs.mark_failed job (message_of e) db),
      )
      else (raised e, db)
  settle job (returned a) db = complete_run job a (zip_rows a.changes a.explanations a.impacts) db

  abbrev pub run_claimed : Option ChangeReportJob → Db → Outcome Bool × Db
  run_claimed none db = (returned false, db)
  run_claimed (some job) db =
      if is_failed job.status
      then (returned true, db)
      else settle job (analyse job db).0 (analyse job db).1

  unfoldable pub run_next_change_report_job : (ℕ → Bool) → Db → Outcome Bool × Db
  unfolding analyse zip_rows
  run_next_change_report_job locked db =
      let (job, claimed) = ChangeReportJobs.claim_next_queued ctx locked db in
      run_claimed job claimed
